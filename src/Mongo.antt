-- ===== src/Mongo.antt =====
-- src/diamond/collectors/mongodb/mongodb.py and tokumx/tokumx.py: numbers out of documents.
pub mod Flat
pub mod Locks
pub mod Server
pub mod Collect
pub mod Hosts
use fullerite.Base.{
  ℕ, zero, suc, Bool, true, false, not, Option, none, some, List, [], ◌∷◌, ◌++◌, if◌then◌else◌,
}
use fullerite.Base.Int.{ℤ, pos}
use fullerite.Base.Text.{Str, codes, join, split}
use fullerite.Base.Dict.{Dict, lookup, insert}
use fullerite.Base.Result.{Result, ok, err, attribute_error, type_error, bind}
use fullerite.Base.Exec.{Exec, pure, lift, gets, modify, ◌>>=◌, ◌>>◌}
use fullerite.Python.{Num, int, long, flt, Value, nil, bool, num, str}
use fullerite.Python.Arith.{to_float, num_sub, num_add, num_scale, float_div}
use fullerite.Python.Convert.{bool_int, value_float}
use fullerite.Collector.State.{World, Collector, Action}
use fullerite.Collector.Derivative.{Counting, default_counting, derivative}
use fullerite.Collector.Publish.{is_true, publish}
use fullerite.Collector.Run.{sample, publish_counter}
use fullerite.Json.{
  Json, null, flag, number, text, items, object, Items, no_items, item, Fields, no_fields, field,
  get_field, get, fields_of,
}

-- The collector with its `__totals`.
pub record Mongo (F : Type 0) : Type 0 where
  pub collector : Collector F
  pub totals : Dict (Num F)

module _ (w : World) (depth : ℕ) where
  open w use {float, float.{Carrier}, float_zero}

  abbrev pub Reading : Type 0 → Type 0
  Reading A = Exec (Mongo Carrier) A

  abbrev pub on_collector : {A : Type 0} → Action w A → Reading A
  on_collector m s = let (r, c) = m s.collector in (r, record s { collector = c })

  -- `self.publish(name, value)`
  unfoldable pub publish_value : Str → Value Carrier → Action w Unit
  publish_value name v = publish w depth (sample name v (codes "GAUGE"))

  -- `self.publish_counter(name, value)`; a truth value counts as 0 or 1.
  unfoldable pub count_value : Str → Value Carrier → Action w Unit
  count_value name (num n) = publish_counter w depth name n 0 default_counting
  count_value name (bool b) = do
    rate ← derivative w name (int (bool_int b)) default_counting
    publish w depth (record (sample name (num rate) (codes "COUNTER")) { raw_value = bool b })
  count_value name v = lift (err type_error)

  -- The value of a leaf, `float` of a long one; none where it is passed over.
  abbrev pub leaf : Json Carrier → Result (Option (Value Carrier))
  unfolding to_float
  leaf (number (int n)) = ok (some (num (int n)))
  leaf (number (flt x)) = ok (some (num (flt x)))
  leaf (number (long n)) = bind (to_float float (long n)) λ x. ok (some (num (flt x)))
  leaf (flag b) = ok (some (bool b))
  leaf v = ok none

  abbrev pub on_some : (Value Carrier → Action w Unit) → Option (Value Carrier) → Action w Unit
  on_some f none = pure tt
  on_some f (some v) = f v

  unfoldable pub publish_leaf :
      (Str → Value Carrier → Action w Unit) → List Str → Json Carrier → Action w Unit
  publish_leaf fn keys v = do n ← lift (leaf v); on_some (fn (join b'.' keys)) n

-- `_publish_metrics` for a value that is there, and its loop over a dict. What to do with a value
-- that is no dict is given twice: `here` for the value itself, `nested` for those inside a dict.
unfoldable mutual
  pub publish_tree :
      {F : Type 0}
      → (List Str → Json F → Exec {0, 0} (Collector F) (Unit {0}))
      → (List Str → Json F → Exec {0, 0} (Collector F) (Unit {0}))
      → List Str
      → Json F
      → Exec {0, 0} (Collector F) (Unit {0})
  publish_tree nested here keys (object fs) = publish_nested nested keys fs
  publish_tree nested here keys null = here keys null
  publish_tree nested here keys (flag b) = here keys (flag b)
  publish_tree nested here keys (number n) = here keys (number n)
  publish_tree nested here keys (text s) = here keys (text s)
  publish_tree nested here keys (items vs) = here keys (items vs)

  pub publish_nested :
      {F : Type 0}
      → (List Str → Json F → Exec {0, 0} (Collector F) (Unit {0}))
      → List Str
      → Fields F
      → Exec {0, 0} (Collector F) (Unit {0})
  publish_nested nested keys no_fields = pure tt
  publish_nested nested keys (field k v fs) = do
    publish_tree nested nested (keys ++ k ∷ []) v
    publish_nested nested keys fs

module _ (w : World) (depth : ℕ) where
  open w use {float, float.{Carrier}, float_zero}

  -- `_publish_metrics` for a value that is there: inside a dict it is `publish` again.
  unfoldable pub publish_metrics :
      (Str → Value Carrier → Action w Unit) → List Str → Json Carrier → Action w Unit
  publish_metrics fn =
      publish_tree (publish_leaf w depth (publish_value w depth)) (publish_leaf w depth fn)

  -- `_publish_dict_with_prefix`
  unfoldable pub publish_fields :
      (Str → Value Carrier → Action w Unit) → List Str → Fields Carrier → Action w Unit
  publish_fields fn prefix no_fields = pure tt
  publish_fields fn prefix (field k v fs) = do
    publish_metrics fn (prefix ++ k ∷ []) v
    publish_fields fn prefix fs

  -- `_publish_metrics` for one key, which may be missing
  unfoldable pub publish_key :
      (Str → Value Carrier → Action w Unit) → List Str → Str → Fields Carrier → Action w Unit
  unfolding get_field
  publish_key fn prefix key fs = elim (get_field key fs) [
    | none ↦ pure tt
    | some v ↦ publish_metrics fn (prefix ++ key ∷ []) v
  ]

  -- what Python takes for false
  abbrev pub is_falsy : Json Carrier → Bool
  is_falsy null = true
  is_falsy (flag b) = not b
  is_falsy (number n) = not (is_true w (num n))
  is_falsy (text []) = true
  is_falsy (items no_items) = true
  is_falsy (object no_fields) = true
  is_falsy v = false

  -- `get_dotted_value`, for the parts of the key
  unfoldable pub dotted : Json Carrier → List Str → Result (Json Carrier)
  unfolding get_field
  dotted d [] = ok d
  dotted (object fs) (k ∷ ks) = elim (get_field k fs) [
    | none ↦ ok (number (int (pos 0)))
    | some v ↦ let rest = dotted v ks in if is_falsy v then ok (number (int (pos 0))) else rest
  ]
  dotted d (k ∷ ks) = err attribute_error

  abbrev pub dotted_value : Json Carrier → Str → Result (Json Carrier)
  unfolding dotted split
  dotted_value d key = dotted d (split b'.' key)

  -- the operand of a subtraction
  abbrev pub numeric : Json Carrier → Result (Num Carrier)
  numeric (number n) = ok n
  numeric (flag b) = ok (int (bool_int b))
  numeric v = err type_error

  -- `a + b`
  abbrev pub plus : Json Carrier → Json Carrier → Result (Value Carrier)
  unfolding num_add
  plus (text s) (text t) = ok (str (s ++ t))
  plus a b = bind (numeric a) λ x. bind (numeric b) λ y. bind (num_add float x y) λ z. ok (num z)

  -- a text written a number of times
  abbrev pub repeat : ℕ → Str → Str
  repeat zero s = []
  repeat (suc n) s = s ++ repeat n s

  -- `v * 100`, for `float`
  abbrev pub hundredfold : Json Carrier → Result (Value Carrier)
  unfolding num_scale
  hundredfold (text s) = ok (str (repeat 100 s))
  hundredfold v = bind (numeric v) λ x. bind (num_scale float x 100) λ y. ok (num y)

  -- `compute_interval`
  unfoldable pub compute_interval : List Str → Json Carrier → Str → Reading w depth (Num Carrier)
  compute_interval base d total = do
    v ← lift (dotted_value d total)
    let key = join b'.' (base ++ total ∷ [])
    s ← gets (λ s. s)
    interval ← elim (lookup key s.totals) [
      | none ↦ lift (bind (numeric v) λ n. num_sub float n n)
      | some old ↦ lift (bind (numeric v) λ n. num_sub float n old)
    ]
    current ← lift (numeric v)
    modify (λ s. record s { totals = insert key current s.totals })
    pure interval

  -- the counting with an interval
  abbrev pub counting : Num Carrier → Counting Carrier
  counting interval = record default_counting {
    time_delta = is_true w (num interval);
    interval = some interval;
  }

  -- `publish_percent`
  unfoldable pub publish_percent : List Str → Str → Str → Json Carrier → Reading w depth Unit
  publish_percent base value_name total_name d = do
    v ← lift (dotted_value d value_name)
    scaled ← lift (hundredfold v)
    value ← lift (value_float float scaled)
    interval ← compute_interval base d total_name
    on_collector w depth (
        publish_counter w depth (join b'.' (base ++ codes "percent" ∷ value_name ∷ [])) (flt value)
          0 (counting interval))
