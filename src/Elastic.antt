-- ===== src/Elastic.antt =====
-- The table of metrics of src/diamond/collectors/elasticsearch/elasticsearch.py: the helpers that
-- put the values of a document into it.
pub mod Totals
pub mod Node
pub mod Jvm
pub mod Indices
pub mod Collect
pub mod Run
use fullerite.Base.{
  ℕ, String, Bool, true, false, ◌||◌, Option, none, some, List, [], ◌∷◌, ◌++◌, map, if◌then◌else◌,
}
use fullerite.Base.Int.{pos}
use fullerite.Base.Text.{Str, codes, str_eq, contains}
use fullerite.Base.Dict.{Dict, lookup, insert}
use fullerite.Base.Result.{Result, ok, err, type_error, attribute_error, bind, ◌>>=◌}
use fullerite.Python.{Float, Num, int, flt}
use fullerite.Python.Arith.{num_add}
use fullerite.Python.Convert.{bool_int}
use fullerite.Convertor.Binary.{convert}
use fullerite.Json.{
  Json, null, flag, number, text, items, object, Items, no_items, item, Fields, no_fields, field,
  get_field, get, index, fields_of,
}

-- `a + b` of two lists
abbrev pub append_items : {F : Type 0} → Items F → Items F → Items F
append_items no_items b = b
append_items (item v a) b = item v (append_items a b)

-- whether a text is among the elements of a list
abbrev pub has_item : {F : Type 0} → Str → Items F → Bool
has_item key no_items = false
has_item key (item (text s) vs) = str_eq s key || has_item key vs
has_item key (item v vs) = has_item key vs

module _ (fl : Float) where
  open fl use {Carrier}

  abbrev pub Metrics : Type 0
  Metrics = Dict (Json Carrier)

  abbrev pub numeric : Json Carrier → Result (Num Carrier)
  numeric (number n) = ok n
  numeric (flag b) = ok (int (bool_int b))
  numeric v = err type_error

  -- `a + b`
  unfoldable pub add_values : Json Carrier → Json Carrier → Result (Json Carrier)
  unfolding num_add
  add_values (text s) (text t) = ok (text (s ++ t))
  add_values (items a) (items b) = ok (items (append_items a b))
  add_values a b = do x ← numeric a; y ← numeric b; z ← num_add fl x y; ok (number z)

  -- `_set_or_sum_metric`
  unfoldable pub set_or_sum : Str → Json Carrier → Metrics → Result Metrics
  unfolding insert
  set_or_sum path v m = elim (lookup path m) [
    | none ↦ ok (insert path v m)
    | some old ↦ bind (add_values old v) λ s. ok (insert path s m)
  ]

  -- `_copy_one_level`, for the items of the dict
  unfoldable pub copy_fields : (Str → Bool) → Str → Fields Carrier → Metrics → Result Metrics
  unfolding set_or_sum
  copy_fields keep prefix no_fields m = ok m
  copy_fields keep prefix (field key v fs) m =
      bind (if keep key then set_or_sum (prefix ++ b'.' ∷ key) v m else ok m)
        λ n. copy_fields keep prefix fs n

  abbrev pub copy_one_level : (Str → Bool) → Str → Json Carrier → Metrics → Result Metrics
  unfolding copy_fields
  copy_one_level keep prefix d m = do fs ← fields_of d; copy_fields keep prefix fs m

  unfoldable pub copy_levels : (Str → Bool) → Str → Fields Carrier → Metrics → Result Metrics
  unfolding copy_one_level
  copy_levels keep prefix no_fields m = ok m
  copy_levels keep prefix (field key d fs) m =
      bind (copy_one_level keep (prefix ++ b'.' ∷ key) d m) λ n. copy_levels keep prefix fs n

  -- `_copy_two_level`
  abbrev pub copy_two_level : (Str → Bool) → Str → Json Carrier → Metrics → Result Metrics
  unfolding copy_levels
  copy_two_level keep prefix d m = do fs ← fields_of d; copy_levels keep prefix fs m

  -- What `convert` of the unit convertor gives back.
  abbrev pub converted : Option Carrier → Json Carrier
  converted none = null
  converted (some x) = number (flt x)

  -- `_normalize_metric_value`; a value in kilobytes is taken for a number.
  unfoldable pub normalize_metric_value : Str → Json Carrier → Result (Json Carrier)
  unfolding convert
  normalize_metric_value name v =
      let bytes = bind (numeric v) λ n.
        bind (convert fl (some n) (some (codes "kilobyte")) (some (codes "byte")))
          λ x. ok (converted x) in
      if contains name (codes "kilobyte") then bytes else ok v

  -- The value at the end of a path, where None or a missing key ends the search.
  unfoldable pub find_value : List Str → Json Carrier → Result (Option (Json Carrier))
  unfolding get normalize_metric_value
  find_value [] v = ok (some v)
  find_value (key ∷ keys) v = elim (get v key) [
    | err e ↦ err e
    | ok none ↦ ok none
    | ok (some null) ↦ ok none
    | ok (some u) ↦ bind (normalize_metric_value key u) λ x. find_value keys x
  ]

  -- `_add_metric`
  unfoldable pub add_metric : Str → Json Carrier → List Str → Metrics → Result Metrics
  unfolding find_value set_or_sum
  add_metric path v keys m = elim (find_value keys v) [
    | err e ↦ err e
    | ok none ↦ ok m
    | ok (some u) ↦ set_or_sum path u m
  ]

  -- `_add_metric` for each name and path of a list
  unfoldable pub add_metrics : List (String × List String) → Json Carrier → Metrics → Result Metrics
  unfolding add_metric
  add_metrics [] v m = ok m
  add_metrics ((name, keys) ∷ more) v m =
      bind (add_metric (codes name) v (map codes keys) m) λ n. add_metrics more v n

  -- `d[a][b]...`
  unfoldable pub at_path : List Str → Json Carrier → Result (Json Carrier)
  unfolding index
  at_path [] v = ok v
  at_path (key ∷ keys) v = bind (index v key) λ u. at_path keys u

  -- `metrics[name] = d[a][b]...` for each name and path of a list
  unfoldable pub set_metrics : List (String × List String) → Json Carrier → Metrics → Result Metrics
  unfolding at_path insert
  set_metrics [] v m = ok m
  set_metrics ((name, keys) ∷ more) v m =
      bind (at_path (map codes keys) v) λ u. set_metrics more v (insert (codes name) u m)

  -- `key in v`
  unfoldable pub has_field : Str → Json Carrier → Result Bool
  unfolding get_field
  has_field key (object fs) = ok (elim (get_field key fs) [ none ↦ false | some v ↦ true ])
  has_field key (items vs) = ok (has_item key vs)
  has_field key (text s) = ok (contains s key)
  has_field key v = err type_error
