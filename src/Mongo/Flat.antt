-- ===== src/Mongo/Flat.antt =====
-- `_publish_metrics` and `_publish_dict_with_prefix` of src/diamond/collectors/mongodb/mongodb.py
-- and tokumx/tokumx.py, beside the list of a document's leaves.
use fullerite.Base.{
  ℕ, ◌≡◌, refl, ◌∙◌, sym, if◌then◌else◌, inl, inr, Bool, true, false, List, [], ◌∷◌, ◌++◌, arith,
}
use mathlib.Core.Path.{fun_ext}
use fullerite.Base.Text.{Str}
use fullerite.Base.Result.{Result-cases}
use fullerite.Base.Exec.{Exec, pure, ◌>>◌}
use fullerite.Python.{Value}
use fullerite.Collector.State.{World, Collector, Action}
use fullerite.Json.{Json, null, flag, number, text, items, object, Fields, no_fields, field}
use fullerite.Mongo.{
  publish_leaf, publish_value, publish_tree, publish_nested, publish_metrics, publish_fields,
}

-- A value that is no dict, with the keys that lead to it and whether it stands inside a dict.
pub record Leaf (F : Type 0) : Type 0 where
  pub nested : Bool
  pub keys : List Str
  pub value : Json F

-- The leaves, in the order of the document.
unfoldable mutual
  pub leaves : {F : Type 0} → Bool → List Str → Json F → List (Leaf F)
  leaves inside keys (object fs) = leaves_of true keys fs
  leaves inside keys null = record { nested = inside; keys = keys; value = null } ∷ []
  leaves inside keys (flag b) = record { nested = inside; keys = keys; value = flag b } ∷ []
  leaves inside keys (number n) = record { nested = inside; keys = keys; value = number n } ∷ []
  leaves inside keys (text s) = record { nested = inside; keys = keys; value = text s } ∷ []
  leaves inside keys (items vs) = record { nested = inside; keys = keys; value = items vs } ∷ []

  pub leaves_of : {F : Type 0} → Bool → List Str → Fields F → List (Leaf F)
  leaves_of inside keys no_fields = []
  leaves_of inside keys (field k v fs) =
      leaves inside (keys ++ k ∷ []) v ++ leaves_of inside keys fs

-- One action for each element of a list.
unfoldable pub for_each : {S A : Type 0} → (A → Exec S (Unit {0})) → List A → Exec S (Unit {0})
for_each f [] = pure tt
for_each f (a ∷ l) = do f a; for_each f l

for_each-append :
    {S A : Type 0} (f : A → Exec S (Unit {0})) (l m : List A) (s : S)
    → for_each f (l ++ m) s ≡ (for_each f l >> for_each f m) s
unfolding for_each
for_each-append f [] m s = refl
for_each-append f (a ∷ l) m s = elim (Result-cases (f a s).0) [
  | inl (u, e) ↦ ground (arith, for_each-append f l m (f a s).1)
  | inr (x, e) ↦ ground arith
]

-- Two actions in sequence, each replaced by an equal one.
then_cong :
    {S : Type 0} (m m' k k' : Exec S (Unit {0})) (s : S)
    → m s ≡ m' s
    → ((t : S) → k t ≡ k' t)
    → (m >> k) s ≡ (m' >> k') s
then_cong m m' k k' s e h = elim (Result-cases (m' s).0) [
  | inl (u, ok_e) ↦ ground (arith, h (m' s).1)
  | inr (x, err_e) ↦ ground arith
]

-- The action on a leaf: one that stands inside a dict has its own.
abbrev on_leaf :
    {F : Type 0}
    → (deep here : List Str → Json F → Exec {0, 0} (Collector F) (Unit {0})) → Leaf F
    → Exec {0, 0} (Collector F) (Unit {0})
on_leaf deep here l = if l.nested then deep l.keys l.value else here l.keys l.value

-- An action alone is one on a list of one.
alone : {S : Type 0} (m : Exec S (Unit {0})) (s : S) → m s ≡ (m >> pure tt) s
alone m s = elim (Result-cases (m s).0) [ inl (tt, e) ↦ ground arith | inr (x, e) ↦ ground arith ]

mutual
  unfolding publish_tree publish_nested leaves leaves_of for_each

  deep_tree :
      {F : Type 0} (deep here : List Str → Json F → Exec {0, 0} (Collector F) (Unit {0}))
      (keys : List Str) (v : Json F) (s : Collector F)
      → publish_tree deep deep keys v s ≡ for_each (on_leaf deep here) (leaves true keys v) s
  deep_tree deep here keys (object fs) s = deep_nested deep here keys fs s
  deep_tree deep here keys null s = alone (deep keys null) s
  deep_tree deep here keys (flag b) s = alone (deep keys (flag b)) s
  deep_tree deep here keys (number n) s = alone (deep keys (number n)) s
  deep_tree deep here keys (text t) s = alone (deep keys (text t)) s
  deep_tree deep here keys (items vs) s = alone (deep keys (items vs)) s

  deep_nested :
      {F : Type 0} (deep here : List Str → Json F → Exec {0, 0} (Collector F) (Unit {0}))
      (keys : List Str) (fs : Fields F) (s : Collector F)
      → publish_nested deep keys fs s ≡ for_each (on_leaf deep here) (leaves_of true keys fs) s
  deep_nested deep here keys no_fields s = refl
  deep_nested deep here keys (field k v fs) s =
      then_cong (publish_tree deep deep (keys ++ k ∷ []) v)
        (for_each (on_leaf deep here) (leaves true (keys ++ k ∷ []) v))
        (publish_nested deep keys fs) (for_each (on_leaf deep here) (leaves_of true keys fs)) s
        (deep_tree deep here (keys ++ k ∷ []) v s) (λ t. deep_nested deep here keys fs t)
      ∙ sym (
          for_each-append (on_leaf deep here) (leaves true (keys ++ k ∷ []) v)
            (leaves_of true keys fs) s)

tree :
    {F : Type 0} (deep here : List Str → Json F → Exec {0, 0} (Collector F) (Unit {0}))
    (keys : List Str) (v : Json F) (s : Collector F)
    → publish_tree deep here keys v s ≡ for_each (on_leaf deep here) (leaves false keys v) s
unfolding publish_tree leaves for_each
tree deep here keys (object fs) s = deep_nested deep here keys fs s
tree deep here keys null s = alone (here keys null) s
tree deep here keys (flag b) s = alone (here keys (flag b)) s
tree deep here keys (number n) s = alone (here keys (number n)) s
tree deep here keys (text t) s = alone (here keys (text t)) s
tree deep here keys (items vs) s = alone (here keys (items vs)) s

module _ (w : World) (depth : ℕ) where
  open w use {float, float.{Carrier}}

  -- what is done with one leaf of a document
  abbrev pub publish_found : (Str → Value Carrier → Action w Unit) → Leaf Carrier → Action w Unit
  publish_found fn l =
      publish_leaf w depth (if l.nested then publish_value w depth else fn) l.keys l.value

  publish_found-on_leaf :
      (fn : Str → Value Carrier → Action w Unit)
      → publish_found fn
        ≡ on_leaf (publish_leaf w depth (publish_value w depth)) (publish_leaf w depth fn)
  publish_found-on_leaf fn = fun_ext λ l.
      elim l.nested
        as (λ b. publish_leaf w depth (if b then publish_value w depth else fn) l.keys l.value ≡ (
          if b
          then publish_leaf w depth (publish_value w depth) l.keys l.value
          else publish_leaf w depth fn l.keys l.value)) [ true ↦ refl | false ↦ refl ]

  -- `_publish_dict_with_prefix` does to the collector what publishing the leaves of the document
  -- one after the other does, an exception ending both: a leaf at the top by the function passed
  -- in, and a leaf inside a dict by `publish`.
  pub publish_fields-leaves_of :
      (fn : Str → Value Carrier → Action w Unit) (prefix : List Str) (fs : Fields Carrier)
      (c : Collector Carrier)
      → publish_fields w depth fn prefix fs c
        ≡ for_each (publish_found fn) (leaves_of false prefix fs) c
  unfolding publish_fields publish_metrics leaves_of for_each
  publish_fields-leaves_of fn prefix no_fields c = refl
  publish_fields-leaves_of fn prefix (field k v fs) c =
      then_cong (publish_metrics w depth fn (prefix ++ k ∷ []) v)
        (for_each (publish_found fn) (leaves false (prefix ++ k ∷ []) v))
        (publish_fields w depth fn prefix fs)
        (for_each (publish_found fn) (leaves_of false prefix fs)) c
        (rw (publish_found-on_leaf fn) (
          tree (publish_leaf w depth (publish_value w depth)) (publish_leaf w depth fn)
            (prefix ++ k ∷ []) v c))
        (λ t. publish_fields-leaves_of fn prefix fs t)
      ∙ sym (
          for_each-append (publish_found fn) (leaves false (prefix ++ k ∷ []) v)
            (leaves_of false prefix fs) c)
