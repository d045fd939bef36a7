-- ===== src/Base/Dict.antt =====
-- Python's `dict` with `str` keys, as an association list.
use fullerite.Base.Tests.{if◌then◌else◌}
use fullerite.Base.Text.{Str, str_eq, str_eq→eq, str_eq_refl}
use mathlib.Core.Path.{◌≡◌, refl, ap, ◌∙◌}
use mathlib.Core.Bool.{Bool, true, false}
use mathlib.Core.Option.{Option, none, some}
use mathlib.Core.List.{List, [], ◌∷◌}
use native.Mathlib.Omega.{arith}

abbrev pub Dict {ℓ} : Type ℓ → Type ℓ
Dict V = List (Str × V)

module _ {ℓ} {V : Type ℓ} where
  -- `d[k]`, `d.get(k)`
  unfoldable pub lookup : Str → Dict V → Option V
  lookup k [] = none
  lookup k ((j, v) ∷ d) = if str_eq j k then some v else lookup k d

  -- `d[k] = v`
  unfoldable pub insert : Str → V → Dict V → Dict V
  insert k v [] = (k, v) ∷ []
  insert k v ((j, w) ∷ d) = if str_eq j k then (j, v) ∷ d else (j, w) ∷ insert k v d

  -- `d.update(e)`
  unfoldable pub update : Dict V → Dict V → Dict V
  unfolding insert
  update d [] = d
  update d ((k, v) ∷ e) = update (insert k v d) e

  -- `k in d`
  unfoldable pub has_key : Str → Dict V → Bool
  unfolding lookup
  has_key k d = elim (lookup k d) [ none ↦ false | some _ ↦ true ]

  -- `d.keys()`
  abbrev pub keys : Dict V → List Str
  keys [] = []
  keys ((k, v) ∷ d) = k ∷ keys d

  pub lookup-insert :
      (k j : Str) (v : V) (d : Dict V)
      → lookup j (insert k v d) ≡ (if str_eq k j then some v else lookup j d)
  unfolding lookup insert
  lookup-insert k j v [] = refl
  lookup-insert k j v ((i, w) ∷ d) = ground (
    arith,
    str_eq→eq i k,
    str_eq→eq i j,
    str_eq→eq k j,
    str_eq_refl k,
    str_eq_refl j,
    str_eq_refl i,
    lookup-insert k j v d,
  )

-- The last value that a list of items gives a key: the value in the dict made of them.
module _ {ℓ} {V : Type ℓ} where
  abbrev pub or_else : Option V → Option V → Option V
  or_else none o = o
  or_else (some v) o = some v

  unfoldable pub lookup_last : Str → Dict V → Option V
  lookup_last k [] = none
  lookup_last k ((j, v) ∷ d) = or_else (lookup_last k d) (if str_eq j k then some v else none)

  or_else_assoc : (a b c : Option V) → or_else a (or_else b c) ≡ or_else (or_else a b) c
  or_else_assoc none b c = refl
  or_else_assoc (some v) b c = refl

  or_else_if :
      (b : Bool) (v : V) (c : Option V)
      → (if b then some v else c) ≡ or_else (if b then some v else none) c
  or_else_if true v c = refl
  or_else_if false v c = refl

  pub lookup-update :
      (j : Str) (d e : Dict V) → lookup j (update d e) ≡ or_else (lookup_last j e) (lookup j d)
  unfolding update lookup_last
  lookup-update j d [] = refl
  lookup-update j d ((k, v) ∷ e) =
      lookup-update j (insert k v d) e
      ∙ ap (or_else (lookup_last j e))
          (lookup-insert k j v d ∙ or_else_if (str_eq k j) v (lookup j d))
      ∙ or_else_assoc (lookup_last j e) (if str_eq k j then some v else none) (lookup j d)
