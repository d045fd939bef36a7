-- ===== src/Elastic/Totals.antt =====
-- `_set_or_sum_metric`, `_copy_one_level` and `_copy_two_level` of
-- src/diamond/collectors/elasticsearch/elasticsearch.py, beside the sums of single metrics.
use fullerite.Base.{
  ◌≡◌, ap, Bool, ◌&&◌, Bool-cases, Option, none, some, Option-cases, inl, inr, ◌∷◌, ◌++◌, arith,
  if◌then◌else◌,
}
use fullerite.Base.Text.{Str, str_eq, str_eq→eq}
use fullerite.Base.Dict.{lookup, lookup-insert}
use fullerite.Base.Result.{Result, Result-cases, ok, bind}
use fullerite.Python.{Float}
use fullerite.Json.{Json, Fields, no_fields, field, fields_of}
use fullerite.Elastic.{Metrics, add_values, set_or_sum, copy_fields, copy_levels}

module _ (fl : Float) where
  open fl use {Carrier}

  -- a value added to one that may be there
  unfoldable pub add_to : Option (Json Carrier) → Json Carrier → Result (Option (Json Carrier))
  unfolding add_values
  add_to none v = ok (some v)
  add_to (some old) v = bind (add_values fl old v) λ s. ok (some s)

  -- What the kept items of a dict add up to under one metric's path.
  unfoldable pub total :
      (Str → Bool)
      → Str
      → Str
      → Fields Carrier
      → Option (Json Carrier)
      → Result (Option (Json Carrier))
  unfolding add_to
  total keep prefix path no_fields old = ok old
  total keep prefix path (field key v fs) old =
      bind (if keep key && str_eq (prefix ++ b'.' ∷ key) path then add_to old v else ok old)
        λ s. total keep prefix path fs s

  -- The same for the items of the dicts in a dict.
  unfoldable pub total_levels :
      (Str → Bool)
      → Str
      → Str
      → Fields Carrier
      → Option (Json Carrier)
      → Result (Option (Json Carrier))
  unfolding total
  total_levels keep prefix path no_fields old = ok old
  total_levels keep prefix path (field key d fs) old = bind (fields_of d) λ inner.
      bind (total keep (prefix ++ b'.' ∷ key) path inner old)
        λ s. total_levels keep prefix path fs s

  set_or_sum-lookup :
      (path j : Str) (v : Json Carrier) (m n : Metrics fl)
      → set_or_sum fl path v m ≡ ok n
      → (if str_eq path j then add_to (lookup j m) v else ok (lookup j m)) ≡ ok (lookup j n)
  unfolding set_or_sum add_to
  set_or_sum-lookup path j v m n h = elim (Bool-cases (str_eq path j)) [
    | inl same ↦
        let e = str_eq→eq path j same in
        elim (Option-cases (lookup path m)) [
          | inl absent ↦ ground (arith, lookup-insert path j v m, ap (λ p. lookup p m) e)
          | inr (old, present) ↦ elim (Result-cases (add_values fl old v)) [
            | inl (s, added) ↦ ground (arith, lookup-insert path j s m, ap (λ p. lookup p m) e)
            | inr (x, raised) ↦ ground arith
          ]
        ]
    | inr other ↦ elim (Option-cases (lookup path m)) [
      | inl absent ↦ ground (arith, lookup-insert path j v m)
      | inr (old, present) ↦ elim (Result-cases (add_values fl old v)) [
        | inl (s, added) ↦ ground (arith, lookup-insert path j s m)
        | inr (x, raised) ↦ ground arith
      ]
    ]
  ]

  copy_fields-total :
      (keep : Str → Bool) (prefix j : Str) (fs : Fields Carrier) (m n : Metrics fl)
      → copy_fields fl keep prefix fs m ≡ ok n
      → total keep prefix j fs (lookup j m) ≡ ok (lookup j n)
  unfolding copy_fields total
  copy_fields-total keep prefix j no_fields m n h = ground arith
  copy_fields-total keep prefix j (field key v fs) m n h = elim (Bool-cases (keep key)) [
    | inl kept ↦ elim (Result-cases (set_or_sum fl (prefix ++ b'.' ∷ key) v m)) [
      | inl (k, e) ↦ ground (
        arith,
        set_or_sum-lookup (prefix ++ b'.' ∷ key) j v m k e,
        copy_fields-total keep prefix j fs k n,
      )
      | inr (x, e) ↦ ground arith
    ]
    | inr left ↦ ground (arith, copy_fields-total keep prefix j fs m n)
  ]

  -- If `_copy_two_level` returns, each metric's path has what the values of that path in the dicts
  -- add up to, in their order and on top of what it had before; a path of no value keeps what it
  -- had.
  pub copy_levels-total_levels :
      (keep : Str → Bool) (prefix j : Str) (fs : Fields Carrier) (m n : Metrics fl)
      → copy_levels fl keep prefix fs m ≡ ok n
      → total_levels keep prefix j fs (lookup j m) ≡ ok (lookup j n)
  unfolding copy_levels total_levels
  copy_levels-total_levels keep prefix j no_fields m n h = ground arith
  copy_levels-total_levels keep prefix j (field key d fs) m n h =
      elim (Result-cases (fields_of d)) [
        | inl (inner, e) ↦
            elim (Result-cases (copy_fields fl keep (prefix ++ b'.' ∷ key) inner m)) [
              | inl (k, f) ↦ ground (
                arith,
                e,
                f,
                copy_fields-total keep (prefix ++ b'.' ∷ key) j inner m k f,
                copy_levels-total_levels keep prefix j fs k n,
              )
              | inr (x, f) ↦ ground arith
            ]
        | inr (x, e) ↦ ground arith
      ]
