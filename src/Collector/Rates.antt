-- ===== src/Collector/Rates.antt =====
-- What `derivative` of src/diamond/collector.py computes and what it remembers.
use fullerite.Base.{
  ℕ, ◌+◌, ◌-◌, ◌%◌, ◌<◌, ◌≡◌, ◌⊎◌, inl, inr, sym, ◌∙◌, false, Option, some, arith, ltb,
  if◌then◌else◌,
}
use native.Mathlib.Decide.{dec_lt}
use native.Mathlib.Nat.{mod-lt, mod-add-mod, mod-eq_of_lt, mod-eq-sub-mod}
use fullerite.Base.Int.{pos, sub_ℕ, ◌-ℤ◌}
use fullerite.Base.Text.{Str, str_eq}
use fullerite.Base.Dict.{lookup, lookup-insert}
use fullerite.Base.Result.{ok}
use fullerite.Python.{Num, int, long, flt}
use fullerite.Collector.State.{World, Collector}
use fullerite.Collector.Path.{get_metric_path}
use fullerite.Collector.Derivative.{Counting, change, rate, rate_or_zero, derivative}

-- Adding less than the modulus wraps once, or not at all.
mod_add_cases :
    (m t d : ℕ)
    → 0 < m
    → d < m
    → ((t + d) % m ≡ t % m + d) ⊎ (((t + d) % m + m ≡ t % m + d) × (t % m < m))
mod_add_cases m t d h lt = elim (dec_lt (t % m + d) m) [
  | yes below ↦ inl (sym (mod-add-mod t m d) ∙ mod-eq_of_lt below)
  | no above ↦
      let small : t % m < m = mod-lt t h in
      let room : t % m + d - m < m = omega arith in
      let wrapped : (t + d) % m ≡ t % m + d - m =
        sym (mod-add-mod t m d) ∙ mod-eq-sub-mod (omega arith) ∙ mod-eq_of_lt room in
      inr (omega arith, small)
]

module _ (w : World) where
  open w use {float, float.{Carrier, lt_int}}

  -- For a counter modulo m that moved by d below m, `derivative` with m - 1 as the largest value
  -- takes the change d if the reading did not fall, and d - 1 if it did.
  pub change_rollover :
      (m t d : ℕ)
      → 0 < m
      → d < m
      → let old = t % m in
        let new = (t + d) % m in
        change w (long (pos (m - 1))) (int (pos old)) (int (pos new))
        ≡ ok (if ltb new old then long (sub_ℕ d 1) else int (pos d))
  unfolding change ◌-ℤ◌
  change_rollover m t d h lt = elim (mod_add_cases m t d h lt) [
    | inl e ↦ rw e (ground arith)
    | inr (e, b) ↦ ground arith
  ]

  -- A rate computed with `allow_negative` off is the integer 0 or a float that is not below 0.
  pub rate_nonneg :
      (x y r : Num Carrier)
      → rate w false x y ≡ ok r
      → (r ≡ int (pos 0)) ⊎ ((q : Carrier) × (r ≡ flt q) × (lt_int q (pos 0) ≡ false))
  unfolding rate
  rate_nonneg x y r h = ground arith

  rate_or_zero-same :
      (k : Counting Carrier) (new : Num Carrier) (o : Option (Num Carrier)) (c : Collector Carrier)
      → (rate_or_zero w k new o c).1 ≡ c
  rate_or_zero-same k new o c = ground arith

  -- A `derivative` that returns has remembered the new value under the metric's path, and left
  -- every other path's value as it was.
  pub derivative-last_values :
      (name path j : Str) (new r : Num Carrier) (k : Counting Carrier) (c c' : Collector Carrier)
      → get_metric_path w.float_zero c name k.instance' ≡ ok path
      → derivative w name new k c ≡ (ok r, c')
      → lookup j c'.last_values ≡ (if str_eq path j then some new else lookup j c.last_values)
  unfolding derivative
  derivative-last_values name path j new r k c c' e h = ground (
    arith,
    rate_or_zero-same k new (lookup path c.last_values) c,
    lookup-insert path j new c.last_values,
  )
