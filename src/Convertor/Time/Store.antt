-- ===== src/Convertor/Time/Store.antt =====
-- What the setters of `time` store of an integer.
use mathlib.Core.Path.{subst}
use fullerite.Base.{
  ℕ, ◌≡◌, refl, ap, ◌∙◌, Bool-cases, inl, inr, Option, none, some, List, [], ◌∷◌, arith,
}
use fullerite.Base.Int.{ℤ, pos, ◌*ℤ◌, *ℤ_pos_assoc, *ℤ_one, floor_div}
use fullerite.Base.Text.{Str, str_mem, lower}
use fullerite.Base.Result.{ok}
use fullerite.Python.{Float, int}
use fullerite.Python.Arith.{num_scale}
use fullerite.Convertor.{select}
use fullerite.Convertor.Time.{
  Method, names, units, millisecond, second, minute, hour, day, year, microsecond, nanosecond, set,
}

-- What a setter makes of an integer before it takes the float.
pub data Effect : Type 0 where
  times over over_twice : ℕ → Effect

abbrev pub millis : Effect → ℤ → ℤ
millis (times k) n = n *ℤ pos k
millis (over k) n = floor_div n k
millis (over_twice k) n = floor_div (floor_div n k) k

-- The units, with the number of milliseconds in each.
abbrev pub effects : List (List Str × Effect)
effects =
    (names ("millisecond" ∷ "milliseconds" ∷ "ms" ∷ []), times 1)
    ∷ (names ("second" ∷ "seconds" ∷ "s" ∷ []), times 1_000)
    ∷ (names ("minute" ∷ "minutes" ∷ "m" ∷ []), times 60_000)
    ∷ (names ("hour" ∷ "hours" ∷ "h" ∷ []), times 3_600_000)
    ∷ (names ("day" ∷ "days" ∷ "d" ∷ []), times 86_400_000)
    ∷ (names ("year" ∷ "years" ∷ "y" ∷ []), times 31_536_000_000)
    ∷ (names ("microsecond" ∷ "microseconds" ∷ "us" ∷ []), over 1_000)
    ∷ (names ("nanosecond" ∷ "nanoseconds" ∷ "ns" ∷ []), over_twice 1_000)
    ∷ []

abbrev pub effect : Str → Option Effect
unfolding select
effect = select effects

module _ (fl : Float) where
  open fl use {Carrier, of_int}

  -- The method, given an integer, stores the float of what the effect makes of it.
  abbrev Stores : Method fl → Effect → Type 0
  Stores m e =
      (n : ℤ) (x : Carrier) (s : Option Carrier)
      → of_int (millis e n) ≡ some x
      → m (some (int n)) s ≡ (ok none, some x)

  millisecond-Stores : Stores (millisecond fl) (times 1)
  unfolding millisecond
  millisecond-Stores n x s h = ground (arith, ap of_int (*ℤ_one n))

  second-Stores : Stores (second fl) (times 1_000)
  unfolding second
  second-Stores n x s h = ground arith

  minute-Stores : Stores (minute fl) (times 60_000)
  unfolding minute
  minute-Stores n x s h = ground (arith, ap of_int (*ℤ_pos_assoc n 60 1_000))

  hour-Stores : Stores (hour fl) (times 3_600_000)
  unfolding hour millisecond num_scale
  hour-Stores n x s h = ground (
    arith,
    ap of_int (*ℤ_pos_assoc n 60 60_000),
    minute-Stores (n *ℤ pos 60) x s (ap of_int (*ℤ_pos_assoc n 60 60_000) ∙ h),
  )

  day-Stores : Stores (day fl) (times 86_400_000)
  unfolding day millisecond num_scale
  day-Stores n x s h =
      ground (arith, hour-Stores (n *ℤ pos 24) x s (ap of_int (*ℤ_pos_assoc n 24 3_600_000) ∙ h))

  year-Stores : Stores (year fl) (times 31_536_000_000)
  unfolding year millisecond num_scale
  year-Stores n x s h =
      ground (arith, day-Stores (n *ℤ pos 365) x s (ap of_int (*ℤ_pos_assoc n 365 86_400_000) ∙ h))

  microsecond-Stores : Stores (microsecond fl) (over 1_000)
  unfolding microsecond
  microsecond-Stores n x s h = ground arith

  nanosecond-Stores : Stores (nanosecond fl) (over_twice 1_000)
  unfolding nanosecond
  nanosecond-Stores n x s h = ground arith

  -- Row by row, the methods have the effects.
  abbrev Matches : List (List Str × Method fl) → List (List Str × Effect) → Type 0
  Matches [] [] = Unit
  Matches [] (e ∷ es) = ⊥
  Matches (m ∷ ms) [] = ⊥
  Matches ((ns, m) ∷ ms) ((ks, e) ∷ es) = (ns ≡ ks) × Stores m e × Matches ms es

  select-Matches :
      (ms : List (List Str × Method fl)) (es : List (List Str × Effect)) (u : Str) (e : Effect)
      → Matches ms es
      → select es u ≡ some e
      → (m : Method fl) × (select ms u ≡ some m) × Stores m e
  unfolding select
  select-Matches [] [] u e h p = cc
  select-Matches [] (x ∷ es) u e h p = absurd h
  select-Matches (m ∷ ms) [] u e h p = absurd h
  select-Matches ((ns, m) ∷ ms) ((ks, d) ∷ es) u e (same, sm, rest) p =
      elim (Bool-cases (str_mem u ks)) [
        | inl here ↦
            let eq : d ≡ e = ground arith in (m, rw (same, here), subst (λ f. Stores m f) eq sm)
        | inr there ↦
            let (m', q, s) = select-Matches ms es u e rest (ground arith) in
            (m', rw (same, there) q, s)
      ]

  units-Matches : Matches (units fl) effects
  units-Matches = (
    refl,
    millisecond-Stores,
    (
      refl,
      second-Stores,
      (
        refl,
        minute-Stores,
        (
          refl,
          hour-Stores,
          (
            refl,
            day-Stores,
            (refl, year-Stores, (refl, microsecond-Stores, (refl, nanosecond-Stores, tt))),
          ),
        ),
      ),
    ),
  )

  -- An integer set in a known unit, in any case of letters, is stored as the float of its
  -- milliseconds, rounded down to a whole number once for microseconds and twice for nanoseconds,
  -- if that float exists.
  pub set_int :
      (u : Str) (e : Effect) (n : ℤ) (x : Carrier) (s : Option Carrier)
      → effect (lower u) ≡ some e
      → of_int (millis e n) ≡ some x
      → set fl (int n) (some u) s ≡ (ok none, some x)
  unfolding set
  set_int [] e n x s h p = absurd (ground arith)
  set_int (c ∷ u) e n x s h p =
      let (m, q, sm) = select-Matches (units fl) effects (lower (c ∷ u)) e units-Matches h in
      rw q (sm n x s p)
