-- ===== src/Convertor/Binary/RoundTrip.antt =====
-- Conversion between any two of the units of `binary`.
use fullerite.Base.{
  ℕ, ◌-◌, ◌^◌, ◌≤◌, ◌≡◌, refl, ap, ◌∙◌, Bool-cases, inl, inr, Option, none, some, List, [], ◌∷◌,
  arith,
}
use mathlib.Core.Path.{subst}
use fullerite.Base.Text.{Str, str_mem}
use fullerite.Base.Result.{ok}
use fullerite.Python.{Float, Num}
use fullerite.Python.Arith.{to_float}
use fullerite.Python.Scaling.{Scaling}
use fullerite.Convertor.{select}
use fullerite.Convertor.Binary.{Method, names, units, bit, byte, do_unit, convert}
use fullerite.Convertor.Binary.Scale.{Scales, bit-Scales, byte-Scales, convertb-Scales}

-- The number of bits of each unit, as an exponent of two.
abbrev pub exponents : List (List Str × ℕ)
exponents =
    (names ("bit" ∷ "b" ∷ []), 0)
    ∷ (names ("kilobit" ∷ "kbit" ∷ "Kibit" ∷ []), 10)
    ∷ (names ("megabit" ∷ "Mbit" ∷ "Mibit" ∷ "Mbit" ∷ []), 20)
    ∷ (names ("gigabit" ∷ "Gbit" ∷ "Gibit" ∷ []), 30)
    ∷ (names ("terabit" ∷ "Tbit" ∷ "Tibit" ∷ []), 40)
    ∷ (names ("petabit" ∷ "Pbit" ∷ "Pibit" ∷ []), 50)
    ∷ (names ("exabit" ∷ "Ebit" ∷ "Eibit" ∷ []), 60)
    ∷ (names ("zettabit" ∷ "Zbit" ∷ "Zibit" ∷ []), 70)
    ∷ (names ("yottabit" ∷ "Ybit" ∷ "Yibit" ∷ []), 80)
    ∷ (names ("byte" ∷ "B" ∷ []), 3)
    ∷ (names ("kilobyte" ∷ "kB" ∷ "KiB" ∷ []), 13)
    ∷ (names ("megabyte" ∷ "MB" ∷ "MiB" ∷ "Mbyte" ∷ []), 23)
    ∷ (names ("gigabyte" ∷ "GB" ∷ "GiB" ∷ []), 33)
    ∷ (names ("terabyte" ∷ "TB" ∷ "TiB" ∷ []), 43)
    ∷ (names ("petabyte" ∷ "PB" ∷ "PiB" ∷ []), 53)
    ∷ (names ("exabyte" ∷ "EB" ∷ "EiB" ∷ []), 63)
    ∷ (names ("zettabyte" ∷ "ZB" ∷ "ZiB" ∷ []), 73)
    ∷ (names ("yottabyte" ∷ "YB" ∷ "YiB" ∷ []), 83)
    ∷ []

abbrev pub exponent : Str → Option ℕ
unfolding select
exponent = select exponents

module _ (fl : Float) (sc : Scaling fl) where
  open fl use {Carrier, mul}
  open sc use {Fits, pow2, Fits-le, mul-mul, mul-one}

  -- Row by row, the methods scale by the exponents.
  abbrev Matches : List (List Str × Method fl) → List (List Str × ℕ) → Type 0
  Matches [] [] = Unit
  Matches [] (e ∷ es) = ⊥
  Matches (m ∷ ms) [] = ⊥
  Matches ((ns, m) ∷ ms) ((ks, e) ∷ es) = (ns ≡ ks) × Scales fl sc m e × Matches ms es

  select-Matches :
      (ms : List (List Str × Method fl)) (es : List (List Str × ℕ)) (u : Str) (e : ℕ)
      → Matches ms es
      → select es u ≡ some e
      → (m : Method fl) × (select ms u ≡ some m) × Scales fl sc m e
  unfolding select
  select-Matches [] [] u e h p = cc
  select-Matches [] (x ∷ es) u e h p = absurd h
  select-Matches (m ∷ ms) [] u e h p = absurd h
  select-Matches ((ns, m) ∷ ms) ((ks, d) ∷ es) u e (same, sm, rest) p =
      elim (Bool-cases (str_mem u ks)) [
        | inl here ↦
            let eq : d ≡ e = ground arith in (m, rw (same, here), subst (Scales fl sc m) eq sm)
        | inr there ↦
            let (m', q, s) = select-Matches ms es u e rest (ground arith) in
            (m', rw (same, there) q, s)
      ]

  units-Matches : Matches (units fl) exponents
  units-Matches =
      let bits = λ (k o : ℕ) (p : 1024 ^ o ≡ 2 ^ k) (q : k ≤ 80).
        convertb-Scales fl sc (bit fl) 0 k o p q (bit-Scales fl sc) in
      let bytes = λ (k o : ℕ) (p : 1024 ^ o ≡ 2 ^ k) (q : k ≤ 80).
        convertb-Scales fl sc (byte fl) 3 k o p q (byte-Scales fl sc) in
      (
        refl,
        bit-Scales fl sc,
        (
          refl,
          bits 10 1 refl (omega arith),
          (
            refl,
            bits 20 2 refl (omega arith),
            (
              refl,
              bits 30 3 refl (omega arith),
              (
                refl,
                bits 40 4 refl (omega arith),
                (
                  refl,
                  bits 50 5 refl (omega arith),
                  (
                    refl,
                    bits 60 6 refl (omega arith),
                    (
                      refl,
                      bits 70 7 refl (omega arith),
                      (
                        refl,
                        bits 80 8 refl (omega arith),
                        (
                          refl,
                          byte-Scales fl sc,
                          (
                            refl,
                            bytes 10 1 refl (omega arith),
                            (
                              refl,
                              bytes 20 2 refl (omega arith),
                              (
                                refl,
                                bytes 30 3 refl (omega arith),
                                (
                                  refl,
                                  bytes 40 4 refl (omega arith),
                                  (
                                    refl,
                                    bytes 50 5 refl (omega arith),
                                    (
                                      refl,
                                      bytes 60 6 refl (omega arith),
                                      (
                                        refl,
                                        bytes 70 7 refl (omega arith),
                                        (refl, bytes 80 8 refl (omega arith), tt),
                                      ),
                                    ),
                                  ),
                                ),
                              ),
                            ),
                          ),
                        ),
                      ),
                    ),
                  ),
                ),
              ),
            ),
          ),
        ),
      )

  -- A known unit's method, as `do` finds it.
  unit_Scales :
      (u : Str) (e : ℕ)
      → exponent u ≡ some e
      → (m : Method fl) × ((v : Option (Num Carrier)) → do_unit fl (some u) v ≡ m v)
        × Scales fl sc m e
  unfolding do_unit exponent
  unit_Scales [] e h = absurd (ground arith)
  unit_Scales (c ∷ u) e h =
      let (m, p, sm) = select-Matches (units fl) exponents (c ∷ u) e units-Matches h in
      (m, λ v. rw p, sm)

  -- A number given in a unit of 2^e bits and read in a unit of 2^d bits, d at most e, is the
  -- number's float times 2^(e - d), for floats that scale exactly by powers of two and a product
  -- in range.
  pub convert_lem :
      (u w : Str) (e d : ℕ) (v : Num Carrier) (x : Carrier)
      → exponent u ≡ some e
      → exponent w ≡ some d
      → d ≤ e
      → to_float fl v ≡ ok x
      → Fits x e
      → convert fl (some v) (some u) (some w) ≡ ok (some (mul x (pow2 (e - d))))
  unfolding convert
  convert_lem u w e d v x hu hw le hv fits =
      let (m, p, sm) = unit_Scales u e hu in
      let (k, q, sk) = unit_Scales w d hw in
      ground (
        arith,
        ap (λ f. f none) (p (some v)),
        sm.sets v x none hv fits,
        ap (λ f. f (some (mul x (pow2 e)))) (q none),
        sk.gets x (e - d) e (omega arith) fits,
      )

  -- Reading a value back in the unit in which it was given returns the value's float.
  pub convert_same :
      (u : Str) (e : ℕ) (v : Num Carrier) (x : Carrier)
      → exponent u ≡ some e
      → to_float fl v ≡ ok x
      → Fits x e
      → convert fl (some v) (some u) (some u) ≡ ok (some x)
  convert_same u e v x hu hv fits =
      let zero_diff : e - e ≡ 0 = omega arith in
      convert_lem u u e e v x hu hu (omega arith) hv fits ∙ rw (zero_diff, mul-one x)
