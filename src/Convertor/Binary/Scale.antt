-- ===== src/Convertor/Binary/Scale.antt =====
-- Each method of `binary` scales by a power of two, both ways.
use fullerite.Base.{ℕ, ◌+◌, ◌^◌, ◌≤◌, ◌≡◌, sym, ap, Option, none, some, arith}
use fullerite.Base.Result.{ok}
use fullerite.Python.{Float, Num}
use fullerite.Python.Arith.{to_float, num_scale, float_div}
use fullerite.Python.Scaling.{Scaling, num_scale-to_float}
use fullerite.Convertor.Binary.{Method, divide, bit, byte, convertb}

module _ (fl : Float) (sc : Scaling fl) where
  open fl use {Carrier, mul, div}
  open sc use {Fits, pow2, of_int-pow2, mul-mul, mul-one, div-mul, Fits-mul, Fits-le}

  -- The method writes the value times 2^e, and reads back what was divided by 2^e.
  pub record Scales (m : Method fl) (e : ℕ) : Type 0 where
    pub sets :
        (v : Num Carrier) (x : Carrier) (s : Option Carrier)
        → to_float fl v ≡ ok x
        → Fits x e
        → m (some v) s ≡ (ok none, some (mul x (pow2 e)))
    pub gets :
        (x : Carrier) (a n : ℕ)
        → n ≡ a + e
        → Fits x n
        → m none (some (mul x (pow2 n))) ≡ (ok (some (mul x (pow2 a))), some (mul x (pow2 n)))

  divide-mul :
      (x : Carrier) (a k : ℕ)
      → Fits x (a + k)
      → k ≤ 80
      → divide fl (2 ^ k) (some (mul x (pow2 (a + k)))) ≡ ok (some (mul x (pow2 a)))
  unfolding float_div to_float
  divide-mul x a k fits le = rw (of_int-pow2 k le, div-mul x a k fits)

  pub bit-Scales : Scales (bit fl) 0
  unfolding bit
  bit-Scales = record {
    sets = λ v x s h fits. ground (arith, mul-one x);
    gets = λ x a n e fits. let same : n ≡ a = omega arith in rw same;
  }

  pub byte-Scales : Scales (byte fl) 3
  unfolding byte
  byte-Scales = record {
    sets = λ v x s h fits. ground (arith, of_int-pow2 3 (omega arith));
    gets = λ x a n e fits. rw e (rw (divide-mul x a 3 (rw (sym e) fits) (omega arith)));
  }

  pub convertb-Scales :
      (m : Method fl) (e k offset : ℕ)
      → 1024 ^ offset ≡ 2 ^ k
      → k ≤ 80
      → Scales m e
      → Scales (convertb fl m offset) (k + e)
  unfolding convertb
  convertb-Scales m e k offset same le sm = record {
    sets = λ v x s h fits.
        let (w, p, q) =
          num_scale-to_float fl sc v x k h (Fits-le x k (k + e) (omega arith) fits) le in
        ground (
          arith,
          ap (num_scale fl v) same,
          p,
          sm.sets w (mul x (pow2 k)) s q (Fits-mul x k e fits),
          mul-mul x k e fits,
        );
    gets = λ x a n d fits. ground (
      arith,
      sm.gets x (a + k) n (omega arith) fits,
      ap (λ (j : ℕ). divide fl j (some (mul x (pow2 (a + k))))) same,
      divide-mul x a k (Fits-le x (a + k) n (omega arith) fits) le,
    );
  }
