-- ===== src/Python/Scaling.antt =====
-- What is relied on of IEEE 754 floats when they are scaled by powers of two: as long as no
-- overflow happens, only the exponent changes.
use fullerite.Base.{ℕ, ◌+◌, ◌^◌, ◌≤◌, ◌≡◌, some, arith}
use fullerite.Base.Int.{ℤ, pos, ◌*ℤ◌}
use fullerite.Base.Result.{ok}
use fullerite.Python.{Float, Num, int, long, flt}
use fullerite.Python.Arith.{to_float, num_scale}

-- `Fits x k`: the product of x and 2^k is in the range of floats. `pow2 k` is the float 2^k.
pub record Scaling (fl : Float) : Type 1 where
  pub Fits : fl.Carrier → ℕ → Type 0
  pub pow2 : ℕ → fl.Carrier
  pub of_int-pow2 : (k : ℕ) → k ≤ 80 → fl.of_int (pos (2 ^ k)) ≡ some (pow2 k)
  pub of_int-mul :
      (n : ℤ) (x : fl.Carrier) (k : ℕ)
      → fl.of_int n ≡ some x
      → Fits x k
      → fl.of_int (n *ℤ pos (2 ^ k)) ≡ some (fl.mul x (pow2 k))
  pub mul-mul :
      (x : fl.Carrier) (a b : ℕ)
      → Fits x (a + b)
      → fl.mul (fl.mul x (pow2 a)) (pow2 b) ≡ fl.mul x (pow2 (a + b))
  pub mul-one : (x : fl.Carrier) → fl.mul x (pow2 0) ≡ x
  pub div-mul :
      (x : fl.Carrier) (a b : ℕ)
      → Fits x (a + b)
      → fl.div (fl.mul x (pow2 (a + b))) (pow2 b) ≡ some (fl.mul x (pow2 a))
  pub Fits-mul : (x : fl.Carrier) (a b : ℕ) → Fits x (a + b) → Fits (fl.mul x (pow2 a)) b
  pub Fits-le : (x : fl.Carrier) (a b : ℕ) → a ≤ b → Fits x b → Fits x a

module _ (fl : Float) (sc : Scaling fl) where
  open fl use {Carrier, of_int, mul}
  open sc use {Fits, pow2, of_int-pow2, of_int-mul}

  -- Multiplying a number by a power of two and then taking the float multiplies the float.
  pub num_scale-to_float :
      (v : Num Carrier) (x : Carrier) (k : ℕ)
      → to_float fl v ≡ ok x
      → Fits x k
      → k ≤ 80
      → (w : Num Carrier) × (num_scale fl v (2 ^ k) ≡ ok w) × (to_float fl w ≡ ok (mul x (pow2 k)))
  unfolding to_float num_scale
  num_scale-to_float (int n) x k h fits le =
      (int (n *ℤ pos (2 ^ k)), ground arith, ground (arith, of_int-mul n x k))
  num_scale-to_float (long n) x k h fits le =
      (long (n *ℤ pos (2 ^ k)), ground arith, ground (arith, of_int-mul n x k))
  num_scale-to_float (flt y) x k h fits le =
      (flt (mul y (pow2 k)), ground (arith, of_int-pow2 k le), ground arith)
