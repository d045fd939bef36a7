-- ===== src/Tests/Floats.antt =====
-- Natural numbers in the place of floats.
use native.Mathlib.Nat.{mul-div_cancel, pow-suc, mul_assoc, zero-add}
use fullerite.Base.{
  ℕ, zero, suc, ◌+◌, ◌-◌, ◌*◌, ◌/◌, ◌^◌, ◌<◌, ◌≡◌, ap, refl, false, Option, none, some, arith, ltb,
  leb, ◌&&◌, [], ◌∷◌, ◌==◌, if◌then◌else◌,
}
use fullerite.Base.Int.{ℤ, pos, negsuc, ◌*ℤ◌, ltb_ℤ}
use fullerite.Base.Text.{Str, decimal}
use fullerite.Python.{Float}
use fullerite.Python.Scaling.{Scaling}

abbrev natural : ℤ → Option ℕ
natural (pos n) = some n
natural (negsuc n) = none

abbrev quotient : ℕ → ℕ → Option ℕ
quotient n m = if m == 0 then none else some (n / m)

-- the digits of a text, read behind a number
abbrev read_from : ℕ → Str → Option ℕ
read_from n [] = some n
read_from n (c ∷ s) =
    let rest = read_from (10 * n + (c - 48)) s in if leb b'0' c && leb c b'9' then rest else none

abbrev read_digits : Str → Option ℕ
read_digits [] = none
read_digits (c ∷ s) = read_from 0 (c ∷ s)

abbrev as_int : Option ℕ → Option ℤ
as_int none = none
as_int (some n) = some (pos n)

abbrev pub whole : Float
whole = record {
  Carrier = ℕ;
  of_int = natural;
  parse = read_digits;
  add = λ a b. a + b;
  sub = λ a b. a - b;
  mul = λ a b. a * b;
  div = quotient;
  lt = ltb;
  lt_int = λ a n. ltb_ℤ (pos a) n;
  int_lt = λ n a. ltb_ℤ n (pos a);
  round = λ a. a;
  floor = λ a. a;
  trunc = λ a. some (pos a);
  is_nan = λ a. false;
  parse_int = λ s. as_int (read_digits s);
  repr = decimal;
}

pow_pos : (k : ℕ) → 0 < 2 ^ k
pow_pos zero = omega arith
pow_pos (suc k) = rw pow-suc (omega (arith, pow_pos k))

pow_add : (a b : ℕ) → 2 ^ (a + b) ≡ 2 ^ a * 2 ^ b
pow_add zero b = rw zero-add (omega arith)
pow_add (suc a) b =
    let shift : suc a + b ≡ suc (a + b) = omega arith in
    rw (shift, pow-suc, pow-suc) (omega (arith, ap (λ (t : ℕ). t * 2) (pow_add a b)))

pub natural-mul : (n : ℤ) (x k : ℕ) → natural n ≡ some x → natural (n *ℤ pos k) ≡ some (x * k)
unfolding ◌*ℤ◌
natural-mul (pos n) x k h = ground arith
natural-mul (negsuc n) x k h = cc

quotient-mul : (x p q : ℕ) → 0 < q → quotient (x * (p * q)) q ≡ some (x * p)
quotient-mul x p q h =
    let exact : x * (p * q) / q ≡ x * p = rw (← mul_assoc) (mul-div_cancel (x * p) h) in
    ground (arith, exact)

pub product-mul : (x a b : ℕ) → x * 2 ^ a * 2 ^ b ≡ x * 2 ^ (a + b)
product-mul x a b = rw (pow_add, mul_assoc)

pub quotient-pow : (x a b : ℕ) → quotient (x * 2 ^ (a + b)) (2 ^ b) ≡ some (x * 2 ^ a)
quotient-pow x a b = rw pow_add (quotient-mul x (2 ^ a) (2 ^ b) (pow_pos b))

pub one-mul : (x : ℕ) → x * 2 ^ 0 ≡ x
one-mul x = omega arith

abbrev pub scaling : Scaling whole
scaling = record {
  Fits = λ x k. Unit;
  pow2 = λ k. 2 ^ k;
  of_int-pow2 = λ k h. refl;
  of_int-mul = λ n x k h fits. natural-mul n x (2 ^ k) h;
  mul-mul = λ x a b fits. product-mul x a b;
  mul-one = one-mul;
  div-mul = λ x a b fits. quotient-pow x a b;
  Fits-mul = λ x a b fits. tt;
  Fits-le = λ x a b h fits. tt;
}
