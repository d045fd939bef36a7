-- ===== src/Python/Arith.antt =====
-- Python's arithmetic on numbers: an operation on two integers is exact, and one with a float
-- converts the integer first.
use fullerite.Base.{ℕ, Bool}
use fullerite.Base.Int.{pos, ◌+ℤ◌, ◌-ℤ◌, ◌*ℤ◌, ltb_ℤ, floor_div}
use fullerite.Base.Result.{Result, ok, overflow_error, zero_division, or_raise, ◌>>=◌}
use fullerite.Python.{Float, Num, int, long, flt}

module _ (fl : Float) where
  open fl use {Carrier, of_int, add, sub, mul, div, lt, lt_int, int_lt}

  -- `float(n)`
  unfoldable pub to_float : Num Carrier → Result Carrier
  to_float (int n) = or_raise (of_int n) overflow_error
  to_float (long n) = or_raise (of_int n) overflow_error
  to_float (flt x) = ok x

  abbrev float_sub : Num Carrier → Num Carrier → Result (Num Carrier)
  unfolding to_float
  float_sub a b = do x ← to_float a; y ← to_float b; ok (flt (sub x y))

  -- `a - b`. (Python makes an int that passes sys.maxint a long; here it stays an int.)
  unfoldable pub num_sub : Num Carrier → Num Carrier → Result (Num Carrier)
  unfolding float_sub
  num_sub (int a) (int b) = ok (int (a -ℤ b))
  num_sub (int a) (long b) = ok (long (a -ℤ b))
  num_sub (long a) (int b) = ok (long (a -ℤ b))
  num_sub (long a) (long b) = ok (long (a -ℤ b))
  num_sub a b = float_sub a b

  abbrev float_add : Num Carrier → Num Carrier → Result (Num Carrier)
  unfolding to_float
  float_add a b = do x ← to_float a; y ← to_float b; ok (flt (add x y))

  -- `a + b`
  unfoldable pub num_add : Num Carrier → Num Carrier → Result (Num Carrier)
  unfolding float_add
  num_add (int a) (int b) = ok (int (a +ℤ b))
  num_add (int a) (long b) = ok (long (a +ℤ b))
  num_add (long a) (int b) = ok (long (a +ℤ b))
  num_add (long a) (long b) = ok (long (a +ℤ b))
  num_add a b = float_add a b

  -- `a * k` for an integer literal k
  unfoldable pub num_scale : Num Carrier → ℕ → Result (Num Carrier)
  unfolding to_float
  num_scale (int a) k = ok (int (a *ℤ pos k))
  num_scale (long a) k = ok (long (a *ℤ pos k))
  num_scale (flt x) k = do y ← to_float (int (pos k)); ok (flt (mul x y))

  -- `x / k` for a float x and an integer k
  unfoldable pub float_div : Carrier → ℕ → Result Carrier
  unfolding to_float
  float_div x k = do y ← to_float (int (pos k)); or_raise (div x y) zero_division

  -- `a / k` for a positive integer literal k: rounded down on integers, as Python 2 does
  unfoldable pub num_div : Num Carrier → ℕ → Result (Num Carrier)
  unfolding float_div
  num_div (int a) k = ok (int (floor_div a k))
  num_div (long a) k = ok (long (floor_div a k))
  num_div (flt x) k = do q ← float_div x k; ok (flt q)

  -- `a < b`
  unfoldable pub num_lt : Num Carrier → Num Carrier → Bool
  num_lt (int a) (int b) = ltb_ℤ a b
  num_lt (int a) (long b) = ltb_ℤ a b
  num_lt (int a) (flt y) = int_lt a y
  num_lt (long a) (int b) = ltb_ℤ a b
  num_lt (long a) (long b) = ltb_ℤ a b
  num_lt (long a) (flt y) = int_lt a y
  num_lt (flt x) (int b) = lt_int x b
  num_lt (flt x) (long b) = lt_int x b
  num_lt (flt x) (flt y) = lt x y
