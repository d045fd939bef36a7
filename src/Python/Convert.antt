-- ===== src/Python/Convert.antt =====
-- Python's conversions of values: `float(v)`, `int(v)`, `str(v)`, and a value's truth.
use fullerite.Base.{suc, Bool, true, false, Option, none, some, ◌∷◌, not, if◌then◌else◌}
use fullerite.Base.Int.{ℤ, pos, negsuc, leb_ℤ}
use fullerite.Base.Text.{Str, codes, decimal}
use fullerite.Base.Result.{Result, ok, err, type_error, value_error, overflow_error, or_raise}
use fullerite.Python.{Float, int, long, flt, Value, nil, bool, num, str, strs, pattern}
use fullerite.Python.Arith.{to_float}

-- `str(n)`
unfoldable pub show_int : ℤ → Str
show_int (pos n) = decimal n
show_int (negsuc n) = b'-' ∷ decimal (suc n)

abbrev pub bool_int : Bool → ℤ
bool_int true = pos 1
bool_int false = pos 0

module _ (fl : Float) where
  open fl use {Carrier, of_int, parse, parse_int, trunc, is_nan, repr, lt_int, int_lt}

  -- `float(v)`
  unfoldable pub value_float : Value Carrier → Result Carrier
  unfolding to_float
  value_float (bool b) = or_raise (of_int (bool_int b)) overflow_error
  value_float (num n) = to_float fl n
  value_float (str s) = or_raise (parse s) value_error
  value_float nil = err type_error
  value_float (strs l) = err type_error
  value_float (pattern p) = err type_error

  -- `int(v)`
  unfoldable pub value_int : Value Carrier → Result ℤ
  value_int (bool b) = ok (bool_int b)
  value_int (num (int n)) = ok n
  value_int (num (long n)) = ok n
  value_int (num (flt x)) = or_raise (trunc x) (if is_nan x then value_error else overflow_error)
  value_int (str s) = or_raise (parse_int s) value_error
  value_int nil = err type_error
  value_int (strs l) = err type_error
  value_int (pattern p) = err type_error

  -- `str(v)` of a boolean, a plain integer, a float or a text; None for the other values, which
  -- the code filters out first.
  unfoldable pub value_str : Value Carrier → Option Str
  unfolding show_int
  value_str (bool true) = some (codes "True")
  value_str (bool false) = some (codes "False")
  value_str (num (int n)) = some (show_int n)
  value_str (num (flt x)) = some (repr x)
  value_str (str s) = some s
  value_str (num (long n)) = none
  value_str nil = none
  value_str (strs l) = none
  value_str (pattern p) = none

  -- `n >= v` for an integer n: Python 2 orders None below every number, and every number below
  -- texts, lists and patterns.
  unfoldable pub int_ge : ℤ → Value Carrier → Bool
  int_ge n nil = true
  int_ge n (bool b) = leb_ℤ (bool_int b) n
  int_ge n (num (int m)) = leb_ℤ m n
  int_ge n (num (long m)) = leb_ℤ m n
  int_ge n (num (flt x)) = not (int_lt n x)
  int_ge n (str s) = false
  int_ge n (strs l) = false
  int_ge n (pattern p) = false
