-- ===== src/Python.antt =====
-- Python 2 values as the framework passes them, and the parts of the interpreter's world that are
-- not in the repository: binary floats, the `re` and `json` libraries, the network and the clock.
pub mod Arith
pub mod Scaling
pub mod Convert
use fullerite.Base.{Bool, Option, List}
use fullerite.Base.Int.{ℤ}
use fullerite.Base.Text.{Str}

-- Python's `float` and what the code does with it. `none` is an OverflowError of `float(n)`, a
-- ValueError of `float(s)` and `int(s)`, a ZeroDivisionError of `/`. `trunc` is
-- `int(x)`, which raises a ValueError on a NaN and an OverflowError on an infinity.
pub record Float : Type 1 where
  pub Carrier : Type 0
  pub of_int : ℤ → Option Carrier
  pub parse : Str → Option Carrier
  pub add : Carrier → Carrier → Carrier
  pub sub : Carrier → Carrier → Carrier
  pub mul : Carrier → Carrier → Carrier
  pub div : Carrier → Carrier → Option Carrier
  pub lt : Carrier → Carrier → Bool
  -- the exact comparison of a float with an integer
  pub lt_int : Carrier → ℤ → Bool
  pub int_lt : ℤ → Carrier → Bool
  pub round : Carrier → Carrier
  pub floor : Carrier → Carrier
  pub trunc : Carrier → Option ℤ
  pub is_nan : Carrier → Bool
  pub parse_int : Str → Option ℤ
  pub repr : Carrier → Str

-- A number: a plain integer, a long one, or a float.
pub data Num (F : Type 0) : Type 0 where
  int : ℤ → Num F
  long : ℤ → Num F
  flt : F → Num F

-- A value of a configuration, a metric or a dimension.
pub data Value (F : Type 0) : Type 0 where
  nil : Value F
  bool : Bool → Value F
  num : Num F → Value F
  str : Str → Value F
  strs : List Str → Value F
  -- the compiled pattern of `re.compile`
  pattern : Str → Value F
