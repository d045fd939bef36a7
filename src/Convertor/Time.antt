-- ===== src/Convertor/Time.antt =====
-- The class `time` of src/diamond/convertor.py: the value is kept in milliseconds.
pub mod Store
use fullerite.Base.{ℕ, String, Option, none, some, List, [], ◌∷◌, map}
use fullerite.Base.Text.{Str, codes, lower}
use fullerite.Base.Result.{Result, ok, err, type_error, not_implemented, bind}
use fullerite.Base.Exec.{Exec, pure, raise, lift, gets, modify, ◌>>=◌, ◌>>◌}
use fullerite.Python.{Float, Num, flt}
use fullerite.Python.Arith.{to_float, num_scale, num_div, float_div}
use fullerite.Convertor.{select}

abbrev names : List String → List Str
names = map codes

module _ (fl : Float) where
  open fl use {Carrier, mul}

  -- `self.value`, None in the class
  abbrev pub Stored : Type 0
  Stored = Option Carrier

  abbrev pub Method : Type 0
  Method = Option (Num Carrier) → Exec Stored (Option Carrier)

  -- `x / k` and `x * k`, where x may be None
  abbrev divide : ℕ → Option Carrier → Result (Option Carrier)
  divide k none = err type_error
  divide k (some x) = bind (float_div fl x k) λ q. ok (some q)

  abbrev times : ℕ → Option Carrier → Result (Option Carrier)
  times k none = err type_error
  times k (some x) = bind (bind (num_scale fl (flt x) k) (to_float fl)) λ y. ok (some y)

  -- a method's result, passed on as a value
  abbrev as_value : Option Carrier → Option (Num Carrier)
  as_value none = none
  as_value (some x) = some (flt x)

  unfoldable pub millisecond : Method
  unfolding to_float
  millisecond none = gets (λ s. s)
  millisecond (some v) = do x ← lift (to_float fl v); modify (λ _. some x); pure none

  unfoldable pub second : Method
  unfolding millisecond num_scale float_div
  second none = do x ← millisecond none; lift (divide 1000 x)
  second (some v) = do w ← lift (num_scale fl v 1000); millisecond (some w); pure none

  unfoldable pub minute : Method
  unfolding second
  minute none = do x ← second none; lift (divide 60 x)
  minute (some v) = do
    w ← lift (num_scale fl v 60)
    x ← second (some w)
    millisecond (as_value x)
    pure none

  unfoldable pub hour : Method
  unfolding minute
  hour none = do x ← minute none; lift (divide 60 x)
  hour (some v) = do
    w ← lift (num_scale fl v 60)
    x ← minute (some w)
    millisecond (as_value x)
    pure none

  unfoldable pub day : Method
  unfolding hour
  day none = do x ← hour none; lift (divide 24 x)
  day (some v) = do
    w ← lift (num_scale fl v 24)
    x ← hour (some w)
    millisecond (as_value x)
    pure none

  unfoldable pub year : Method
  unfolding day
  year none = do x ← day none; lift (divide 365 x)
  year (some v) = do
    w ← lift (num_scale fl v 365)
    x ← day (some w)
    millisecond (as_value x)
    pure none

  unfoldable pub microsecond : Method
  unfolding millisecond num_div num_scale
  microsecond none = do x ← millisecond none; lift (times 1000 x)
  microsecond (some v) = do w ← lift (num_div fl v 1000); millisecond (some w); pure none

  unfoldable pub nanosecond : Method
  unfolding microsecond
  nanosecond none = do x ← microsecond none; lift (times 1000 x)
  nanosecond (some v) = do
    w ← lift (num_div fl v 1000)
    x ← microsecond (some w)
    millisecond (as_value x)
    pure none

  -- the tests of `do` on `unit.lower()`, in their order
  abbrev pub units : List (List Str × Method)
  units =
      (names ("millisecond" ∷ "milliseconds" ∷ "ms" ∷ []), millisecond)
      ∷ (names ("second" ∷ "seconds" ∷ "s" ∷ []), second)
      ∷ (names ("minute" ∷ "minutes" ∷ "m" ∷ []), minute)
      ∷ (names ("hour" ∷ "hours" ∷ "h" ∷ []), hour)
      ∷ (names ("day" ∷ "days" ∷ "d" ∷ []), day)
      ∷ (names ("year" ∷ "years" ∷ "y" ∷ []), year)
      ∷ (names ("microsecond" ∷ "microseconds" ∷ "us" ∷ []), microsecond)
      ∷ (names ("nanosecond" ∷ "nanoseconds" ∷ "ns" ∷ []), nanosecond)
      ∷ []

  abbrev or_unknown : Option Method → Method
  or_unknown none v = raise not_implemented
  or_unknown (some m) v = m v

  -- `do`; an empty unit, like None, means milliseconds
  unfoldable pub do_unit : Option Str → Method
  unfolding select
  do_unit none v = millisecond v
  do_unit (some []) v = millisecond v
  do_unit (some (c ∷ u)) v = or_unknown (select units (lower (c ∷ u))) v

  -- `__init__` and `set`
  unfoldable pub set : Num Carrier → Option Str → Exec Stored (Option Carrier)
  unfolding do_unit
  set v unit = do_unit unit (some v)

  unfoldable pub get : Option Str → Exec Stored (Option Carrier)
  unfolding do_unit
  get unit = do_unit unit none

  -- The static method: a new object made with the value and its unit, read in the new unit.
  unfoldable pub convert : Option (Num Carrier) → Option Str → Option Str → Result (Option Carrier)
  unfolding do_unit get
  convert v old new = ((do do_unit old v; get new) none).0
