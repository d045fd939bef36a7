-- ===== src/Convertor/Binary.antt =====
-- The class `binary`: the value is kept in bits.
pub mod Scale
pub mod RoundTrip
use fullerite.Base.{
  ℕ, ◌^◌, String, Bool, not, Option, none, some, List, [], ◌∷◌, map, if◌then◌else◌,
}
use fullerite.Base.Text.{Str, codes, str_eq}
use fullerite.Base.Result.{Result, ok, err, type_error, not_implemented, bind}
use fullerite.Base.Exec.{Exec, pure, raise, lift, gets, modify, ◌>>=◌, ◌>>◌}
use fullerite.Python.{Float, Num, flt}
use fullerite.Python.Arith.{to_float, num_scale, float_div}
use fullerite.Convertor.{select}

abbrev names : List String → List Str
names = map codes

module _ (fl : Float) where
  open fl use {Carrier, mul}

  -- `self.value`, None in the class
  abbrev pub Stored : Type 0
  Stored = Option Carrier

  -- A method: with `value=None` it returns what the object holds in its unit, otherwise it writes
  -- and returns None.
  abbrev pub Method : Type 0
  Method = Option (Num Carrier) → Exec Stored (Option Carrier)

  -- `x / k`, where x may be None
  abbrev pub divide : ℕ → Option Carrier → Result (Option Carrier)
  divide k none = err type_error
  divide k (some x) = bind (float_div fl x k) λ q. ok (some q)

  unfoldable pub bit : Method
  unfolding to_float
  bit none = gets (λ s. s)
  bit (some v) = do x ← lift (to_float fl v); modify (λ _. some x); pure none

  unfoldable pub byte : Method
  unfolding to_float num_scale float_div
  byte none = do s ← gets (λ s. s); lift (divide 8 s)
  byte (some v) = do
    x ← lift (to_float fl v)
    y ← lift (bind (num_scale fl (flt x) 8) (to_float fl))
    modify (λ _. some y)
    pure none

  unfoldable pub convertb : Method → ℕ → Method
  unfolding num_scale float_div
  convertb source offset none = do x ← source none; lift (divide (1024 ^ offset) x)
  convertb source offset (some v) = do
    w ← lift (num_scale fl v (1024 ^ offset))
    source (some w)
    pure none

  -- The methods `kilobit` to `yottabit` and `kilobyte` to `yottabyte`.
  abbrev pub kilobit : Method
  kilobit = convertb bit 1

  abbrev pub megabit : Method
  megabit = convertb bit 2

  abbrev pub gigabit : Method
  gigabit = convertb bit 3

  abbrev pub terabit : Method
  terabit = convertb bit 4

  abbrev pub petabit : Method
  petabit = convertb bit 5

  abbrev pub exabit : Method
  exabit = convertb bit 6

  abbrev pub zettabit : Method
  zettabit = convertb bit 7

  abbrev pub yottabit : Method
  yottabit = convertb bit 8

  abbrev pub kilobyte : Method
  kilobyte = convertb byte 1

  abbrev pub megabyte : Method
  megabyte = convertb byte 2

  abbrev pub gigabyte : Method
  gigabyte = convertb byte 3

  abbrev pub terabyte : Method
  terabyte = convertb byte 4

  abbrev pub petabyte : Method
  petabyte = convertb byte 5

  abbrev pub exabyte : Method
  exabyte = convertb byte 6

  abbrev pub zettabyte : Method
  zettabyte = convertb byte 7

  abbrev pub yottabyte : Method
  yottabyte = convertb byte 8

  -- the tests of `do`, in their order
  abbrev pub units : List (List Str × Method)
  units =
      (names ("bit" ∷ "b" ∷ []), bit)
      ∷ (names ("kilobit" ∷ "kbit" ∷ "Kibit" ∷ []), kilobit)
      ∷ (names ("megabit" ∷ "Mbit" ∷ "Mibit" ∷ "Mbit" ∷ []), megabit)
      ∷ (names ("gigabit" ∷ "Gbit" ∷ "Gibit" ∷ []), gigabit)
      ∷ (names ("terabit" ∷ "Tbit" ∷ "Tibit" ∷ []), terabit)
      ∷ (names ("petabit" ∷ "Pbit" ∷ "Pibit" ∷ []), petabit)
      ∷ (names ("exabit" ∷ "Ebit" ∷ "Eibit" ∷ []), exabit)
      ∷ (names ("zettabit" ∷ "Zbit" ∷ "Zibit" ∷ []), zettabit)
      ∷ (names ("yottabit" ∷ "Ybit" ∷ "Yibit" ∷ []), yottabit)
      ∷ (names ("byte" ∷ "B" ∷ []), byte)
      ∷ (names ("kilobyte" ∷ "kB" ∷ "KiB" ∷ []), kilobyte)
      ∷ (names ("megabyte" ∷ "MB" ∷ "MiB" ∷ "Mbyte" ∷ []), megabyte)
      ∷ (names ("gigabyte" ∷ "GB" ∷ "GiB" ∷ []), gigabyte)
      ∷ (names ("terabyte" ∷ "TB" ∷ "TiB" ∷ []), terabyte)
      ∷ (names ("petabyte" ∷ "PB" ∷ "PiB" ∷ []), petabyte)
      ∷ (names ("exabyte" ∷ "EB" ∷ "EiB" ∷ []), exabyte)
      ∷ (names ("zettabyte" ∷ "ZB" ∷ "ZiB" ∷ []), zettabyte)
      ∷ (names ("yottabyte" ∷ "YB" ∷ "YiB" ∷ []), yottabyte)
      ∷ []

  abbrev or_unknown : Option Method → Method
  or_unknown none v = raise not_implemented
  or_unknown (some m) v = m v

  -- `do`; an empty unit, like None, means bits
  unfoldable pub do_unit : Option Str → Method
  unfolding select
  do_unit none v = bit v
  do_unit (some []) v = bit v
  do_unit (some (c ∷ u)) v = or_unknown (select units (c ∷ u)) v

  -- `__init__`, `set` and `get`
  unfoldable pub set : Num Carrier → Option Str → Exec Stored (Option Carrier)
  unfolding do_unit
  set v unit = do_unit unit (some v)

  unfoldable pub get : Option Str → Exec Stored (Option Carrier)
  unfolding do_unit
  get unit = do_unit unit none

  -- The static method: a new object made with the value and its unit, read in the new unit.
  unfoldable pub convert : Option (Num Carrier) → Option Str → Option Str → Result (Option Carrier)
  unfolding do_unit get
  convert v old new = ((do do_unit old v; get new) none).0
