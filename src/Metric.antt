-- ===== src/Metric.antt =====
-- src/diamond/metric.py: the class `Metric`. Paths are never None in the program's own calls, but
-- the constructor tests for it.
pub mod Line
use fullerite.Base.{ℕ, Bool, true, not, Option, none, some, List, [], ◌∷◌, map, ◌==◌, if◌then◌else◌}
use fullerite.Base.Int.{ℤ}
use fullerite.Base.Text.{Str, codes, str_mem, split, join}
use fullerite.Base.Dict.{Dict}
use fullerite.Base.Result.{Result, ok, err, diamond_exception, value_error, index_error, ◌>>=◌}
use fullerite.Python.{Float, int, flt, Value, nil, bool, num}
use fullerite.Python.Convert.{value_float, value_int, value_str}

-- What is passed for `dimensions`: None, a dict, or an object of another type.
pub data Dimensions (F : Type 0) : Type 0 where
  no_dimensions : Dimensions F
  dict : Dict (Value F) → Dimensions F
  not_a_dict : Dimensions F

pub record Metric (F : Type 0) : Type 0 where
  pub path : Str
  pub value : Value F
  pub raw_value : Value F
  pub timestamp : ℤ
  pub precision : ℕ
  pub metric_type : Str
  pub ttl : Option F
  pub dimensions : Option (Dict Str)

abbrev pub metric_types : List Str
metric_types = map codes ("COUNTER" ∷ "GAUGE" ∷ "CUMCOUNTER" ∷ [])

-- `except ValueError: raise DiamondException`
abbrev pub value_error_to_diamond {ℓ} : {A : Type ℓ} → Result A → Result A
value_error_to_diamond (ok a) = ok a
value_error_to_diamond (err value_error) = err diamond_exception
value_error_to_diamond (err e) = err e

module _ (fl : Float) where
  open fl use {Carrier, round}

  -- `isinstance(value, (int, float))`, or the conversion
  unfoldable pub metric_value : ℕ → Value Carrier → Result (Value Carrier)
  unfolding value_float
  metric_value precision (bool b) = ok (bool b)
  metric_value precision (num (int n)) = ok (num (int n))
  metric_value precision (num (flt x)) = ok (num (flt x))
  metric_value precision v =
      value_error_to_diamond
        do x ← value_float fl v; ok (num (flt (if precision == 0 then round x else x)))

  -- None means now
  unfoldable pub metric_timestamp : ℤ → Value Carrier → Result ℤ
  unfolding value_int
  metric_timestamp now nil = ok now
  metric_timestamp now t = value_error_to_diamond (value_int fl t)

  -- The items whose value is a plain integer, a float or a text, each value as a text.
  unfoldable pub filter_dimensions : Dict (Value Carrier) → Dict Str
  unfolding value_str
  filter_dimensions [] = []
  filter_dimensions ((k, v) ∷ d) =
      let rest = filter_dimensions d in
      elim (value_str fl v) [ none ↦ rest | some s ↦ (k, s) ∷ rest ]

  unfoldable pub metric_dimensions : Dimensions Carrier → Result (Option (Dict Str))
  unfolding filter_dimensions
  metric_dimensions no_dimensions = ok none
  metric_dimensions (dict d) = ok (some (filter_dimensions d))
  metric_dimensions not_a_dict = err diamond_exception

  -- `None in [path, value] or metric_type not in self._METRIC_TYPES`
  abbrev is_invalid : Value Carrier → Str → Bool
  is_invalid nil t = true
  is_invalid v t = not (str_mem t metric_types)

  -- `__init__`, where `now` is `int(time.time())`
  unfoldable pub new_metric :
      ℤ
      → Option Str
      → Value Carrier
      → Value Carrier
      → Value Carrier
      → ℕ
      → Str
      → Option Carrier
      → Dimensions Carrier
      → Result (Metric Carrier)
  unfolding metric_value metric_timestamp metric_dimensions
  new_metric now none value raw timestamp precision type ttl dims = err diamond_exception
  new_metric now (some path) value raw timestamp precision type ttl dims =
      if is_invalid value type then err diamond_exception else do
        t ← metric_timestamp now timestamp
        v ← metric_value precision value
        d ← metric_dimensions dims
        ok (record {
          path = path;
          value = v;
          raw_value = raw;
          timestamp = t;
          precision = precision;
          metric_type = type;
          ttl = ttl;
          dimensions = d;
        })

-- `self.path.split('.')[0]`: `split` has at least one part.
abbrev first_part : List Str → Result Str
first_part [] = err index_error
first_part (p ∷ ps) = ok p

abbrev second_part : List Str → Result Str
second_part (p ∷ q ∷ ps) = ok q
second_part ps = err index_error

abbrev parts_from_third : List Str → List Str
parts_from_third (p ∷ q ∷ ps) = ps
parts_from_third ps = []

unfoldable pub get_path_prefix : Str → Result Str
unfolding split
get_path_prefix path = first_part (split b'.' path)

unfoldable pub get_collector_path : Str → Result Str
unfolding split
get_collector_path path = second_part (split b'.' path)

unfoldable pub get_metric_path : Str → Str
unfolding split
get_metric_path path = join b'.' (parts_from_third (split b'.' path))
