-- ===== src/Collector/Path.antt =====
-- `Collector.get_metric_path`.
use fullerite.Base.{zero, Bool, true, false, not, Option, none, some, List, [], ◌∷◌, if◌then◌else◌}
use fullerite.Base.Text.{Str, codes, str_eq, join}
use fullerite.Base.Dict.{Dict, lookup}
use fullerite.Base.Result.{Result, ok, err, type_error, bind, ◌>>=◌}
use fullerite.Base.Int.{pos}
use fullerite.Python.{int, long, flt, Value, nil, bool, num, str, strs, pattern}
use fullerite.Collector.State.{Collector}

module _ {F : Type 0} where
  -- `config[key]` if the key is there, otherwise a default
  abbrev pub config_or : Str → Value F → Dict (Value F) → Value F
  config_or key v config = elim (lookup key config) [ none ↦ v | some w ↦ w ]

  -- `join` refuses what is no text.
  abbrev pub text : Value F → Result Str
  text (str s) = ok s
  text nil = err type_error
  text (bool b) = err type_error
  text (num n) = err type_error
  text (strs l) = err type_error
  text (pattern p) = err type_error

  abbrev pub texts : List (Value F) → Result (List Str)
  texts [] = ok []
  texts (v ∷ vs) = do s ← text v; rest ← texts vs; ok (s ∷ rest)

  -- `'.'.join(values)`
  abbrev pub join_values : List (Value F) → Result Str
  join_values vs = do ss ← texts vs; ok (join b'.' ss)

  -- `path == '.'`
  abbrev pub is_dot : Value F → Bool
  is_dot (str s) = str_eq s (codes ".")
  is_dot v = false

-- `float_zero` is the test `x == 0.0`.
module _ {F : Type 0} (float_zero : F → Bool) where
  -- `suffix` as a condition
  abbrev pub has_suffix : Value F → Bool
  has_suffix nil = false
  has_suffix (str []) = false
  has_suffix (strs []) = false
  has_suffix (bool b) = b
  has_suffix (num (int (pos zero))) = false
  has_suffix (num (long (pos zero))) = false
  has_suffix (num (flt x)) = not (float_zero x)
  has_suffix v = true

  -- The prefix with the suffix, where there is one.
  abbrev pub full_prefix : Dict (Value F) → Result (Value F)
  full_prefix config =
      let prefix = config_or (codes "path_prefix") (str (codes "systems")) config in
      let suffix = config_or (codes "path_suffix") nil config in
      let joined : Result (Value F) = (do s ← join_values (prefix ∷ suffix ∷ []); ok (str s)) in
      if has_suffix suffix then joined else ok prefix

  unfoldable pub get_metric_path : Collector F → Str → Option Str → Result Str
  unfolding lookup
  get_metric_path c name (some instance') =
      let path = config_or (codes "path") (str c.class_name) c.config in
      let prefix = config_or (codes "instance_prefix") (str (codes "instances")) c.config in
      if is_dot path
      then join_values (prefix ∷ str instance' ∷ str name ∷ [])
      else join_values (prefix ∷ str instance' ∷ path ∷ str name ∷ [])
  get_metric_path c name none =
      let path = config_or (codes "path") (str c.class_name) c.config in
      bind (full_prefix c.config) λ prefix.
        if is_dot path
        then join_values (prefix ∷ str name ∷ [])
        else join_values (prefix ∷ path ∷ str name ∷ [])
