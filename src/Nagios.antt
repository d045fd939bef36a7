-- ===== src/Nagios.antt =====
-- src/diamond/collectors/nagiosperfdata/nagiosperfdata.py, for the tokens that `re.findall` finds.
mod Lines
use fullerite.Base.{
  ℕ, Bool, true, false, ◌&&◌, ◌||◌, ◌==◌, leb, Option, none, some, List, [], ◌∷◌, ◌++◌, map,
  if◌then◌else◌,
}
use fullerite.Base.Text.{Str, codes, str_eq, lower, join, split, cons_head, lower_char}
use fullerite.Base.Dict.{Dict, lookup, insert, update, has_key}
use fullerite.Base.Result.{Result, ok, err, key_error, type_error, value_error, or_raise, ◌>>=◌}
use fullerite.Base.Exec.{pure, lift}
use fullerite.Base.Exec as Exec
use fullerite.Python.{Float, Num, flt, Value, str, num}
use fullerite.Python.Arith.{num_scale, num_div}
use fullerite.Collector.State.{World, Action}
use fullerite.Collector.Config.{get_default_config}
use fullerite.Collector.Publish.{publish, report_error}
use fullerite.Collector.Run.{sample}

-- a character of `[\w-]`, on ASCII
abbrev pub is_name_char : ℕ → Bool
is_name_char c =
    (leb b'a' (lower_char c) && leb (lower_char c) b'z')
    || ((leb b'0' c && leb c b'9') || ((c == b'_') || (c == b'-')))

-- `re.sub("[^\w-]", "_", s)`
unfoldable pub sanitize : Str → Str
sanitize [] = []
sanitize (c ∷ s) = (if is_name_char c then c else b'_') ∷ sanitize s

-- `s.split('::')`, at two colons
unfoldable pub split_colons : Str → List Str
split_colons [] = [] ∷ []
split_colons (c ∷ []) = (c ∷ []) ∷ []
split_colons (c ∷ d ∷ s) =
    let rest = split_colons s in
    let longer = split_colons (d ∷ s) in
    if (c == b':') && (d == b':') then [] ∷ rest else cons_head c longer

-- `get_default_config`
abbrev pub nagios_default : {F : Type 0} → Dict (Value F)
nagios_default = update get_default_config (
    (codes "path", str (codes "nagiosperfdata"))
    ∷ (codes "perfdata_dir", str (codes "/var/spool/diamond/nagiosperfdata"))
    ∷ [])

-- a token with exactly one separator
unfoldable pub add_field : List Str → Dict Str → Dict Str
unfolding insert
add_field (key ∷ v ∷ []) acc = insert key v acc
add_field tokens acc = acc

unfoldable pub add_fields : List Str → Dict Str → Dict Str
unfolding add_field split_colons
add_fields [] acc = acc
add_fields (token ∷ tokens) acc = add_fields tokens (add_field (split_colons token) acc)

-- `_extract_fields`
unfoldable pub extract_fields : Str → Dict Str
unfolding add_fields split
extract_fields line = add_fields (split 9 line) []

abbrev pub has_all : List Str → Dict Str → Bool
unfolding has_key
has_all [] d = true
has_all (k ∷ ks) d = has_key k d && has_all ks d

abbrev pub host_fields : List Str
host_fields = map codes ("DATATYPE" ∷ "HOSTNAME" ∷ "TIMET" ∷ "HOSTPERFDATA" ∷ [])

abbrev pub service_fields : List Str
service_fields =
    map codes ("DATATYPE" ∷ "HOSTNAME" ∷ "TIMET" ∷ "SERVICEDESC" ∷ "SERVICEPERFDATA" ∷ [])

-- `_fields_valid`
unfoldable pub fields_valid : Dict Str → Bool
unfolding lookup has_all
fields_valid d = elim (lookup (codes "DATATYPE") d) [
  | none ↦ false
  | some t ↦
      if str_eq t (codes "HOSTPERFDATA")
      then has_all host_fields d
      else str_eq t (codes "SERVICEPERFDATA") && has_all service_fields d
]

-- The factor of a unit, and whether it divides.
unfoldable pub unit_factor : Str → Option (Bool × ℕ)
unit_factor unit =
    if str_eq unit (codes "ms")
    then some (true, 1000)
    else if str_eq unit (codes "us")
    then some (true, 1_000_000)
    else if str_eq unit (codes "KB")
    then some (false, 1024)
    else if str_eq unit (codes "MB")
    then some (false, 1_024_768)
    else if str_eq unit (codes "GB")
    then some (false, 1_073_741_824)
    else if str_eq unit (codes "TB")
    then some (false, 1_099_511_627_776)
    else none

module _ (fl : Float) where
  open fl use {Carrier, parse}

  -- `_normalize_to_unit`
  unfoldable pub normalize_to_unit : Num Carrier → Str → Result (Num Carrier)
  unfolding unit_factor num_div num_scale
  normalize_to_unit v unit = elim (unit_factor unit) [
    | none ↦ ok v
    | some (true, k) ↦ num_div fl v k
    | some (false, k) ↦ num_scale fl v k
  ]

  -- `_parse_perfdata`, for the tokens found; a text that is no float is left out
  unfoldable pub parse_perfdata :
      List (Str × Str × Str) → List (Str × Num Carrier) → Result (List (Str × Num Carrier))
  unfolding normalize_to_unit
  parse_perfdata [] metrics = ok metrics
  parse_perfdata ((key, text, unit) ∷ tokens) metrics = elim (parse text) [
    | none ↦ parse_perfdata tokens metrics
    | some x ↦
        normalize_to_unit (flt x) unit >>= λ v. parse_perfdata tokens (metrics ++ (key, v) ∷ [])
  ]

-- a value that is there and not empty, at the end of a path
abbrev pub append_some : Option Str → List (Option Str) → List (Option Str)
append_some none path = path
append_some (some []) path = path
append_some (some (c ∷ s)) path = path ++ some (c ∷ s) ∷ []

-- the service's part of the path: the postfix, or else the description, which may be None
abbrev pub service_part : Option Str → Option Str → Option Str
service_part (some (c ∷ s)) description = some (c ∷ s)
service_part postfix description = description

-- the path that the counters' names come after
unfoldable pub metric_path_base : Dict Str → Str → Str → List (Option Str)
unfolding lookup
metric_path_base fields hostname datatype =
    let base = append_some (lookup (codes "GRAPHITEPREFIX") fields) [] in
    let named = base ++ some (lower hostname) ∷ [] in
    let postfix = lookup (codes "GRAPHITEPOSTFIX") fields in
    if str_eq datatype (codes "HOSTPERFDATA")
    then named ++ some (codes "host") ∷ []
    else if str_eq datatype (codes "SERVICEPERFDATA")
    then named ++ service_part postfix (lookup (codes "SERVICEDESC") fields) ∷ []
    else named

-- `[self._sanitize(x) for x in metric_path]`, where None is no text
unfoldable pub sanitize_all : List (Option Str) → Result (List Str)
unfolding sanitize
sanitize_all [] = ok []
sanitize_all (none ∷ path) = err type_error
sanitize_all (some s ∷ path) = sanitize_all path >>= λ rest. ok (sanitize s ∷ rest)

module _ (w : World) (depth : ℕ) (find : Str → List (Str × Str × Str)) where
  open w use {float, float.{Carrier}}

  unfoldable pub publish_counters : List (Option Str) → List (Str × Num Carrier) → Action w Unit
  unfolding sanitize_all
  publish_counters base [] = pure tt
  publish_counters base ((counter, v) ∷ more) =
      Exec.◌>>◌
        (Exec.◌>>=◌ (lift (sanitize_all (base ++ some counter ∷ [])))
          λ path. publish w depth (sample (join b'.' path) (num v) (codes "GAUGE")))
        (publish_counters base more)

  -- what `_process_line` reads of the fields, before it publishes
  unfoldable pub read_fields : Dict Str → Result (List (Option Str) × List (Str × Num Carrier))
  unfolding lookup metric_path_base parse_perfdata
  read_fields fields = do
    hostname ← or_raise (lookup (codes "HOSTNAME") fields) key_error
    datatype ← or_raise (lookup (codes "DATATYPE") fields) key_error
    perfdata ← or_raise (lookup datatype fields) key_error
    counters ← parse_perfdata float (find perfdata) []
    ok (metric_path_base fields hostname datatype, counters)

  -- `_process_line`. Fields that are not valid are logged as a warning, and then read all the same.
  unfoldable pub process_line : Str → Action w Unit
  unfolding extract_fields read_fields publish_counters
  process_line line =
      Exec.◌>>=◌ (lift (read_fields (extract_fields line))) λ r. publish_counters r.0 r.1

  -- The lines of a file, which is removed after them: the result says that it was reached.
  unfoldable pub process_lines : List Str → Action w Unit
  unfolding process_line
  process_lines [] = pure tt
  process_lines (l ∷ ls) = Exec.◌>>◌ (process_line l) (process_lines ls)

  -- `_process_file`; none is an IOError
  unfoldable pub process_file : Option (List Str) → Action w Unit
  unfolding process_lines
  process_file none = report_error w depth (some (codes "IOError"))
  process_file (some lines) = process_lines lines

  unfoldable pub process_files : List (Option (List Str)) → Action w Unit
  unfolding process_file
  process_files [] = pure tt
  process_files (f ∷ fs) = Exec.◌>>◌ (process_file f) (process_files fs)

  -- `collect`; none is a directory that cannot be read
  unfoldable pub collect_nagios : Option (List (Option (List Str))) → Action w Unit
  unfolding process_files
  collect_nagios none = report_error w depth (some (codes "OSError"))
  collect_nagios (some files) = process_files files
