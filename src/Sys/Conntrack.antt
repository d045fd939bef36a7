-- ===== src/Sys/Conntrack.antt =====
-- src/diamond/collectors/conntrack/conntrack.py.
use fullerite.Base.{
  ℕ, Bool, true, false, ◌||◌, Option, none, some, List, [], ◌∷◌, ◌++◌, map, if◌then◌else◌,
}
use fullerite.Base.Text.{Str, codes, ends_with, split, strip}
use fullerite.Base.Dict.{Dict, lookup, insert, update}
use fullerite.Base.Result.{Result, ok, err, unbound_local_error, zero_division, or_raise}
use fullerite.Base.Exec.{pure, lift, ◌>>=◌, ◌>>◌}
use fullerite.Python.{flt, Value, num, str, strs}
use fullerite.Collector.State.{World, Action, config_get}
use fullerite.Collector.Config.{get_default_config}
use fullerite.Collector.Publish.{publish, report_error}
use fullerite.Collector.Run.{sample}

-- `get_default_config`
abbrev pub conntrack_default : {F : Type 0} → Dict (Value F)
conntrack_default = update get_default_config (
    (codes "path", str (codes "conntrack"))
    ∷ (codes "dir", str (codes "/proc/sys/net/ipv4/netfilter,/proc/sys/net/netfilter"))
    ∷ (
      codes "files",
      str (
          codes "ip_conntrack_count,ip_conntrack_max,"
          ++ codes "nf_conntrack_count,nf_conntrack_max"),
    )
    ∷ [])

-- A file in a directory: there is none, it cannot be read, or its first line.
pub data File : Type 0 where
  missing unreadable : File
  first_line : Str → File

-- the texts between commas, or a list; any other value leaves the variable as it was
unfoldable pub name_list : {F : Type 0} → Option (List Str) → Value F → Option (List Str)
unfolding split
name_list before (str s) = some (map strip (split b',' s))
name_list before (strs l) = some l
name_list before v = before

-- `sfile.endswith(('conntrack_count', 'conntrack_max', 'conntrack_buckets'))`
unfoldable pub is_known : Str → Bool
is_known file =
    ends_with file (codes "conntrack_count")
    || (ends_with file (codes "conntrack_max") || ends_with file (codes "conntrack_buckets"))

module _ (w : World) (depth : ℕ) where
  open w use {float, float.{Carrier, parse, div}, float_zero}

  -- `float(line)`, whose exception is logged
  abbrev pub add_line : Str → Option Carrier → Dict Carrier → Action w (Dict Carrier)
  unfolding insert
  add_line name none collected = do report_error w depth (some (codes "ValueError")); pure collected
  add_line name (some x) collected = pure (insert name x collected)

  unfoldable pub add_file : Str → File → Dict Carrier → Action w (Dict Carrier)
  unfolding insert
  add_file name missing collected = pure collected
  add_file name unreadable collected = do
    report_error w depth (some (codes "IOError"))
    pure collected
  add_file name (first_line l) collected = add_line name (parse l) collected

  unfoldable pub read_files :
      (Str → Str → File) → Str → List Str → Dict Carrier → Action w (Dict Carrier)
  unfolding is_known add_file
  read_files file dir [] collected = pure collected
  read_files file dir (f ∷ fs) collected = elim (is_known f) [
    | true ↦ (do more ← add_file f (file dir f) collected; read_files file dir fs more)
    | false ↦ (do report_error w depth none; read_files file dir fs collected)
  ]

  unfoldable pub read_dirs :
      (Str → Str → File) → List Str → List Str → Dict Carrier → Action w (Dict Carrier)
  unfolding read_files
  read_dirs file [] files collected = pure collected
  read_dirs file (d ∷ ds) files collected = do
    more ← read_files file d files collected
    read_dirs file ds files more

  -- a value that is there and not zero
  abbrev pub nonzero : Option Carrier → Option Carrier
  nonzero none = none
  nonzero (some x) = if float_zero x then none else some x

  abbrev pub ratio : Str → Option Carrier → Option Carrier → Dict Carrier → Result (Dict Carrier)
  unfolding insert
  ratio name (some max) (some buckets) collected = elim (div max buckets) [
    | none ↦ err zero_division
    | some q ↦ ok (insert name q collected)
  ]
  ratio name max buckets collected = ok collected

  -- the ratio of a table's size and its buckets, if both are known and not zero
  unfoldable pub add_ratio : Str → Dict Carrier → Result (Dict Carrier)
  unfolding lookup insert
  add_ratio prefix collected =
      ratio (prefix ++ codes "_hash_ratio")
        (nonzero (lookup (prefix ++ codes "_conntrack_max") collected))
        (nonzero (lookup (prefix ++ codes "_conntrack_buckets") collected)) collected

  unfoldable pub publish_all : Dict Carrier → Action w Unit
  publish_all [] = pure tt
  publish_all ((key, x) ∷ more) = do
    publish w depth (sample (codes "conntrack." ++ key) (num (flt x)) (codes "GAUGE"))
    publish_all more

  -- `collect`
  unfoldable pub collect_conntrack : (Str → Str → File) → Action w Unit
  unfolding read_dirs add_ratio publish_all name_list
  collect_conntrack file = do
    dir ← config_get (codes "dir")
    files ← config_get (codes "files")
    dirs ← lift (or_raise (name_list none dir) unbound_local_error)
    names ← lift (or_raise (name_list (some []) files) unbound_local_error)
    collected ← read_dirs file dirs names []
    with_ip ← lift (add_ratio (codes "ip") collected)
    with_nf ← lift (add_ratio (codes "nf") with_ip)
    publish_all with_nf
