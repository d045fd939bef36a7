-- ===== src/Memcached.antt =====
-- src/diamond/collectors/memcached/memcached.py, for the lines that a server sends, the expression
-- that takes a host apart, and the connection limit found for a process id.
pub mod Pid
use fullerite.Base.{
  ℕ, Bool, true, false, ◌&&◌, ◌||◌, not, Option, none, some, List, [], ◌∷◌, ◌++◌, map,
  if◌then◌else◌,
}
use fullerite.Base.Int.{pos}
use fullerite.Base.Text.{Str, codes, str_eq, str_mem, contains, split}
use fullerite.Base.Dict.{Dict, lookup, insert, update, keys}
use fullerite.Base.Result.{
  Result, ok, err, index_error, value_error, type_error, attribute_error, or_raise, bind,
}
use fullerite.Base.Exec.{pure, lift, gets, modify, ◌>>=◌, ◌>>◌}
use fullerite.Python.{int, flt, Value, num, str, strs}
use fullerite.Metric.{dict}
use fullerite.Collector.State.{World, Action}
use fullerite.Collector.Config.{get_default_config}
use fullerite.Collector.Publish.{report_error}
use fullerite.Collector.Run.{publish_gauge, publish_cumulative_counter}

abbrev pub ignored : List Str
ignored = map codes (
    "libevent" ∷ "pointer_size" ∷ "time" ∷ "version" ∷ "repcached_version" ∷ "replication"
    ∷ "accepting_conns" ∷ "pid" ∷ [])

-- `GAUGES`
abbrev pub gauges : List Str
gauges = map codes (
    "bytes" ∷ "connection_structures" ∷ "curr_connections" ∷ "curr_items" ∷ "threads"
    ∷ "reserved_fds" ∷ "limit_maxbytes" ∷ "hash_power_level" ∷ "hash_bytes" ∷ "hash_is_expanding"
    ∷ "uptime" ∷ [])

-- `get_default_config`
abbrev pub memcached_default : {F : Type 0} → Dict (Value F)
memcached_default = update get_default_config (
    (codes "path", str (codes "memcached"))
    ∷ (codes "hosts", strs (codes "localhost:11211" ∷ []))
    ∷ [])

-- What a host's text is taken apart into: an alias, the name of the host, and a port.
pub record Target : Type 0 where
  pub alias : Option Str
  pub host_name : Str
  pub port : Option Str

abbrev pub alias_or_name : Target → Str
alias_or_name t = elim t.alias [ none ↦ t.host_name | some a ↦ a ]

module _ (w : World) where
  open w use {float, float.{Carrier, parse, parse_int}}

  -- `float(s)` of a text with a full stop, and `int(s)` of another
  abbrev pub stat_value : Str → Result (Value Carrier)
  stat_value s =
      if contains s (codes ".")
      then bind (or_raise (parse s) value_error) (λ x. ok (num (flt x)))
      else bind (or_raise (parse_int s) value_error) (λ n. ok (num (int n)))

  -- The statistics and the process id so far, with those of one line.
  unfoldable pub read_stat :
      List Str → Dict (Value Carrier) × Option Str → Result (Dict (Value Carrier) × Option Str)
  unfolding insert
  read_stat [] (stats, pid) = ok (stats, pid)
  read_stat (kind ∷ []) (stats, pid) =
      if str_eq kind (codes "STAT") then err index_error else ok (stats, pid)
  read_stat (kind ∷ name ∷ rest) (stats, pid) =
      if not (str_eq kind (codes "STAT")) || str_mem name ignored
      then ok (stats, pid)
      else elim rest [
        | [] ↦ err index_error
        | text ∷ more ↦
            if str_eq name (codes "pid")
            then ok (stats, some text)
            else bind (stat_value text) (λ v. ok (insert name v stats, pid))
      ]

  unfoldable pub read_stats :
      List Str → Dict (Value Carrier) × Option Str → Result (Dict (Value Carrier) × Option Str)
  unfolding read_stat split
  read_stats [] found = ok found
  read_stats (l ∷ ls) found = bind (read_stat (split b' ' l) found) λ next. read_stats ls next

  -- `get_stats`, for the connection limit that the command line of a process has
  unfoldable pub get_stats : (Option Str → Option Str) → List Str → Result (Dict (Value Carrier))
  unfolding read_stats insert
  get_stats limit lines = bind (read_stats lines ([], none)) λ found. elim (limit found.1) [
    | none ↦ ok found.0
    | some n ↦ ok (insert (codes "limit_maxconn") (str n) found.0)
  ]

  -- what is wanted: the configured names, where a text stands for its letters, or all
  abbrev pub desired : Option (Value Carrier) → Dict (Value Carrier) → Result (List Str)
  desired none stats = ok (keys stats)
  desired (some (strs l)) stats = ok l
  desired (some (str s)) stats = ok (map (λ (c : ℕ). c ∷ []) s)
  desired (some v) stats = err type_error

  module _ (depth : ℕ) where
    -- one of the wanted names
    unfoldable pub publish_stat : Str → Dict (Value Carrier) → Str → Action w Unit
    unfolding lookup
    publish_stat alias stats stat = elim (lookup stat stats) [
      | none ↦ report_error w depth none
      | some v ↦ (do
        modify (λ c. record c { dimensions = dict ((codes "memcache_host", str alias) ∷ []) })
        let name = codes "memcache." ++ stat
        if str_mem stat gauges
            then publish_gauge w depth name v 0 none
            else publish_cumulative_counter w depth name v 0 none)
    ]

    unfoldable pub publish_stats : Str → Dict (Value Carrier) → List Str → Action w Unit
    unfolding publish_stat
    publish_stats alias stats [] = pure tt
    publish_stats alias stats (stat ∷ wanted) = do
      publish_stat alias stats stat
      publish_stats alias stats wanted

    -- `get_raw_stats`: the lines sent, or none for its socket.error, which is logged
    unfoldable pub raw_stats : Option (List Str) → Action w (List Str)
    raw_stats (some lines) = pure lines
    raw_stats none = do report_error w depth (some (codes "error")); pure []

    -- a host, with what `search` finds in it
    unfoldable pub collect_target :
        (Target → Option (List Str)) → (Option Str → Option Str) → Option Target → Action w Unit
    unfolding raw_stats get_stats lookup publish_stats
    collect_target answer limit none = lift (err attribute_error)
    collect_target answer limit (some t) = do
      lines ← raw_stats (answer t)
      stats ← lift (get_stats limit lines)
      c ← gets (λ c. c)
      wanted ← lift (desired (lookup (codes "publish") c.config) stats)
      publish_stats (alias_or_name t) stats wanted

    unfoldable pub collect_targets :
        (Str → Option Target)
        → (Target → Option (List Str))
        → (Option Str → Option Str)
        → List Str
        → Action w Unit
    unfolding collect_target
    collect_targets find answer limit [] = pure tt
    collect_targets find answer limit (h ∷ hosts) = do
      collect_target answer limit (find h)
      collect_targets find answer limit hosts

    abbrev pub host_list : Option (Value Carrier) → Result (List Str)
    host_list (some (str s)) = ok (s ∷ [])
    host_list (some (strs l)) = ok l
    host_list v = err type_error

    -- `collect`
    unfoldable pub collect_memcached :
        (Str → Option Target)
        → (Target → Option (List Str))
        → (Option Str → Option Str)
        → Action w Unit
    unfolding collect_targets lookup
    collect_memcached find answer limit = do
      c ← gets (λ c. c)
      hosts ← lift (host_list (lookup (codes "hosts") c.config))
      collect_targets find answer limit hosts
