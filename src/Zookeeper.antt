-- ===== src/Zookeeper.antt =====
-- src/diamond/collectors/zookeeper/zookeeper.py, for the lines that a server sends, the expression
-- that takes a host apart, and whether the reset's request raises.
use fullerite.Base.{ℕ, Bool, false, Option, none, some, List, [], ◌∷◌, map, if◌then◌else◌}
use fullerite.Base.Text.{Str, codes, str_mem, words}
use fullerite.Base.Dict.{Dict, lookup, insert, update}
use fullerite.Base.Result.{Result, ok, err, index_error, attribute_error, bind}
use fullerite.Base.Exec.{pure, lift, gets, modify, ◌>>=◌, ◌>>◌}
use fullerite.Python.{Value, bool, str, strs}
use fullerite.Metric.{dict}
use fullerite.Collector.State.{World, Action}
use fullerite.Collector.Config.{get_default_config}
use fullerite.Collector.Publish.{is_true, publish, report_error}
use fullerite.Collector.Run.{sample}
use fullerite.Memcached.{Target, alias_or_name, desired, raw_stats, host_list}

abbrev pub ignored_rows : List Str
ignored_rows = map codes ("zk_version" ∷ "zk_server_state" ∷ [])

-- `get_default_config`
abbrev pub zookeeper_default : {F : Type 0} → Dict (Value F)
zookeeper_default = update get_default_config (
    (codes "path", str (codes "zookeeper"))
    ∷ (codes "hosts", strs (codes "localhost:2181" ∷ []))
    ∷ (codes "reset_stats", bool false)
    ∷ [])

-- the statistics so far, with those of one line
unfoldable pub read_row : {F : Type 0} → List Str → Dict (Value F) → Result (Dict (Value F))
unfolding insert
read_row [] stats = err index_error
read_row (name ∷ []) stats = if str_mem name ignored_rows then ok stats else err index_error
read_row (name ∷ v ∷ more) stats =
    if str_mem name ignored_rows then ok stats else ok (insert name (str v) stats)

-- `get_stats`
unfoldable pub read_rows : {F : Type 0} → List Str → Dict (Value F) → Result (Dict (Value F))
unfolding read_row
read_rows [] stats = ok stats
read_rows (l ∷ ls) stats = bind (read_row (words l) stats) λ next. read_rows ls next

module _ (w : World) (depth : ℕ) where
  open w use {float, float.{Carrier}}

  -- one of the wanted names
  unfoldable pub publish_row : Str → Dict (Value Carrier) → Str → Action w Unit
  unfolding lookup
  publish_row alias stats stat = elim (lookup stat stats) [
    | none ↦ report_error w depth none
    | some v ↦ (do
      modify (λ c. record c { dimensions = dict ((codes "zookeeper_host", str alias) ∷ []) })
      publish w depth (sample stat v (codes "GAUGE")))
  ]

  unfoldable pub publish_rows : Str → Dict (Value Carrier) → List Str → Action w Unit
  unfolding publish_row
  publish_rows alias stats [] = pure tt
  publish_rows alias stats (stat ∷ wanted) = do
    publish_row alias stats stat
    publish_rows alias stats wanted

  -- `if reset_stats:`, with the request's socket.error, which is logged
  abbrev pub reset : Option (Value Carrier) → Bool → Action w Unit
  reset none failed = pure tt
  reset (some v) failed =
      if is_true w v
      then (if failed then report_error w depth (some (codes "error")) else pure tt)
      else pure tt

  -- a host, with what `search` finds in it
  unfoldable pub collect_server :
      (Target → Option (List Str))
      → (Target → Bool)
      → Option (Value Carrier)
      → Option Target
      → Action w Unit
  unfolding raw_stats read_rows lookup publish_rows
  collect_server answer failed reset_stats none = lift (err attribute_error)
  collect_server answer failed reset_stats (some t) = do
    lines ← raw_stats w depth (answer t)
    stats ← lift (read_rows lines [])
    c ← gets (λ c. c)
    wanted ← lift (desired w (lookup (codes "publish") c.config) stats)
    publish_rows (alias_or_name t) stats wanted
    reset reset_stats (failed t)

  unfoldable pub collect_servers :
      (Str → Option Target)
      → (Target → Option (List Str))
      → (Target → Bool)
      → Option (Value Carrier)
      → List Str
      → Action w Unit
  unfolding collect_server
  collect_servers find answer failed reset_stats [] = pure tt
  collect_servers find answer failed reset_stats (h ∷ hosts) = do
    collect_server answer failed reset_stats (find h)
    collect_servers find answer failed reset_stats hosts

  -- `collect`
  unfoldable pub collect_zookeeper :
      (Str → Option Target) → (Target → Option (List Str)) → (Target → Bool) → Action w Unit
  unfolding collect_servers lookup
  collect_zookeeper find answer failed = do
    c ← gets (λ c. c)
    hosts ← lift (host_list w depth (lookup (codes "hosts") c.config))
    collect_servers find answer failed (lookup (codes "reset_stats") c.config) hosts
