-- ===== src/Redis/Collect.antt =====
-- `collect` and `collect_instance` of src/diamond/collectors/redisstat/redisstat.py, for what the
-- client's `info` returns.
use fullerite.Base.{ℕ, zero, suc, String, none, some, List, [], ◌∷◌, ◌++◌, length}
use fullerite.Base.Int.{ℤ, pos, negsuc}
use fullerite.Base.Text.{Str, codes, decimal}
use fullerite.Base.Dict.{Dict, lookup, insert, update}
use fullerite.Base.Result.{Result, ok, err, type_error, bind}
use fullerite.Base.Exec.{pure, lift, gets, ◌>>=◌, ◌>>◌}
use fullerite.Python.{Num, int, Value, nil, bool, num, str, strs}
use fullerite.Python.Arith.{num_sub}
use fullerite.Python.Convert.{bool_int, value_int, value_str}
use fullerite.Collector.State.{World, Action, config_get}
use fullerite.Collector.Config.{get_default_config}
use fullerite.Collector.Path.{config_or}
use fullerite.Collector.Publish.{publish, report_error}
use fullerite.Collector.Run.{sample}
use fullerite.Json.{
  Json, null, flag, number, text, items, object, Fields, no_fields, field, get_field,
}
use fullerite.Redis.{Address, default_host, default_port, last_part}

-- `_KEYS`: the metric's key and the key of the server's information.
abbrev pub redis_keys : List (String × String)
redis_keys =
    ("clients.blocked", "blocked_clients")
    ∷ ("clients.connected", "connected_clients")
    ∷ ("clients.longest_output_list", "client_longest_output_list")
    ∷ ("cpu.parent.sys", "used_cpu_sys")
    ∷ ("cpu.children.sys", "used_cpu_sys_children")
    ∷ ("cpu.parent.user", "used_cpu_user")
    ∷ ("cpu.children.user", "used_cpu_user_children")
    ∷ ("hash_max_zipmap.entries", "hash_max_zipmap_entries")
    ∷ ("hash_max_zipmap.value", "hash_max_zipmap_value")
    ∷ ("keys.evicted", "evicted_keys")
    ∷ ("keys.expired", "expired_keys")
    ∷ ("keyspace.hits", "keyspace_hits")
    ∷ ("keyspace.misses", "keyspace_misses")
    ∷ ("last_save.changes_since", "changes_since_last_save")
    ∷ ("last_save.time", "last_save_time")
    ∷ ("memory.internal_view", "used_memory")
    ∷ ("memory.external_view", "used_memory_rss")
    ∷ ("memory.fragmentation_ratio", "mem_fragmentation_ratio")
    ∷ ("process.commands_processed", "total_commands_processed")
    ∷ ("process.connections_received", "total_connections_received")
    ∷ ("process.uptime", "uptime_in_seconds")
    ∷ ("pubsub.channels", "pubsub_channels")
    ∷ ("pubsub.patterns", "pubsub_patterns")
    ∷ ("slaves.connected", "connected_slaves")
    ∷ ("slaves.last_io", "master_last_io_seconds_ago")
    ∷ []

-- `_RENAMED_KEYS`
abbrev pub renamed_keys : List (String × String)
renamed_keys =
    ("last_save.changes_since", "rdb_changes_since_last_save")
    ∷ ("last_save.time", "rdb_last_save_time")
    ∷ []

-- `get_default_config`
abbrev pub redis_default : {F : Type 0} → Dict (Value F)
redis_default = update get_default_config (
    (codes "host", str default_host)
    ∷ (codes "port", num (int default_port))
    ∷ (codes "timeout", num (int (pos 5)))
    ∷ (codes "db", num (int (pos 0)))
    ∷ (codes "auth", nil)
    ∷ (codes "databases", num (int (pos 16)))
    ∷ (codes "path", str (codes "redis"))
    ∷ (codes "instances", strs [])
    ∷ [])

module _ {F : Type 0} where
  -- `if found in info: data[key] = info[found]`, for a list of keys
  unfoldable pub copy_keys : List (String × String) → Fields F → Dict (Json F) → Dict (Json F)
  unfolding get_field insert
  copy_keys [] server d = d
  copy_keys ((key, found) ∷ names) server d = elim (get_field (codes found) server) [
    | none ↦ copy_keys names server d
    | some v ↦ copy_keys names server (insert (codes key) v d)
  ]

  -- the items of one database
  unfoldable pub copy_database : Str → Fields F → Dict (Json F) → Dict (Json F)
  unfolding insert
  copy_database db no_fields d = d
  copy_database db (field key v fs) d = copy_database db fs (insert (db ++ b'.' ∷ key) v d)

  -- `for key in info[db]`, which is taken for a dict
  abbrev pub add_database : Str → Json F → Dict (Json F) → Result (Dict (Json F))
  unfolding copy_database
  add_database db (object fs) d = ok (copy_database db fs d)
  add_database db v d = err type_error

  -- The databases from an index on.
  unfoldable pub copy_databases : ℕ → ℕ → Fields F → Dict (Json F) → Result (Dict (Json F))
  unfolding get_field add_database
  copy_databases i zero server d = ok d
  copy_databases i (suc n) server d =
      let db = codes "db" ++ decimal i in
      bind (elim (get_field db server) [ none ↦ ok d | some v ↦ add_database db v d ])
        λ e. copy_databases (suc i) n server e

-- The number of rounds of `range(0, n)`.
abbrev pub rounds : ℤ → ℕ
rounds (pos n) = n
rounds (negsuc n) = 0

-- A value as `publish` gets it. (A list or a dict, which no metric takes, stands as a list.)
abbrev pub plain_value : {F : Type 0} → Json F → Value F
plain_value null = nil
plain_value (flag b) = bool b
plain_value (number n) = num n
plain_value (text s) = str s
plain_value (items vs) = strs []
plain_value (object fs) = strs []

-- the number of characters behind the last full stop
abbrev pub decimals : Str → ℕ
decimals s = let (before, behind) = last_part b'.' s in elim behind [ none ↦ 0 | some t ↦ length t ]

-- What the connection to an instance gives: the exception of the given name, or what `info` returns.
pub data Reply (F : Type 0) : Type 0 where
  refused : Str → Reply F
  info : Result (Fields F) → Reply F

module _ (w : World) (depth : ℕ) where
  open w use {float, float.{Carrier}, now}

  -- `_precision`. (What has no text here has none of the full stops that matter.)
  unfoldable pub value_precision : Value Carrier → ℕ
  unfolding value_str
  value_precision v = elim (value_str float v) [ none ↦ 0 | some s ↦ decimals s ]

  -- `int(time.time()) - info[key]`
  abbrev pub time_since : Json Carrier → Result (Num Carrier)
  unfolding num_sub
  time_since (number n) = num_sub float (int now) n
  time_since (flag b) = num_sub float (int now) (int (bool_int b))
  time_since v = err type_error

  unfoldable pub add_since :
      List Str → Fields Carrier → Dict (Json Carrier) → Result (Dict (Json Carrier))
  unfolding get_field insert
  add_since [] server d = ok d
  add_since (key ∷ keys) server d =
      bind
        (elim (get_field key server) [
          | none ↦ ok d
          | some v ↦
              bind (time_since v) λ n. ok (insert (codes "last_save.time_since") (number n) d)
        ])
        λ e. add_since keys server e

  -- What is published of the server's information, for the number of databases.
  unfoldable pub redis_values : ℤ → Fields Carrier → Result (Dict (Json Carrier))
  unfolding copy_keys copy_databases
  redis_values databases server =
      bind
        (copy_databases 0 (rounds databases) server
          (copy_keys renamed_keys server (copy_keys redis_keys server [])))
        λ d. add_since (codes "last_save_time" ∷ codes "rdb_last_save_time" ∷ []) server d

  unfoldable pub publish_redis : Str → Dict (Json Carrier) → Action w Unit
  publish_redis nick [] = pure tt
  publish_redis nick ((key, v) ∷ d) = do
    let value = plain_value v
    publish w depth (record (sample (nick ++ b'.' ∷ key) value (codes "GAUGE")) {
      precision = value_precision value;
    })
    publish_redis nick d

  -- the values of an instance that answers; a refused connection is logged
  unfoldable pub publish_reply : Str → Reply Carrier → Action w Unit
  unfolding value_int lookup
  publish_reply nick (refused e) = report_error w depth (some e)
  publish_reply nick (info answer) = do
    fs ← lift answer
    c ← gets (λ c. c)
    databases ← lift (value_int float (config_or (codes "databases") (num (int (pos 16))) c.config))
    d ← lift (redis_values databases fs)
    publish_redis nick d

  -- `collect_instance`, with `_client`'s conversions and the error that it logs
  unfoldable pub collect_instance : (Address → Reply Carrier) → Str → Address → Action w Unit
  unfolding value_int lookup
  collect_instance connect nick a = do
    db ← config_get (codes "db")
    which ← lift (value_int float db)
    timeout ← config_get (codes "timeout")
    seconds ← lift (value_int float timeout)
    publish_reply nick (connect a)

  -- `collect`
  unfoldable pub collect_redis : (Address → Reply Carrier) → Dict Address → Action w Unit
  collect_redis connect [] = pure tt
  collect_redis connect ((nick, a) ∷ instances) = do
    collect_instance connect nick a
    collect_redis connect instances
