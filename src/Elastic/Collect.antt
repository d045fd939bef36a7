-- ===== src/Elastic/Collect.antt =====
-- The requests of src/diamond/collectors/elasticsearch/elasticsearch.py, its instances, and
-- `collect`.
use fullerite.Base.{
  ℕ, Bool, true, false, not, Option, none, some, List, [], ◌∷◌, ◌++◌, if◌then◌else◌,
}
use fullerite.Base.Int.{ℤ, pos}
use fullerite.Base.Text.{Str, codes}
use fullerite.Base.Dict.{Dict, lookup, insert, update}
use fullerite.Base.Result.{Result, ok, err, type_error, key_error, value_error, or_raise, bind}
use fullerite.Base.Exec.{pure, lift, ◌>>=◌, ◌>>◌}
use fullerite.Python.{int, Value, bool, num, str, strs}
use fullerite.Collector.State.{World, Action}
use fullerite.Collector.Config.{get_default_config}
use fullerite.Collector.Publish.{is_true, report_error}
use fullerite.Json.{Json, null, flag, number, text, items, object, no_items, no_fields}
use fullerite.Redis.{partition, format}
use fullerite.Elastic.{Metrics, add_metrics, has_field}

-- What the server gives for a path: the exception of the request or of the parser by its name, or
-- a document.
pub data Response (F : Type 0) : Type 0 where
  failed : Str → Response F
  document : Json F → Response F

-- `get_default_config`
abbrev pub elastic_default : {F : Type 0} → Dict (Value F)
elastic_default = update get_default_config (
    (codes "host", str (codes "127.0.0.1"))
    ∷ (codes "port", num (int (pos 9_200)))
    ∷ (codes "instances", strs [])
    ∷ (codes "path", str (codes "elasticsearch"))
    ∷ (codes "stats", strs (codes "jvm" ∷ codes "thread_pool" ∷ codes "indices" ∷ []))
    ∷ (codes "logstash_mode", bool false)
    ∷ (codes "cluster", bool false)
    ∷ [])

-- `'%s.%s' % (alias, key)`, unless the alias is empty
abbrev pub full_key : Str → Str → Str
full_key [] key = key
full_key (c ∷ alias) key = c ∷ alias ++ b'.' ∷ key

module _ (w : World) where
  open w use {float, float.{Carrier, parse_int}}

  -- the loop's body in `process_config`: the alias, the host and the port
  unfoldable pub parse_instance : Str → Result (Str × Str × ℤ)
  parse_instance s =
      let (before, behind) = partition b'@' s in
      let alias : Str = elim behind [ none ↦ codes "default" | some t ↦ before ] in
      let host_port : Str = elim behind [ none ↦ s | some t ↦ t ] in
      let (host, port) = partition b':' host_port in
      elim port [
        | none ↦ ok (alias, host, pos 9_200)
        | some t ↦ bind (or_raise (parse_int t) value_error) λ p. ok (alias, host, p)
      ]

  unfoldable pub parse_instances : List Str → Dict (Str × ℤ) → Result (Dict (Str × ℤ))
  unfolding parse_instance insert
  parse_instances [] d = ok d
  parse_instances (s ∷ ss) d =
      bind (parse_instance s) λ e. parse_instances ss (insert e.0 (e.1, e.2) d)

  abbrev setting : Dict (Value Carrier) → Str → Result (Value Carrier)
  setting config key = or_raise (lookup key config) key_error

  -- `'@%s:%s' % (host, port)`
  unfoldable pub single_instance : Dict (Value Carrier) → Result Str
  unfolding lookup
  single_instance config = bind (setting config (codes "host")) λ host.
      bind (setting config (codes "port"))
        λ port. bind (format w host) λ h. bind (format w port) λ p. ok (b'@' ∷ (h ++ b':' ∷ p))

  unfoldable pub instance_list : Dict (Value Carrier) → Result (List Str)
  unfolding single_instance
  instance_list config = elim (setting config (codes "instances")) [
    | err e ↦ err e
    | ok (str s) ↦ ok (s ∷ [])
    | ok (strs (s ∷ ss)) ↦ ok (s ∷ ss)
    | ok (strs []) ↦ bind (single_instance config) λ s. ok (s ∷ [])
    | ok v ↦ err type_error
  ]

  -- The instances that `process_config` sets.
  unfoldable pub read_instances : Dict (Value Carrier) → Result (Dict (Str × ℤ))
  unfolding instance_list parse_instances
  read_instances config = bind (instance_list config) λ l. parse_instances l []

  -- what `not result` says of a document
  abbrev pub is_empty : Json Carrier → Bool
  is_empty null = true
  is_empty (flag b) = not b
  is_empty (number n) = not (is_true w (num n))
  is_empty (text []) = true
  is_empty (items no_items) = true
  is_empty (object no_fields) = true
  is_empty v = false

  module _ (depth : ℕ) (fetch : Str → Response Carrier) where
    -- Whether the document has the key that it must have; otherwise that is logged.
    abbrev checked : Option Str → Json Carrier → Action w (Option (Json Carrier))
    unfolding has_field
    checked none doc = pure (some doc)
    checked (some key) doc = do
      found ← lift (has_field float key doc)
      if found then pure (some doc) else (do report_error w depth none; pure none)

    -- `_get`, where none stands for False
    unfoldable pub request : Str → Option Str → Action w (Option (Json Carrier))
    unfolding checked
    request path key = elim (fetch path) [
      | failed e ↦ (do report_error w depth (some e); pure none)
      | document doc ↦ checked key doc
    ]

    -- what is taken for `result`, unless that is false
    abbrev pub full : Option (Json Carrier) → Option (Json Carrier)
    full none = none
    full (some v) = if is_empty v then none else some v

    unfoldable pub cluster_metrics : Metrics float → Action w (Metrics float)
    unfolding request add_metrics
    cluster_metrics m = do
      result ← request (codes "_cluster/health") none
      elim (full result) [
        | none ↦ pure m
        | some health ↦ lift (
            add_metrics float
              (("cluster_health.nodes.total", "number_of_nodes" ∷ [])
                ∷ ("cluster_health.nodes.data", "number_of_data_nodes" ∷ [])
                ∷ ("cluster_health.shards.active_primary", "active_primary_shards" ∷ [])
                ∷ ("cluster_health.shards.active", "active_shards" ∷ [])
                ∷ ("cluster_health.shards.relocating", "relocating_shards" ∷ [])
                ∷ ("cluster_health.shards.unassigned", "unassigned_shards" ∷ [])
                ∷ ("cluster_health.shards.initializing", "initializing_shards" ∷ [])
                ∷ [])
              health m)
      ]
