-- ===== src/Elastic/Run.antt =====
-- `collect_instance_index_stats`, `collect_instance` and `collect` of
-- src/diamond/collectors/elasticsearch/elasticsearch.py, for what the server of an instance gives.
-- The instances are taken in the order in which they are sorted.
use fullerite.Base.{ℕ, Bool, false, Option, none, some, [], ◌∷◌, if◌then◌else◌}
use fullerite.Base.Int.{ℤ}
use fullerite.Base.Text.{Str, codes, starts_with}
use fullerite.Base.Dict.{Dict}
use fullerite.Base.Result.{Result, ok, err, index_error, attribute_error, bind}
use fullerite.Base.Exec.{pure, lift, ◌>>=◌, ◌>>◌}
use fullerite.Collector.State.{World, Action, config_get}
use fullerite.Collector.Config.{str_to_bool}
use fullerite.Collector.Publish.{is_true, publish}
use fullerite.Collector.Run.{sample}
use fullerite.Json.{Json, flag, text, object, no_fields, field, index, fields_of}
use fullerite.Redis.Collect.{plain_value}
use fullerite.Elastic.{Metrics, has_field, at_path}
use fullerite.Elastic.Node.{in_stats}
use fullerite.Elastic.Jvm.{node_metrics}
use fullerite.Elastic.Indices.{Aliases, index_metrics, indices_metrics, build_aliases}
use fullerite.Elastic.Collect.{Response, full, full_key, request, cluster_metrics}

module _ (w : World) (depth : ℕ) (fetch : Str → Response w.float.Carrier) where
  open w use {float, float.{Carrier}}

  -- the statistics, asked for once more in the old form where there are none
  abbrev stats_request : Action w (Option (Json Carrier))
  unfolding request
  stats_request = do
    first ←
        request w depth fetch (codes "_stats/docs,store,indexing,get,search,merge,flush,refresh")
          (some (codes "_all"))
    elim (full w depth fetch first) [
      | some v ↦ pure (some v)
      | none ↦ (do
        second ←
            request w depth fetch
              (codes "_stats?clear=true&docs=true&store=true&indexing=true&get=true&search=true")
              (some (codes "_all"))
        pure (full w depth fetch second))
    ]

  -- The indices, which stand under `_all` or beside it.
  abbrev indices_of : Json Carrier → Json Carrier → Result (Option (Json Carrier))
  unfolding has_field index
  indices_of all result = bind (has_field float (codes "indices") all) λ inner.
      bind (has_field float (codes "indices") result) λ outer.
        if inner
        then bind (index all (codes "indices")) (λ v. ok (some v))
        else if outer
        then bind (index result (codes "indices")) (λ v. ok (some v))
        else ok none

  abbrev aliases_of : Option (Json Carrier) → Result Aliases
  unfolding build_aliases
  aliases_of none = ok none
  aliases_of (some v) = bind (fields_of v) λ fs. bind (build_aliases float fs []) λ d. ok (some d)

  -- the metrics of the single indices
  abbrev each_index : Bool → Json Carrier → Metrics float → Action w (Metrics float)
  unfolding request aliases_of indices_metrics
  each_index logstash indices m = do
    result ← request w depth fetch (codes "_alias") none
    aliases ← lift (aliases_of (full w depth fetch result))
    fs ← lift (fields_of indices)
    lift (indices_metrics float logstash fs m aliases)

  abbrev all_indices : Bool → Json Carrier → Metrics float → Action w (Metrics float)
  unfolding indices_of each_index index index_metrics
  all_indices logstash result m = do
    all ← lift (index result (codes "_all"))
    primaries ← lift (index all (codes "primaries"))
    (n, kept) ← lift (index_metrics float logstash (codes "indices._all") primaries m none)
    found ← lift (indices_of all result)
    elim found [ none ↦ pure n | some v ↦ each_index logstash v n ]

  -- `collect_instance_index_stats`. (`logstash_mode` is read by its truth as a value.)
  unfoldable pub index_stats : Metrics float → Action w (Metrics float)
  unfolding stats_request all_indices
  index_stats m = do
    result ← stats_request
    elim result [
      | none ↦ pure m
      | some v ↦ (do mode ← config_get (codes "logstash_mode"); all_indices (is_true w mode) v m)
    ]

  -- `result['nodes'][result['nodes'].keys()[0]]`
  abbrev first_node : Json Carrier → Result (Json Carrier)
  first_node (object no_fields) = err index_error
  first_node (object (field key v fs)) = ok v
  first_node v = err attribute_error

  -- whether the version number begins with `0.`
  abbrev is_old : Json Carrier → Result Bool
  is_old (text s) = ok (starts_with s (codes "0."))
  is_old v = err attribute_error

  -- the document of the version, where False stands for a failed request
  abbrev or_false : Option (Json Carrier) → Json Carrier
  or_false none = flag false
  or_false (some v) = v

  unfoldable pub publish_metrics : Str → Metrics float → Action w Unit
  publish_metrics alias [] = pure tt
  publish_metrics alias ((key, v) ∷ m) = do
    publish w depth (sample (full_key alias key) (plain_value v) (codes "GAUGE"))
    publish_metrics alias m

  -- the optional metrics of the cluster and of the indices
  abbrev with_cluster : Metrics float → Action w (Metrics float)
  unfolding str_to_bool cluster_metrics
  with_cluster m = do
    v ← config_get (codes "cluster")
    b ← lift (str_to_bool v)
    if is_true w b then cluster_metrics w depth fetch m else pure m

  abbrev with_indices : Metrics float → Action w (Metrics float)
  unfolding index_stats
  with_indices m = do
    stats ← config_get (codes "stats")
    wanted ← lift (in_stats (codes "indices") stats)
    if wanted then index_stats m else pure m

  -- the metrics of a node's statistics, published
  unfoldable pub collect_node : Str → Json Carrier → Action w Unit
  unfolding with_cluster with_indices index node_metrics
  collect_node alias result = do
    nodes ← lift (index result (codes "nodes"))
    node ← lift (first_node nodes)
    stats ← config_get (codes "stats")
    m ← lift (node_metrics float stats node)
    m1 ← with_cluster m
    m2 ← with_indices m1
    publish_metrics alias m2

  -- `collect_instance`
  unfoldable pub collect_instance : Str → Action w Unit
  unfolding request at_path
  collect_instance alias = do
    version ← request w depth fetch (codes "/") (some (codes "version"))
    number ← lift (at_path float (codes "version" ∷ codes "number" ∷ []) (or_false version))
    old ← lift (is_old number)
    result ←
        request w depth fetch
          (if old then codes "_nodes/_local/stats?all=true" else codes "_nodes/_local/stats")
          (some (codes "nodes"))
    elim (full w depth fetch result) [ none ↦ pure tt | some v ↦ collect_node alias v ]

-- `collect`, for the instances and what the server at a host and a port gives
unfoldable pub collect_elastic :
    (w : World) → ℕ → (Str → ℤ → Str → Response w.float.Carrier) → Dict (Str × ℤ) → Action w Unit
collect_elastic w depth fetch [] = pure tt
collect_elastic w depth fetch ((alias, (host, port)) ∷ instances) = do
  collect_instance w depth (fetch host port) alias
  collect_elastic w depth fetch instances
