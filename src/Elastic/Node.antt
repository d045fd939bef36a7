-- ===== src/Elastic/Node.antt =====
-- The metrics of a node in `collect_instance` of
-- src/diamond/collectors/elasticsearch/elasticsearch.py, up to those of the cluster and the indices.
use fullerite.Base.{String, Bool, false, List, [], ◌∷◌, if◌then◌else◌}
use fullerite.Base.Text.{Str, codes, str_mem, contains}
use fullerite.Base.Result.{Result, ok, err, type_error, index_error, bind}
use fullerite.Python.{Float, Value, str, strs}
use fullerite.Json.{Json, items, no_items, item, index}
use fullerite.Elastic.{Metrics, add_metrics, at_path, set_metrics, has_field}

-- `key in self.config['stats']`
abbrev pub in_stats : {F : Type 0} → Str → Value F → Result Bool
in_stats key (strs l) = ok (str_mem key l)
in_stats key (str s) = ok (contains s key)
in_stats key v = err type_error

module _ (fl : Float) where
  open fl use {Carrier}

  -- `if key in d:` and what is done with `d[key]`
  abbrev pub if_has :
      Str
      → Json Carrier
      → (Json Carrier → Metrics fl → Result (Metrics fl))
      → Metrics fl
      → Result (Metrics fl)
  unfolding has_field index
  if_has key d f m =
      bind (has_field fl key d) λ b. if b then bind (index d key) (λ v. f v m) else ok m

  -- the metrics of the node that are always there
  unfoldable pub basic_metrics : Json Carrier → Metrics fl → Result (Metrics fl)
  unfolding set_metrics
  basic_metrics node m =
      set_metrics fl
        (("http.current", "http" ∷ "current_open" ∷ [])
          ∷ ("indices.docs.count", "indices" ∷ "docs" ∷ "count" ∷ [])
          ∷ ("indices.docs.deleted", "indices" ∷ "docs" ∷ "deleted" ∷ [])
          ∷ ("indices.datastore.size", "indices" ∷ "store" ∷ "size_in_bytes" ∷ [])
          ∷ ("transport.rx.count", "transport" ∷ "rx_count" ∷ [])
          ∷ ("transport.rx.size", "transport" ∷ "rx_size_in_bytes" ∷ [])
          ∷ ("transport.tx.count", "transport" ∷ "tx_count" ∷ [])
          ∷ ("transport.tx.size", "transport" ∷ "tx_size_in_bytes" ∷ [])
          ∷ [])
        node m

  unfoldable pub cache_metrics : Json Carrier → Metrics fl → Result (Metrics fl)
  unfolding add_metrics set_metrics
  cache_metrics cache m =
      bind
        (add_metrics fl
          (("cache.bloom.size", "bloom_size_in_bytes" ∷ [])
            ∷ ("cache.field.evictions", "field_evictions" ∷ [])
            ∷ ("cache.field.size", "field_size_in_bytes" ∷ [])
            ∷ [])
          cache m)
        λ m1.
          bind
            (set_metrics fl
              (("cache.filter.count", "filter_count" ∷ [])
                ∷ ("cache.filter.evictions", "filter_evictions" ∷ [])
                ∷ ("cache.filter.size", "filter_size_in_bytes" ∷ [])
                ∷ [])
              cache m1)
            λ m2. add_metrics fl (("cache.id.size", "id_cache_size_in_bytes" ∷ []) ∷ []) cache m2

  unfoldable pub filter_cache_metrics : Json Carrier → Metrics fl → Result (Metrics fl)
  unfolding add_metrics set_metrics
  filter_cache_metrics cache m =
      bind
        (set_metrics fl
          (("cache.filter.evictions", "evictions" ∷ [])
            ∷ ("cache.filter.size", "memory_size_in_bytes" ∷ [])
            ∷ [])
          cache m)
        λ n. add_metrics fl (("cache.filter.count", "count" ∷ []) ∷ []) cache n

  abbrev pub indices_metrics : Json Carrier → Metrics fl → Result (Metrics fl)
  unfolding if_has cache_metrics filter_cache_metrics add_metrics
  indices_metrics indices m = bind (if_has (codes "cache") indices cache_metrics m) λ m1.
      bind (if_has (codes "filter_cache") indices filter_cache_metrics m1) λ m2.
        bind
          (if_has (codes "id_cache") indices
            (add_metrics fl (("cache.id.size", "memory_size_in_bytes" ∷ []) ∷ [])) m2)
          λ m3.
            if_has (codes "fielddata") indices
              (add_metrics fl (
                ("fielddata.size", "memory_size_in_bytes" ∷ [])
                ∷ ("fielddata.evictions", "evictions" ∷ [])
                ∷ []))
              m3

  unfoldable pub process_metrics : Json Carrier → Metrics fl → Result (Metrics fl)
  unfolding add_metrics
  process_metrics node m =
      add_metrics fl
        (("process.cpu.percent", "process" ∷ "cpu" ∷ "percent" ∷ [])
          ∷ ("process.mem.resident", "process" ∷ "mem" ∷ "resident_in_bytes" ∷ [])
          ∷ ("process.mem.share", "process" ∷ "mem" ∷ "share_in_bytes" ∷ [])
          ∷ ("process.mem.virtual", "process" ∷ "mem" ∷ "total_virtual_in_bytes" ∷ [])
          ∷ [])
        node m

  -- `l[0]`, of a list
  abbrev pub first_item : Json Carrier → Result (Json Carrier)
  first_item (items (item v vs)) = ok v
  first_item (items no_items) = err index_error
  first_item v = err type_error

  -- `'io_stats' in fs and 'devices' in fs['io_stats']`
  abbrev pub has_devices : Json Carrier → Result Bool
  unfolding has_field index
  has_devices fs = bind (has_field fl (codes "io_stats") fs) λ b.
      if b then bind (index fs (codes "io_stats")) (has_field fl (codes "devices")) else ok false

  abbrev pub disk_names : List String → List (String × List String)
  disk_names (a ∷ b ∷ c ∷ d ∷ l) =
      ("disk.reads.count", a ∷ [])
      ∷ ("disk.reads.size", b ∷ [])
      ∷ ("disk.writes.count", c ∷ [])
      ∷ ("disk.writes.size", d ∷ [])
      ∷ []
  disk_names l = []

  abbrev pub disk_metrics : List String → Json Carrier → Metrics fl → Result (Metrics fl)
  unfolding add_metrics
  disk_metrics names list m = bind (first_item list) λ d. add_metrics fl (disk_names names) d m

  unfoldable pub fs_metrics : Json Carrier → Metrics fl → Result (Metrics fl)
  unfolding has_devices if_has disk_metrics at_path
  fs_metrics fs m = bind (has_devices fs) λ b.
      if b
      then bind (at_path fl (codes "io_stats" ∷ codes "devices" ∷ []) fs) (λ l.
        disk_metrics
          ("read_operations" ∷ "read_kilobytes" ∷ "write_operations" ∷ "write_kilobytes" ∷ []) l m)
      else if_has (codes "data") fs
          (disk_metrics (
            "disk_reads" ∷ "disk_read_size_in_bytes" ∷ "disk_writes" ∷ "disk_write_size_in_bytes"
            ∷ []))
          m
