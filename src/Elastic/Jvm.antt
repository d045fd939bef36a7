-- ===== src/Elastic/Jvm.antt =====
-- The metrics of the Java machine in `collect_instance` of
-- src/diamond/collectors/elasticsearch/elasticsearch.py, and all metrics of a node.
use fullerite.Base.{true, [], ◌∷◌, ◌++◌, if◌then◌else◌}
use fullerite.Base.Int.{pos}
use fullerite.Base.Text.{Str, codes, replace_char}
use fullerite.Base.Dict.{insert}
use fullerite.Base.Result.{Result, ok, bind}
use fullerite.Python.{Float, int, flt, Value}
use fullerite.Python.Arith.{to_float, float_div}
use fullerite.Json.{Json, number, Fields, no_fields, field, index, fields_of}
use fullerite.Elastic.{
  Metrics, numeric, add_values, copy_two_level, at_path, set_metrics, has_field,
}
use fullerite.Elastic.Node.{
  if_has, basic_metrics, indices_metrics, process_metrics, fs_metrics, in_stats,
}

module _ (fl : Float) where
  open fl use {Carrier}

  -- `x / 1000.0 / 60 / 60 / 24`
  abbrev pub millis_in_days : Json Carrier → Result (Json Carrier)
  unfolding to_float float_div
  millis_in_days v = bind (numeric fl v) λ n. bind (to_float fl n) λ x.
      bind (float_div fl x 1_000) λ a.
        bind (float_div fl a 60)
          λ b. bind (float_div fl b 60) λ c. bind (float_div fl c 24) λ d. ok (number (flt d))

  -- the memory pools
  unfoldable pub pool_metrics : Fields Carrier → Metrics fl → Result (Metrics fl)
  unfolding index insert
  pool_metrics no_fields m = ok m
  pool_metrics (field name d pools) m =
      let pool = codes "jvm.mem.pools." ++ replace_char b' ' b'_' name in
      bind (index d (codes "used_in_bytes")) λ used. bind (index d (codes "max_in_bytes")) λ most.
        pool_metrics pools
          (insert (pool ++ codes ".max") most (insert (pool ++ codes ".used") used m))

  -- The collectors of garbage, with the totals of their counts and times.
  unfoldable pub gc_metrics :
      Fields Carrier
      → Json Carrier
      → Json Carrier
      → Metrics fl
      → Result (Json Carrier × Json Carrier × Metrics fl)
  unfolding index insert add_values
  gc_metrics no_fields count time m = ok (count, time, m)
  gc_metrics (field name d more) count time m =
      let prefix = codes "jvm.gc.collection." ++ name in
      bind (index d (codes "collection_count")) λ c. bind (add_values fl count c) λ counts.
        bind (index d (codes "collection_time_in_millis")) λ t. bind (add_values fl time t) λ times.
          gc_metrics more counts times
            (insert (prefix ++ codes ".time") t (insert (prefix ++ codes ".count") c m))

  -- `metrics[name] = gc[key] if key in gc else total`
  unfoldable pub gc_total :
      Str → Str → Json Carrier → Json Carrier → Metrics fl → Result (Metrics fl)
  unfolding has_field index insert
  gc_total name key gc total m =
      bind (has_field fl key gc)
        λ b. if b then bind (index gc key) (λ v. ok (insert name v m)) else ok (insert name total m)

  unfoldable pub jvm_metrics : Json Carrier → Metrics fl → Result (Metrics fl)
  unfolding index insert set_metrics pool_metrics gc_metrics gc_total at_path
  jvm_metrics jvm m = bind (index jvm (codes "uptime_in_millis")) λ up.
      bind (millis_in_days up) λ days.
        bind
          (set_metrics fl
            (("jvm.mem.heap_used", "mem" ∷ "heap_used_in_bytes" ∷ [])
              ∷ ("jvm.mem.heap_committed", "mem" ∷ "heap_committed_in_bytes" ∷ [])
              ∷ ("jvm.mem.non_heap_used", "mem" ∷ "non_heap_used_in_bytes" ∷ [])
              ∷ ("jvm.mem.non_heap_committed", "mem" ∷ "non_heap_committed_in_bytes" ∷ [])
              ∷ [])
            jvm (insert (codes "jvm.uptime_in_days") days m))
          λ m1. bind (index jvm (codes "mem")) λ mem.
            bind
              (if_has fl (codes "heap_used_percent") mem
                (λ v n. ok (insert (codes "jvm.mem.heap_used_percent") v n)) m1)
              λ m2. bind (index mem (codes "pools")) λ p. bind (fields_of p) λ pools.
                bind (pool_metrics pools m2) λ m3.
                  bind
                    (set_metrics fl (("jvm.threads.count", "threads" ∷ "count" ∷ []) ∷ []) jvm m3)
                    λ m4. bind (index jvm (codes "gc")) λ gc.
                      bind (index gc (codes "collectors")) λ c. bind (fields_of c) λ collectors.
                        bind
                          (gc_metrics collectors (number (int (pos 0))) (number (int (pos 0))) m4)
                          λ g.
                            bind
                              (gc_total (codes "jvm.gc.collection.count") (codes "collection_count")
                                gc g.0 g.2)
                              λ m5.
                                gc_total (codes "jvm.gc.collection.time")
                                  (codes "collection_time_in_millis") gc g.1 m5

  -- an optional group of metrics, by `self.config['stats']`
  abbrev pub if_wanted :
      Str → Value Carrier → (Metrics fl → Result (Metrics fl)) → Metrics fl → Result (Metrics fl)
  if_wanted key stats f m = bind (in_stats key stats) λ b. if b then f m else ok m

  -- Every metric of the node, up to those of the cluster and the indices.
  unfoldable pub node_metrics : Value Carrier → Json Carrier → Result (Metrics fl)
  unfolding basic_metrics process_metrics fs_metrics jvm_metrics copy_two_level index
  node_metrics stats node = bind (basic_metrics fl node []) λ m1.
      bind (index node (codes "indices")) λ indices. bind (indices_metrics fl indices m1) λ m2.
        bind (process_metrics fl node m2) λ m3.
          bind (if_has fl (codes "fs") node (fs_metrics fl) m3) λ m4.
            bind
              (if_wanted (codes "jvm") stats
                (λ m. bind (index node (codes "jvm")) λ v. jvm_metrics v m) m4)
              λ m5.
                bind
                  (if_wanted (codes "thread_pool") stats
                    (λ m.
                      bind (index node (codes "thread_pool"))
                        λ v. copy_two_level fl (λ key. true) (codes "thread_pool") v m)
                    m5)
                  λ m6.
                    if_has fl (codes "network") node
                      (copy_two_level fl (λ key. true) (codes "network")) m6
