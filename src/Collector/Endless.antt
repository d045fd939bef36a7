-- ===== src/Collector/Endless.antt =====
-- `flush` of src/diamond/collector.py when every error report fills the buffer again.
use fullerite.Base.{
  ℕ, zero, suc, ◌+◌, ◌≡◌, refl, ◌∙◌, true, false, Option, none, some, List, [], ◌∷◌, ◌++◌,
  length-append, arith,
}
use fullerite.Base.Int.{pos}
use fullerite.Base.Text.{Str, codes, join}
use fullerite.Base.Dict.{Dict, lookup}
use fullerite.Base.Result.{ok, err, recursion_limit}
use fullerite.Python.{Value, nil, int, num, str}
use fullerite.Python.Convert.{value_float, int_ge}
use fullerite.Metric
use fullerite.Metric.{Metric, dict, no_dimensions}
use fullerite.Collector.State.{World, Collector, Action, Payload}
use fullerite.Collector.Path.{get_metric_path}
use fullerite.Collector.Flush.{ensure_connected, send, after_send, attempt, attempts, flush_with}
use fullerite.Collector.Names.{Named, metric_path_plain, make_payload-get_metric_path}
use fullerite.Collector.Publish.{
  error_sample, raw_or, payload_dimensions, is_allowed, has_full_buffer, publish_metric_with,
  create_metric, publish_allowed, publish_with, report_error, flush,
}
use fullerite.Collector.Quiet.{HasLimit}

module _ (w : World) where
  open w use {float, float.{Carrier, mul}, dumps, send_ok}

  -- A collector that is connected, lets every metric through, can make metrics, and flushes its
  -- buffer whenever that holds a payload.
  pub record Eager (prefix path : Str) (i k : Value Carrier) (x y : Carrier) (c : Collector Carrier)
      : Type 0 where
    pub named : Named prefix path (str []) c
    pub white : lookup (codes "metrics_whitelist") c.config ≡ some nil
    pub black : lookup (codes "metrics_blacklist") c.config ≡ some nil
    pub interval : lookup (codes "interval") c.config ≡ some i
    pub multiplier : lookup (codes "ttl_multiplier") c.config ≡ some k
    pub interval_float : value_float float i ≡ ok x
    pub multiplier_float : value_float float k ≡ ok y
    pub limit : HasLimit w 1 c
    pub connected : c.connected ≡ true
    pub reconnect : c.reconnect ≡ false

  module _ (prefix path : Str) (i k : Value Carrier) (x y : Carrier) where
    abbrev Full : Collector Carrier → Type 0
    Full = Eager prefix path i k x y

    -- It depends on the connection and the configuration alone.
    Full-keeps :
        (c d : Collector Carrier)
        → d.config ≡ c.config
        → d.connected ≡ c.connected
        → d.reconnect ≡ c.reconnect
        → Full c
        → Full d
    Full-keeps c d e f g h = record {
      named = record {
        has_prefix = rw e h.named.has_prefix;
        has_path = rw e h.named.has_path;
        has_path_suffix = rw e h.named.has_path_suffix;
        prefix_word = h.named.prefix_word;
        path_word = h.named.path_word;
        path_some = h.named.path_some;
      };
      white = rw e h.white;
      black = rw e h.black;
      interval = rw e h.interval;
      multiplier = rw e h.multiplier;
      interval_float = h.interval_float;
      multiplier_float = h.multiplier_float;
      limit = rw e h.limit;
      connected = f ∙ h.connected;
      reconnect = g ∙ h.reconnect;
    }

    is_allowed-true :
        (name : Str) (c : Collector Carrier) → Full c → is_allowed w name c ≡ (ok true, c)
    unfolding is_allowed
    is_allowed-true name c h = ground arith

    create_metric-Full :
        (ds : Dict (Value Carrier)) (c : Collector Carrier)
        → Full c
        → (m : Metric Carrier) × (create_metric w error_sample (dict ds) c ≡ (ok (ok m), c))
          × (get_metric_path w.float_zero c (codes "fullerite.collector_errors") none ≡ ok m.path)
    unfolding create_metric Metric.new_metric value_float
    create_metric-Full ds c h =
        let name = codes "fullerite.collector_errors" in
        let full = join b'.' (prefix ∷ path ∷ name ∷ []) in
        let plain = metric_path_plain w.float_zero prefix path name c h.named in
        (
          record {
            path = full;
            value = num (int (pos 1));
            raw_value = nil;
            timestamp = w.now;
            precision = 0;
            metric_type = codes "GAUGE";
            ttl = some (mul x y);
            dimensions = some (Metric.filter_dimensions float ds);
          },
          ground (arith, plain),
          plain,
        )

    has_full_buffer_one :
        (c : Collector Carrier) (p : Payload Carrier)
        → Full c
        → has_full_buffer w (record c { payload = c.payload ++ p ∷ [] }) ≡ true
    unfolding has_full_buffer int_ge
    has_full_buffer_one c p h = ground (arith, length-append c.payload (p ∷ []))

    module _ (report : Option Str → Action w Unit) where
      -- The error sample is put into the buffer, and the buffer is flushed.
      publish-flush :
          (ds : Dict (Value Carrier)) (c : Collector Carrier)
          → Full c
          → (p : Payload Carrier) × (publish_with w report error_sample
                (record c { dimensions = dict ds })
              ≡ flush_with w report
                  (record c { dimensions = no_dimensions; payload = c.payload ++ p ∷ [] }))
      unfolding publish_with publish_allowed publish_metric_with
      publish-flush ds c h =
          let taken = record c { dimensions = no_dimensions } in
          let same = Full-keeps c taken refl refl refl h in
          let (m, made, found) = create_metric-Full ds taken same in
          let made_payload =
            make_payload-get_metric_path w.float_zero prefix path
              (codes "fullerite.collector_errors") taken m same.named found in
          let p : Payload Carrier = record {
            name = codes "fullerite.collector_errors";
            value = raw_or m.raw_value m.value;
            type = m.metric_type;
            dimensions = payload_dimensions prefix path c.name c.default_dimensions m.dimensions;
          } in
          (
            p,
            ground (
              arith,
              is_allowed-true (codes "fullerite.collector_errors") taken same,
              made,
              made_payload,
              has_full_buffer_one taken p same,
            ),
          )

      -- A report that raises ends the first attempt.
      flush_with-raises :
          (s : Str) (c : Collector Carrier)
          → Full c
          → dumps c.payload ≡ some s
          → send_ok c.sends ≡ false
          → ((d : Collector Carrier)
              → Full d
              → (report (some (codes "error")) d).0 ≡ err recursion_limit)
          → (flush_with w report c).0 ≡ err recursion_limit
      unfolding flush_with attempts attempt ensure_connected send after_send
      flush_with-raises s c h sent failed raises =
          let failing = record c { payload = []; sends = c.sends + 1 } in
          ground (arith, raises failing (Full-keeps c failing refl refl refl h))

    -- If every send fails and `json.dumps` accepts every buffer, then `flush` of a connected
    -- collector with a `max_buffer_size` of 1, no lists, and a prefix and a path without dots,
    -- meets the recursion limit, however deep it may go.
    pub flush_endless :
        ((n : ℕ) → send_ok n ≡ false)
        → ((l : List (Payload Carrier)) → (s : Str) × (dumps l ≡ some s))
        → (depth : ℕ) (c : Collector Carrier) → Full c
        → (flush w depth c).0 ≡ err recursion_limit
    unfolding flush report_error
    flush_endless failed written zero c h =
        flush_with-raises (report_error w zero) (written c.payload).0 c h (written c.payload).1
          (failed c.sends) (λ d f. refl)
    flush_endless failed written (suc depth) c h =
        flush_with-raises (report_error w (suc depth)) (written c.payload).0 c h
          (written c.payload).1 (failed c.sends)
          (λ d f.
            let (p, e) =
              publish-flush (report_error w depth) ((codes "error_type", str (codes "error")) ∷ [])
                d f in
            let next = record d { dimensions = no_dimensions; payload = d.payload ++ p ∷ [] } in
            ground (
              arith,
              e,
              flush_endless failed written depth next (Full-keeps d next refl refl refl f),
            ))
