-- ===== src/Snmp/Sent.antt =====
-- What src/diamond/collectors/udp/udp.py publishes.
use fullerite.Base.{ℕ, ◌≡◌, Option, some, List, inl, inr, arith}
use fullerite.Base.Int.{ℤ, pos}
use fullerite.Base.Text.{Str, codes}
use fullerite.Base.Result.{Result-cases, ok}
use fullerite.Python.{Num, int, num, Value, nil}
use fullerite.Metric.{Dimensions, Metric}
use fullerite.Metric
use fullerite.Collector.State.{World, Collector, Payload}
use fullerite.Collector.Publish.{Sample, config_float, create_metric, make_payload}
use fullerite.Collector.Path.{get_metric_path}
use fullerite.Snmp.{udp_sample}

module _ (w : World) (depth : ℕ) (files : Str → Option (List Str)) where
  open w use {float, float.{Carrier}}

  new_metric-raw_value :
      (now : ℤ) (path : Str) (value raw stamp : Value Carrier) (precision : ℕ) (type : Str)
      (ttl : Option Carrier) (dims : Dimensions Carrier) (m : Metric Carrier)
      → Metric.new_metric float now (some path) value raw stamp precision type ttl dims ≡ ok m
      → m.raw_value ≡ raw
  unfolding Metric.new_metric
  new_metric-raw_value now path value raw stamp precision type ttl dims m h =
      elim (Result-cases (Metric.metric_timestamp float now stamp)) [
        | inr (x, e) ↦ ground arith
        | inl (t, e) ↦ elim (Result-cases (Metric.metric_value float precision value)) [
          | inr (x, q) ↦ ground arith
          | inl (v, q) ↦ elim (Result-cases (Metric.metric_dimensions float dims)) [
            | inr (x, r) ↦ ground arith
            | inl (ds, r) ↦ ground arith
          ]
        ]
      ]

  create_metric-raw_value :
      (s : Sample Carrier) (dims : Dimensions Carrier) (c d : Collector Carrier)
      (m : Metric Carrier)
      → create_metric w s dims c ≡ (ok (ok m), d)
      → m.raw_value ≡ s.raw_value
  unfolding create_metric
  create_metric-raw_value s dims c d m h =
      elim (Result-cases (get_metric_path w.float_zero c s.name s.instance')) [
        | inr (x, e) ↦ ground arith
        | inl (path, e) ↦ elim (Result-cases (config_float w (codes "interval") c).0) [
          | inr (x, q) ↦ ground arith
          | inl (i, q) ↦ elim (Result-cases (config_float w (codes "ttl_multiplier") c).0) [
            | inr (x, r) ↦ ground arith
            | inl (k, r) ↦
                new_metric-raw_value w.now path s.value s.raw_value nil s.precision s.metric_type
                  (some (w.float.mul i k)) dims m (ground arith)
          ]
        ]
      ]

  -- Whatever rate the UDP collector has computed, if `publish` can make a metric of it and a
  -- payload of that, the payload has the value 0.
  pub udp_zero :
      (name : Str) (rate : Num Carrier) (dims : Dimensions Carrier) (c d : Collector Carrier)
      (m : Metric Carrier) (p : Payload Carrier)
      → create_metric w (udp_sample w depth files name rate) dims c ≡ (ok (ok m), d)
      → make_payload d m ≡ ok p
      → p.value ≡ num (int (pos 0))
  unfolding make_payload
  udp_zero name rate dims c d m p h e =
      ground (arith, create_metric-raw_value (udp_sample w depth files name rate) dims c d m h)
