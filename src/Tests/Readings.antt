-- ===== src/Tests/Readings.antt =====
-- Instances of the theorems on the collectors that read /proc.
use fullerite.Base.{false, ℕ, ◌≡◌, refl, Option, none, some, true, List, [], ◌∷◌}
use fullerite.Base.Int.{pos, ◌+ℤ◌}
use fullerite.Base.Text.{Str, codes}
use fullerite.Base.Dict.{Dict, lookup, insert, update}
use fullerite.Base.Result.{ok}
use fullerite.Python.{Value, int, flt, num, str}
use fullerite.Python.Convert.{value_float}
use fullerite.Python.Arith.{to_float}
use fullerite.Metric.{
  no_dimensions, Metric, metric_value, metric_timestamp, metric_dimensions, new_metric,
}
use fullerite.Collector.State.{Collector}
use fullerite.Collector.Path.{get_metric_path}
use fullerite.Collector.Publish.{create_metric, make_payload, payload_dimensions}
use fullerite.Snmp.{add_lines}
use fullerite.Snmp.Tables.{add_lines-columns}
use fullerite.Snmp.Sent.{udp_zero}
use fullerite.Rpc.Layouts.{Layout}
use fullerite.Cpu.{fill_columns, add_sum, line_stats, add_line, read_lines, cpu_metrics}
use fullerite.Cpu.Normalize.{cpu_metrics-normalize}
use fullerite.Tests.Worlds.{world, collector_with}

abbrev collector : Collector ℕ
collector = collector_with 300 []

-- no file can be read
abbrev no_files : Str → Option (List Str)
no_files path = none

add_lines-columns_example :
    add_lines world 1 no_files
      (codes "Udp")
      (codes "Ip: 1" ∷ codes "Udp: InErrors NoPorts" ∷ codes "Udp: 5 7" ∷ [])
      []
      collector
    ≡ (ok ((codes "InErrors", codes "5") ∷ (codes "NoPorts", codes "7") ∷ []), collector)
unfolding update insert
add_lines-columns_example =
    add_lines-columns world 1 no_files (codes "Udp") (codes "Udp: InErrors NoPorts")
      (codes "Udp: 5 7") (codes "Ip: 1" ∷ []) [] [] collector ((refl, refl), tt) refl refl refl

abbrev udp_metric : Metric ℕ
udp_metric = record {
  path = codes "servers.cpu.InErrors";
  value = num (flt 42);
  raw_value = num (int (pos 0));
  timestamp = pos 1_000;
  precision = 0;
  metric_type = codes "GAUGE";
  ttl = some 20;
  dimensions = none;
}

udp_zero_example : ◌≡◌ {A = Value ℕ} (num (int (pos 0))) (num (int (pos 0)))
unfolding create_metric get_metric_path new_metric metric_value metric_timestamp metric_dimensions
    value_float to_float make_payload
udp_zero_example =
    udp_zero world 1 no_files (codes "InErrors") (flt 42) no_dimensions collector collector
      udp_metric
      (record {
        name = codes "InErrors";
        value = num (int (pos 0));
        type = codes "GAUGE";
        dimensions =
            payload_dimensions (codes "servers") (codes "cpu") (codes "CPUCollector") none none;
      })
      refl refl

abbrev small : Layout
small = record {
  kind = codes "net";
  counted = true;
  names = codes "packets" ∷ [];
  optional = codes "errors" ∷ [];
}

abbrev cpu_line : Str
cpu_line = codes "cpu  4 2 3 9 5 6 7"

abbrev cpu_stats : Dict (Value ℕ)
cpu_stats =
    (codes "user", str (codes "4"))
    ∷ (codes "nice", str (codes "2"))
    ∷ (codes "system", str (codes "3"))
    ∷ (codes "idle", str (codes "9"))
    ∷ (codes "iowait", str (codes "5"))
    ∷ (codes "irq", str (codes "6"))
    ∷ (codes "softirq", str (codes "7"))
    ∷ (codes "user_mode", num (flt 6))
    ∷ (codes "irq_softirq", num (flt 13))
    ∷ []

cpu_metrics-normalize_example :
    cpu_metrics world true (pos 0) ((codes "cpu.total", cpu_stats) ∷ []) []
    ≡ cpu_metrics world false (pos 0) ((codes "cpu.total", cpu_stats) ∷ []) []
unfolding read_lines add_line line_stats add_sum fill_columns lookup insert value_float ◌+ℤ◌
cpu_metrics-normalize_example =
    cpu_metrics-normalize world true (str (codes "True")) (cpu_line ∷ []) (pos 0)
      ((codes "cpu.total", cpu_stats) ∷ []) [] refl
