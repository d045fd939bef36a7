-- ===== src/Tests/Collectors.antt =====
-- Instances of the theorems on collector.py.
use fullerite.Base.{◌∷◌, ℕ, ◌≡◌, ◌⊎◌, refl, Bool, false, none, some, List, [], arith}
use fullerite.Base.Int.{pos}
use fullerite.Base.Text.{Str, codes, str_eq}
use fullerite.Base.Dict.{lookup, insert}
use fullerite.Base.Result.{ok}
use fullerite.Python.{Num, int, long, flt, num, nil, str}
use fullerite.Metric.{Metric}
use fullerite.Collector.State.{Collector}
use fullerite.Collector.Path.{get_metric_path}
use fullerite.Collector.Derivative.{default_counting, change, rate, derivative}
use fullerite.Collector.Publish.{make_payload, payload_dimensions, flush}
use fullerite.Collector.Delivery.{Delivered, flush_once}
use fullerite.Collector.Names.{Named, make_payload-get_metric_path, make_payload_suffix}
use fullerite.Collector.Rates.{change_rollover, rate_nonneg, derivative-last_values}
use fullerite.Tests.Worlds.{world, broken_world, collector_with}

abbrev collector : Collector ℕ
collector = collector_with 300 []

abbrev metric : List ℕ → Metric ℕ
metric path = record {
  path = path;
  value = num (int (pos 7));
  raw_value = nil;
  timestamp = pos 1_000;
  precision = 0;
  metric_type = codes "GAUGE";
  ttl = some 20;
  dimensions = none;
}

flush_once_example :
    Delivered 3 3 (10 ∷ []) (record collector { payload = [] }) (flush broken_world 1 collector)
unfolding lookup
flush_once_example = flush_once broken_world 0 300 [] collector refl (omega arith) refl

collector-Named : Named (codes "servers") (codes "cpu") (str []) collector
unfolding lookup
collector-Named = record {
  has_prefix = refl;
  has_path = refl;
  has_path_suffix = refl;
  prefix_word = omega arith;
  path_word = omega arith;
  path_some = λ e. cc;
}

suffixed-Named :
    Named (codes "servers") (codes "cpu") (str (codes "prod")) (collector_with 300 (codes "prod"))
unfolding lookup
suffixed-Named = record {
  has_prefix = refl;
  has_path = refl;
  has_path_suffix = refl;
  prefix_word = omega arith;
  path_word = omega arith;
  path_some = λ e. cc;
}

make_payload-get_metric_path_example :
    make_payload collector (metric (codes "servers.cpu.total.idle"))
    ≡ ok (record {
      name = codes "total.idle";
      value = num (int (pos 7));
      type = codes "GAUGE";
      dimensions =
          payload_dimensions (codes "servers") (codes "cpu") (codes "CPUCollector") none none;
    })
unfolding get_metric_path
make_payload-get_metric_path_example =
    make_payload-get_metric_path world.float_zero (codes "servers") (codes "cpu")
      (codes "total.idle") collector (metric (codes "servers.cpu.total.idle")) collector-Named refl

make_payload_suffix_example :
    make_payload (collector_with 300 (codes "prod")) (metric (codes "servers.prod.cpu.total"))
    ≡ ok (record {
      name = codes "cpu.total";
      value = num (int (pos 7));
      type = codes "GAUGE";
      dimensions =
          payload_dimensions (codes "servers") (codes "prod") (codes "CPUCollector") none none;
    })
unfolding get_metric_path
make_payload_suffix_example =
    make_payload_suffix world.float_zero (codes "servers") (codes "prod") (codes "cpu")
      (codes "total") (collector_with 300 (codes "prod")) (metric (codes "servers.prod.cpu.total"))
      suffixed-Named (λ e. cc) (omega arith) refl

-- A 64-bit counter that went from 2^64 - 3 by 10 is counted as having gone by 9.
change_rollover_example :
    change world
      (long (pos 18_446_744_073_709_551_615))
      (int (pos 18_446_744_073_709_551_613))
      (int (pos 7))
    ≡ ok (long (pos 9))
change_rollover_example =
    change_rollover world 18_446_744_073_709_551_616 18_446_744_073_709_551_613 10 (omega arith)
      (omega arith)

rate_nonneg_example :
    (◌≡◌ {A = Num ℕ} (flt 6) (int (pos 0)))
    ⊎ ((q : ℕ) × (◌≡◌ {A = Num ℕ} (flt 6) (flt q)) × (world.float.lt_int q (pos 0) ≡ false))
unfolding rate
rate_nonneg_example = rate_nonneg world (int (pos 60)) (int (pos 10)) (flt 6) refl

derivative-last_values_example :
    lookup {V = Num ℕ}
      (codes "servers.cpu.user")
      (insert (codes "servers.cpu.user") (int (pos 5)) [])
    ≡ some (int (pos 5))
unfolding derivative get_metric_path lookup insert
derivative-last_values_example =
    derivative-last_values world (codes "user") (codes "servers.cpu.user")
      (codes "servers.cpu.user") (int (pos 5)) (int (pos 0)) default_counting collector
      (record collector { last_values = insert (codes "servers.cpu.user") (int (pos 5)) [] }) refl
      refl

-- A program that is in /usr/bin alone is found there.
abbrev is_sudo : Str → Bool
is_sudo file = str_eq file (codes "/usr/bin/sudo")
