-- ===== src/Tests/Processes.antt =====
-- Instances of the theorems on the configuration, the runs and the processes.
use fullerite.Base.{ℕ, ◌≡◌, refl, Bool, true, false, some, List, [], ◌∷◌, arith}
use fullerite.Base.Int.{pos}
use fullerite.Base.Text.{codes, str_mem, NoRepeat, split}
use fullerite.Base.Dict.{Dict, lookup, insert, lookup_last}
use fullerite.Base.Result.{Error, Result, ok, err, sigalrm, key_error}
use fullerite.Base.Exec.{pure, raise}
use fullerite.Python.Convert.{value_float, value_int}
use fullerite.Python.Arith.{to_float}
use fullerite.Python.{Value, num, str, pattern, int}
use fullerite.Collector.State.{Collector, Action}
use fullerite.Collector.Config.{Framework, merge_config}
use fullerite.Collector.Reading.{merge_config-lookup}
use fullerite.Collector.Run.{run}
use fullerite.Collector.Outcome.{run-err}
use fullerite.Scheduler.{Schedule, start, at_least_one, body, iterate, collector_process}
use fullerite.Scheduler.Alarms.{
  Armed, Truncates, collector_process-max_time, collector_process-advance,
}
use fullerite.Server.{
  Site, Child, ServerConfig, round, launch, stop_all, terminate, start_all, collector_classes,
  initialize_collector, child_names,
}
use fullerite.Server.Rounds.{round-mem}
use fullerite.Server.Unique.{round-NoRepeat}
use fullerite.Tests.Worlds.{world, collector_with}

abbrev collector : Collector ℕ
collector = collector_with 300 []

whole-Truncates : Truncates world 1 9
whole-Truncates x n h e = ground arith

abbrev schedule : Schedule ℕ
schedule = record {
  interval = 10;
  next_window = 120;
  stagger_offset = 4;
  max_time = pos 6;
  alarm = pos 0;
  collector = collector;
}

-- a run that is interrupted by the alarm, and one that is not
abbrev ticks : List (Bool × Action world Unit)
ticks = (false, raise sigalrm) ∷ (false, pure tt) ∷ []

collector_process-max_time_example : Armed world 1 9 (collector_process world 1 9 ticks schedule).1
unfolding start at_least_one lookup value_float value_int to_float
collector_process-max_time_example =
    collector_process-max_time world 1 9 whole-Truncates 125 4 collector schedule ticks refl

collector_process-advance_example :
    ((collector_process world 1 9 ((false, pure tt) ∷ []) schedule).1.next_window ≡ 130)
    × ((collector_process world 1 9 ((false, pure tt) ∷ []) schedule).1.interval ≡ 10)
unfolding collector_process iterate body
collector_process-advance_example =
    collector_process-advance world 1 9 ((false, pure tt) ∷ []) schedule
      (collector_process world 1 9 ((false, pure tt) ∷ []) schedule).1 refl

run-err_example : (x : Error) × ((run world 1 (raise key_error) (pos 5) collector).0 ≡ err x)
run-err_example = run-err world 1 (raise key_error) (pos 5) collector key_error refl

abbrev site : Site
site = record {
  Class = ℕ;
  Instance = ℕ;
  Settings = ℕ;
  class_name = λ c. codes "CPUCollector";
  load_config = λ s. ok 0;
  construct = λ c name s. ok c;
}

abbrev server_config : ServerConfig
server_config = record {
  collectors = codes "CPUCollector a" ∷ codes "CPUCollector b" ∷ [];
  config_path = codes "/etc/fullerite";
}

abbrev old_child : Child ℕ
old_child = record { name = codes "CPUCollector b"; instance' = 7 }

abbrev gone_child : Child ℕ
gone_child = record { name = codes "DiskCollector"; instance' = 8 }

abbrev new_child : Child ℕ
new_child = record { name = codes "CPUCollector a"; instance' = 1 }

round-NoRepeat_example : NoRepeat (child_names (old_child ∷ new_child ∷ []))
unfolding round collector_classes launch initialize_collector insert lookup split stop_all terminate
    start_all
round-NoRepeat_example =
    round-NoRepeat site server_config (1 ∷ []) (old_child ∷ gone_child ∷ [])
      (old_child ∷ new_child ∷ []) refl (refl, (refl, tt))

round-mem_example :
    str_mem (codes "CPUCollector a") (child_names (old_child ∷ new_child ∷ [])) ≡ true
unfolding round collector_classes launch initialize_collector insert lookup split stop_all terminate
    start_all
round-mem_example =
    round-mem site server_config (1 ∷ []) (old_child ∷ gone_child ∷ []) (old_child ∷ new_child ∷ [])
      (codes "CPUCollector a") refl

-- a file's settings: a white list and a size given as text
abbrev own_settings : Dict (Value ℕ)
own_settings =
    (codes "metrics_whitelist", str (codes "cpu"))
    ∷ (codes "max_buffer_size", num (int (pos 20)))
    ∷ []

abbrev processed : Dict (Value ℕ)
processed =
    (codes "metrics_whitelist", pattern (codes "cpu"))
    ∷ (codes "max_buffer_size", num (int (pos 20)))
    ∷ []

abbrev port : Value ℕ
port = num (int (pos 19_191))

abbrev sixty : Value ℕ
sixty = num (int (pos 60))

-- a file's own interval, and that of the framework's defaults
abbrev own_interval : Dict (Value ℕ)
own_interval = (codes "interval", num (int (pos 30))) ∷ []

abbrev default_interval : Dict (Value ℕ)
default_interval = (codes "interval", num (int (pos 90))) ∷ []

abbrev or_empty : Result (Dict (Value ℕ)) → Dict (Value ℕ)
or_empty (ok d) = d
or_empty (err e) = []

abbrev framework : Framework ℕ
framework = record {
  fullerite_port = some port;
  interval = some sixty;
  default_config = some default_interval;
}

merge_config-lookup_example :
    lookup (codes "interval") (or_empty (merge_config world framework own_interval []))
    ≡ some (num (int (pos 30)))
unfolding merge_config lookup_last lookup
merge_config-lookup_example =
    merge_config-lookup world (codes "interval") port sixty default_interval own_interval []
      (or_empty (merge_config world framework own_interval [])) refl
