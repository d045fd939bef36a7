-- ===== src/Collector/Run.antt =====
-- `Collector._run` and the typed variants of `publish`.
use fullerite.Base.{ℕ, ◌+◌, Bool, true, false, Option, none, some, if◌then◌else◌}
use fullerite.Base.Int.{ℤ}
use fullerite.Base.Text.{Str, codes}
use fullerite.Base.Dict.{lookup}
use fullerite.Base.Result.{
  Error, Result, ok, err, diamond_exception, type_error, value_error, key_error, index_error,
  overflow_error, zero_division, not_implemented, os_error, socket_error, system_exit,
  recursion_limit, sigalrm, sighup, keyboard_interrupt, import_error, unbound_local_error,
  attribute_error,
}
use fullerite.Base.Exec.{pure, raise, lift, gets, modify, ◌>>=◌, ◌>>◌}
use fullerite.Python.{Num, int, Value, nil, num}
use fullerite.Collector.State.{World, Action}
use fullerite.Collector.Derivative.{Counting, derivative}
use fullerite.Collector.Publish.{Sample, is_true, publish, report_error, flush}

-- the name of an exception's class
abbrev pub error_name : Error → Str
error_name diamond_exception = codes "DiamondException"
error_name type_error = codes "TypeError"
error_name value_error = codes "ValueError"
error_name key_error = codes "KeyError"
error_name index_error = codes "IndexError"
error_name overflow_error = codes "OverflowError"
error_name zero_division = codes "ZeroDivisionError"
error_name not_implemented = codes "NotImplementedError"
error_name os_error = codes "OSError"
error_name socket_error = codes "error"
error_name system_exit = codes "SystemExit"
error_name recursion_limit = codes "RuntimeError"
error_name sigalrm = codes "SIGALRMException"
error_name sighup = codes "SIGHUPException"
error_name keyboard_interrupt = codes "KeyboardInterrupt"
error_name import_error = codes "ImportError"
error_name unbound_local_error = codes "UnboundLocalError"
error_name attribute_error = codes "AttributeError"

-- what `except Exception` catches
abbrev pub is_exception : Error → Bool
is_exception system_exit = false
is_exception keyboard_interrupt = false
is_exception e = true

abbrev pub sample : {F : Type 0} → Str → Value F → Str → Sample F
sample name value type = record {
  name = name;
  value = value;
  raw_value = nil;
  precision = 0;
  metric_type = type;
  instance' = none;
}

module _ (w : World) (depth : ℕ) where
  open w use {float, float.{Carrier}}

  unfoldable pub publish_gauge : Str → Value Carrier → ℕ → Option Str → Action w Unit
  publish_gauge name value precision instance' =
      publish w depth (record (sample name value (codes "GAUGE")) {
        precision = precision;
        instance' = instance';
      })

  unfoldable pub publish_cumulative_counter : Str → Value Carrier → ℕ → Option Str → Action w Unit
  publish_cumulative_counter name value precision instance' =
      publish w depth (record (sample name value (codes "CUMCOUNTER")) {
        precision = precision;
        instance' = instance';
      })

  -- The rate is the value, and the counter itself the raw value.
  unfoldable pub publish_counter : Str → Num Carrier → ℕ → Counting Carrier → Action w Unit
  publish_counter name value precision k = do
    rate ← derivative w name value k
    publish w depth (record (sample name (num rate) (codes "COUNTER")) {
      raw_value = num value;
      precision = precision;
      instance' = k.instance';
    })

  -- `if 'measure_collector_time' in self.config` and what follows it
  unfoldable pub publish_time : ℤ → Action w Unit
  publish_time elapsed = do
    c ← gets (λ c. c)
    elim (lookup (codes "measure_collector_time") c.config) [
      | none ↦ pure tt
      | some v ↦
          if is_true w v
          then publish w depth
              (sample (codes "collector_time_ms") (num (int elapsed)) (codes "GAUGE"))
          else pure tt
    ]

  -- the body of the `try`, for the subclass's `collect` and the run time in milliseconds
  unfoldable pub collect_and_time : Action w Unit → ℤ → Action w Unit
  collect_and_time collect elapsed = do
    modify (λ c. record c { default_dimensions = none })
    collect
    publish_time elapsed

  -- `except Exception as e: report_error(...); raise e`
  abbrev pub report_and_raise : Error → Action w Unit
  report_and_raise e =
      if is_exception e then (do report_error w depth (some (error_name e)); raise e) else raise e

  -- the `finally` clause
  unfoldable pub finish_run : Action w Unit
  finish_run = do
    flush w depth
    modify (λ c. record c {
      default_dimensions = none;
      handlers_flushed = c.handlers_flushed + c.handlers;
    })

  -- An exception of the `finally` clause takes the place of the other.
  abbrev pub finally : Result (Unit {0}) → Action w Unit
  finally r = finish_run >>= λ _. lift r

  abbrev pub handled : Result (Unit {0}) → Action w Unit
  handled (ok u) = pure u
  handled (err e) = report_and_raise e

  unfoldable pub run : Action w Unit → ℤ → Action w Unit
  run collect elapsed c =
      let (r, c1) = collect_and_time collect elapsed c in
      let (r', c2) = handled r c1 in finally r' c2
