-- ===== src/Scheduler.antt =====
-- src/diamond/utils/scheduler.py: `collector_process`, the loop that runs one collector, and
-- src/diamond/utils/signals.py.
pub mod Alarms
use fullerite.Base.{
  ℕ, zero, suc, ◌+◌, String, Bool, true, false, ◌||◌, Option, none, some, List, [], ◌∷◌, ◌++◌,
  if◌then◌else◌,
}
use fullerite.Base.Int.{ℤ, pos}
use fullerite.Base.Text.{Str, codes}
use fullerite.Base.Result.{
  Error, Result, ok, err, overflow_error, value_error, type_error, zero_division, system_exit,
  sigalrm, sighup, or_raise, bind,
}
use fullerite.Base.Exec.{Exec, pure, raise, lift, gets, modify, ◌>>=◌, ◌>>◌}
use fullerite.Python.{Num, int, flt, Value, num}
use fullerite.Python.Convert.{value_float, value_int}
use fullerite.Metric.{dict}
use fullerite.Collector.State.{World, Collector, Action, config_get}
use fullerite.Collector.Config.{Framework, load_config}
use fullerite.Collector.Publish.{publish}
use fullerite.Collector.Run.{sample, is_exception}

-- The loop's variables; `alarm` is the argument of the last `signal.alarm`, zero where it is off.
pub record Schedule (F : Type 0) : Type 0 where
  pub interval : F
  pub next_window : F
  pub stagger_offset : F
  pub max_time : ℤ
  pub alarm : ℤ
  pub collector : Collector F

-- How an iteration or the loop goes on: with the next iteration, or out of the loop by `break`.
pub data Flow : Type 0 where
  again : Flow
  broken : Flow

abbrev pub refuse : Bool → Error → Result (Unit {0})
refuse true e = err e
refuse false e = ok tt

module _ (w : World) (depth : ℕ) where
  open w use {float, float.{Carrier, add, sub, mul, div, floor, lt_int, trunc}, float_zero}

  abbrev pub Scheduled : Type 0 → Type 0
  Scheduled A = Exec (Schedule Carrier) A

  -- a method of the collector
  abbrev pub on_collector : {A : Type 0} → Action w A → Scheduled A
  on_collector m s = let (r, c) = m s.collector in (r, record s { collector = c })

  -- `int(max(x, 1))`
  unfoldable pub at_least_one : Carrier → Result ℤ
  unfolding value_int
  at_least_one x = if lt_int x (pos 1) then ok (pos 1) else value_int float (num (flt x))

  -- The variables before the loop, for the time and for a random number from 0 to interval - 1. An
  -- interval that is not positive ends the process.
  unfoldable pub start : Carrier → Carrier → Collector Carrier → Result (Schedule Carrier)
  unfolding value_float
  start now random c = bind ((config_get (codes "interval") c).0) λ v.
      bind (value_float float v) λ interval.
        bind (refuse (float_zero interval || lt_int interval (pos 0)) system_exit) λ u.
          bind (or_raise (div now interval) zero_division) λ windows.
            bind (at_least_one (sub interval random)) λ max_time. ok (record {
              interval = interval;
              next_window = mul (floor windows) interval;
              stagger_offset = random;
              max_time = max_time;
              alarm = pos 0;
              collector = c;
            })

  -- The body of the `try`. The process sleeps until the window and the offset have passed; a SIGHUP
  -- may wake it before that.
  unfoldable pub body : Bool → Action w Unit → Scheduled Unit
  body woken run = do
    lift (refuse woken sighup)
    modify (λ s. record s { next_window = add s.next_window s.interval; alarm = s.max_time })
    on_collector run
    modify (λ s. record s { alarm = pos 0 })

  -- `except SIGALRMException`: the run took too long. Its child processes are killed, which changes
  -- nothing here and raises nothing.
  unfoldable pub on_alarm : Carrier → Scheduled Flow
  on_alarm nine_tenths = do
    modify (λ s. record s { stagger_offset = mul s.stagger_offset nine_tenths })
    s ← gets (λ s. s)
    max_time ← lift (at_least_one (sub s.interval s.stagger_offset))
    modify (λ s. record s { max_time = max_time })
    on_collector (
        modify
          (λ c. record c { dimensions = dict ((codes "interval", num (flt s.interval)) ∷ []) }))
    on_collector (
        publish w depth
          (sample (codes "fullerite.collection_time_exceeded") (num (int (pos 1))) (codes "GAUGE")))
    pure again

  -- A call of `load_config(self, config)` with the arguments given: any number of them but one is
  -- refused before the method runs.
  abbrev pub call_load_config : List (Framework Carrier) → Action w Unit
  unfolding load_config
  call_load_config (config ∷ []) c = elim (load_config w config c) [
    | ok c' ↦ (ok tt, c')
    | err e ↦ (err e, c)
  ]
  call_load_config arguments c = (err type_error, c)

  -- `except SIGHUPException`: `collector.load_config()`
  unfoldable pub on_hup : Scheduled Flow
  unfolding call_load_config
  on_hup = do
    modify (λ s. record s { alarm = pos 0 })
    on_collector (call_load_config [])
    pure again

  abbrev pub handle : Carrier → Result (Unit {0}) → Scheduled Flow
  handle nine_tenths (ok u) = pure again
  handle nine_tenths (err sigalrm) = on_alarm nine_tenths
  handle nine_tenths (err sighup) = on_hup
  handle nine_tenths (err e) = if is_exception e then pure broken else raise e

  -- One iteration of `while(True)`, for the float 0.9.
  unfoldable pub iterate : Carrier → Bool → Action w Unit → Scheduled Flow
  iterate nine_tenths woken run s = let (r, s') = body woken run s in handle nine_tenths r s'

  -- The iterations for a list of what happens in each.
  unfoldable pub collector_process : Carrier → List (Bool × Action w Unit) → Scheduled Flow
  collector_process nine_tenths [] = pure again
  collector_process nine_tenths ((woken, run) ∷ ticks) = do
    flow ← iterate nine_tenths woken run
    elim flow [ again ↦ collector_process nine_tenths ticks | broken ↦ pure broken ]
