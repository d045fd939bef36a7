-- ===== src/Scheduler/Alarms.antt =====
-- The allowed run time, the windows and the signals of src/diamond/utils/scheduler.py.
use fullerite.Base.{
  ℕ, zero, suc, ◌≡◌, refl, ◌∙◌, ◌⊎◌, inl, inr, Bool, true, false, some, List, [], ◌∷◌, length,
  arith,
}
use mathlib.Core.Path.{ap₂}
use fullerite.Base.Int.{ℤ, pos, ◌≤ℤ◌}
use fullerite.Base.Result.{Result-cases, ok, err, sighup}
use fullerite.Collector.State.{World, Collector, Action}
use fullerite.Scheduler.{
  Schedule, again, broken, at_least_one, start, body, on_alarm, on_hup, iterate, collector_process,
}

module _ (w : World) (depth : ℕ) (nine_tenths : w.float.Carrier) where
  open w use {float, float.{Carrier, add, sub, mul, lt_int, trunc}}

  -- `int(x)` of a float that is not below 1 is at least 1.
  abbrev pub Truncates : Type 0
  Truncates = (x : Carrier) (n : ℤ) → lt_int x (pos 1) ≡ false → trunc x ≡ some n → pos 1 ≤ℤ n

  -- `signal.alarm(max_time)` sets an alarm, which `signal.alarm(0)` would not.
  abbrev pub Armed : Schedule Carrier → Type 0
  Armed s = pos 1 ≤ℤ s.max_time

  at_least_one-le : Truncates → (x : Carrier) (n : ℤ) → at_least_one w depth x ≡ ok n → pos 1 ≤ℤ n
  unfolding at_least_one
  at_least_one-le h x n e = ground (arith, h x n)

  body-max_time :
      (woken : Bool) (run : Action w Unit) (s : Schedule Carrier)
      → (body w depth woken run s).1.max_time ≡ s.max_time
  unfolding body
  body-max_time woken run s = ground arith

  on_alarm-Armed :
      Truncates → (s : Schedule Carrier) → Armed s → Armed (on_alarm w depth nine_tenths s).1
  unfolding on_alarm
  on_alarm-Armed h s a =
      let left = sub s.interval (mul s.stagger_offset nine_tenths) in
      elim (Result-cases (at_least_one w depth left)) [
        | inl (n, e) ↦ ground (arith, at_least_one-le h left n e)
        | inr (x, e) ↦ ground arith
      ]

  iterate-Armed :
      Truncates
      → (woken : Bool) (run : Action w Unit) (s : Schedule Carrier) → Armed s
      → Armed (iterate w depth nine_tenths woken run s).1
  unfolding iterate on_hup
  iterate-Armed h woken run s a = grind (arith, on_alarm-Armed h, body-max_time woken run s)

  collector_process-Armed :
      Truncates
      → (ticks : List (Bool × Action w Unit)) (s : Schedule Carrier) → Armed s
      → Armed (collector_process w depth nine_tenths ticks s).1
  unfolding collector_process
  collector_process-Armed h [] s a = a
  collector_process-Armed h ((woken, run) ∷ ticks) s a =
      let next = iterate w depth nine_tenths woken run s in
      ground (
        arith,
        iterate-Armed h woken run s a,
        collector_process-Armed h ticks next.1 (iterate-Armed h woken run s a),
      )

  start-Armed :
      Truncates
      → (now random : Carrier) (c : Collector Carrier) (s : Schedule Carrier)
      → start w depth now random c ≡ ok s
      → Armed s
  unfolding start
  start-Armed h now random c s e =
      elim (Result-cases (at_least_one w depth (sub s.interval random))) [
        | inl (n, p) ↦ ground (arith, at_least_one-le h (sub s.interval random) n p)
        | inr (x, p) ↦ ground arith
      ]

  -- Whatever the runs do, and however the loop ends, the time allowed for a run stays at least one
  -- second, if the loop could start and `int` of a float that is not below 1 is at least 1.
  pub collector_process-max_time :
      Truncates
      → (now random : Carrier) (c : Collector Carrier) (s : Schedule Carrier)
        (ticks : List (Bool × Action w Unit))
      → start w depth now random c ≡ ok s
      → Armed (collector_process w depth nine_tenths ticks s).1
  collector_process-max_time h now random c s ticks e =
      collector_process-Armed h ticks s (start-Armed h now random c s e)

  -- the window after k more iterations
  abbrev pub advance : Carrier → ℕ → Carrier → Carrier
  advance interval zero window = window
  advance interval (suc k) window = advance interval k (add window interval)

  record Moved (s t : Schedule Carrier) : Type 0 where
    window : t.next_window ≡ add s.next_window s.interval
    interval : t.interval ≡ s.interval

  on_alarm-windows :
      (s : Schedule Carrier)
      → ((on_alarm w depth nine_tenths s).1.next_window ≡ s.next_window)
        × ((on_alarm w depth nine_tenths s).1.interval ≡ s.interval)
  unfolding on_alarm
  on_alarm-windows s = ground arith

  body-Moved :
      (woken : Bool) (run : Action w Unit) (s : Schedule Carrier)
      → ((body w depth woken run s).0 ≡ err sighup) ⊎ Moved s (body w depth woken run s).1
  unfolding body
  body-Moved true run s = inl refl
  body-Moved false run s = inr (ground arith)

  iterate-Moved :
      (woken : Bool) (run : Action w Unit) (s t : Schedule Carrier)
      → iterate w depth nine_tenths woken run s ≡ (ok again, t)
      → Moved s t
  unfolding iterate on_hup
  iterate-Moved woken run s t h =
      let after = (body w depth woken run s).1 in
      elim (body-Moved woken run s) [
        | inl hup ↦ ground arith
        | inr moved ↦ ground (arith, on_alarm-windows after)
      ]

  -- As long as the loop goes on, each iteration has moved the window by one interval, also one
  -- that was interrupted.
  pub collector_process-advance :
      (ticks : List (Bool × Action w Unit)) (s t : Schedule Carrier)
      → collector_process w depth nine_tenths ticks s ≡ (ok again, t)
      → (t.next_window ≡ advance s.interval (length ticks) s.next_window)
        × (t.interval ≡ s.interval)
  unfolding collector_process
  collector_process-advance [] s t h = ground arith
  collector_process-advance ((woken, run) ∷ ticks) s t h =
      let next = iterate w depth nine_tenths woken run s in
      elim (Result-cases next.0) [
        | inr (x, e) ↦ ground arith
        | inl (broken, e) ↦ ground arith
        | inl (again, e) ↦
            let moved = iterate-Moved woken run s next.1 (ground arith) in
            let (p, q) = collector_process-advance ticks next.1 t (ground arith) in
            (
              p ∙ ap₂ (λ i x. advance i (length ticks) x) moved.interval moved.window,
              q ∙ moved.interval,
            )
      ]
