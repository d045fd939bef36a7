-- ===== src/Collector/Outcome.antt =====
-- What `_run` of src/diamond/collector.py returns and raises.
use fullerite.Base.{◌≡◌, sym, ap, ◌∙◌, inl, inr, ℕ, Bool-cases, none, some, arith}
use fullerite.Base.Int.{ℤ}
use fullerite.Base.Result.{Error, Result, Result-cases, ok, err}
use fullerite.Collector.State.{World, Collector, Action}
use fullerite.Collector.Publish.{report_error, flush}
use fullerite.Collector.Run.{
  is_exception, error_name, collect_and_time, report_and_raise, finish_run, finally, handled, run,
}

module _ (w : World) (depth : ℕ) where
  open w use {float, float.{Carrier}}

  report_and_raise-err :
      (e : Error) (c : Collector Carrier) → (x : Error) × ((report_and_raise w depth e c).0 ≡ err x)
  report_and_raise-err e c = elim (Bool-cases (is_exception e)) [
    | inl caught ↦ elim (Result-cases (report_error w depth (some (error_name e)) c).0) [
      | inl (u, q) ↦ (e, ground arith)
      | inr (y, q) ↦ (y, ground arith)
    ]
    | inr missed ↦ (e, ground arith)
  ]

  finally-err :
      (e : Error) (c : Collector Carrier) → (x : Error) × ((finally w depth (err e) c).0 ≡ err x)
  finally-err e c = elim (Result-cases (finish_run w depth c).0) [
    | inl (u, q) ↦ (e, ground arith)
    | inr (y, q) ↦ (y, ground arith)
  ]

  -- the collector when `collect` is called
  abbrev pub fresh : Collector Carrier → Collector Carrier
  fresh c = record c { default_dimensions = none }

  -- An exception of `collect` never gets lost: whatever the error report and the flush do, `_run`
  -- raises one.
  pub run-err :
      (collect : Action w Unit) (elapsed : ℤ) (c : Collector Carrier) (e : Error)
      → (collect (fresh c)).0 ≡ err e
      → (x : Error) × ((run w depth collect elapsed c).0 ≡ err x)
  unfolding run collect_and_time
  run-err collect elapsed c e h =
      let after = collect_and_time w depth collect elapsed c in
      let (y, raised) = report_and_raise-err e after.1 in
      let (x, last) = finally-err y (report_and_raise w depth e after.1).1 in
      (x, ground (arith, raised, last))

  finally-reset :
      (r : Result (Unit {0})) (c d : Collector Carrier)
      → finally w depth r c ≡ (ok tt, d)
      → d.default_dimensions ≡ none
  unfolding finish_run
  finally-reset r c d h = elim (Result-cases (flush w depth c).0) [
    | inl (u, q) ↦ ground arith
    | inr (y, q) ↦ ground arith
  ]

  -- If `_run` returns, `collect` returned, and the default dimensions are reset.
  pub run-ok :
      (collect : Action w Unit) (elapsed : ℤ) (c d : Collector Carrier)
      → run w depth collect elapsed c ≡ (ok tt, d)
      → ((collect (fresh c)).0 ≡ ok tt) × (d.default_dimensions ≡ none)
  unfolding run
  run-ok collect elapsed c d h =
      let after = collect_and_time w depth collect elapsed c in
      let next = handled w depth after.0 after.1 in
      let reset = finally-reset next.0 next.1 d h in
      elim (Result-cases (collect (fresh c)).0) [
        | inl (tt, e) ↦ (e, reset)
        | inr (x, e) ↦
            let (y, failed) = run-err collect elapsed c x e in
            let clash : ok tt ≡ err y = sym (ap (λ p. p.0) h) ∙ failed in cc
      ]
