-- ===== src/Collector/Delivery.antt =====
-- What `flush` of src/diamond/collector.py does to the buffer and to the network when its error
-- reports find room in the buffer.
use fullerite.Base.{
  ℕ, zero, suc, ◌+◌, ◌≤◌, ◌<◌, ◌≡◌, ap, ◌∙◌, ◌⊎◌, inl, inr, refl, true, false, Option, some, [],
  ◌∷◌, ◌++◌, length, arith,
}
use fullerite.Base.Text.{Str, codes}
use fullerite.Base.Dict.{lookup}
use fullerite.Base.Result.{Result, Result-cases, ok}
use fullerite.Python.{str}
use fullerite.Python.Convert.{value_int}
use fullerite.Metric.{dict}
use fullerite.Collector.State.{World, Collector, Action}
use fullerite.Collector.Flush.{
  retry_count, connect, ensure_connected, send, after_send, attempt, attempts, flush_with,
}
use fullerite.Collector.Publish.{report_error, flush}
use fullerite.Collector.Quiet.{Total, Tame, HasLimit, publish-Tame}

module _ {F : Type 0} where
  -- The buffer, the configuration and the record of what was sent are as before.
  record Kept (b c : Collector F) : Type 0 where
    sends : c.sends ≡ b.sends
    sent : c.sent ≡ b.sent
    payload : c.payload ≡ b.payload
    config : c.config ≡ b.config

  -- At most k attempts were made to send s, at most one succeeded, and at most r reports were put
  -- into the buffer.
  pub record Delivered (k r : ℕ) (s : Str) (b : Collector F) (p : Result Unit × Collector F)
      : Type 0 where
    pub total : Total p.0
    pub sends : p.1.sends ≤ b.sends + k
    pub room : length p.1.payload ≤ length b.payload + r
    pub sent : (p.1.sent ≡ b.sent) ⊎ (p.1.sent ≡ b.sent ++ s ∷ [])
    pub config : p.1.config ≡ b.config

module _ (w : World) where
  open w use {float, float.{Carrier}, dumps, send_ok}

  report_error-Tame :
      (depth n : ℕ) (e : Str) (c : Collector Carrier)
      → HasLimit w n c
      → length c.payload + 1 < n
      → Tame c (report_error w (suc depth) (some e) c)
  unfolding report_error
  report_error-Tame depth n e c h lt =
      let d = (codes "error_type", str e) ∷ [] in
      let marked = record c { dimensions = dict d } in
      ground (arith, publish-Tame w (report_error w depth) n d marked refl h lt)

  ensure_connected-Kept :
      (c : Collector Carrier) → Kept c (ensure_connected w c).1 × Total (ensure_connected w c).0
  unfolding ensure_connected connect value_int
  ensure_connected-Kept c = ground arith

  after_send_done :
      (report : Option Str → Action w Unit) (retry : Action w Unit) (c : Collector Carrier)
      → after_send w report retry true c ≡ (ok tt, c)
  unfolding after_send
  after_send_done report retry c = refl

  module _ (depth n k : ℕ) (s : Str) (retry : Action w Unit)
      (ih : (d : Collector Carrier)
        → HasLimit w n d
        → length d.payload + k < n
        → Delivered k k s d (retry d)) where
    after_send-Delivered :
        (c : Collector Carrier)
        → HasLimit w n c
        → length c.payload + suc k < n
        → Delivered k (suc k) s c (after_send w (report_error w (suc depth)) retry false c)
    unfolding after_send
    after_send-Delivered c h lt =
        let (quiet, total) = report_error-Tame depth n (codes "error") c h (omega arith) in
        let report = report_error w (suc depth) (some (codes "error")) in
        elim (Result-cases (report c).0) [
          | inl (u, e) ↦ ground (
            arith,
            ih (record (report c).1 { reconnect = true })
                (ap (lookup (codes "max_buffer_size")) quiet.config ∙ h) (omega arith),
          )
          | inr (x, e) ↦ ground arith
        ]

    attempt-Delivered :
        (c : Collector Carrier)
        → HasLimit w n c
        → length c.payload + suc k < n
        → Delivered (suc k) (suc k) s c (attempt w (report_error w (suc depth)) s retry c)
    unfolding attempt send
    attempt-Delivered c h lt =
        let (kept, total) = ensure_connected-Kept c in
        let d = (ensure_connected w c).1 in
        let failed = record d { sends = d.sends + 1 } in
        let limit : HasLimit w n failed = ap (lookup (codes "max_buffer_size")) kept.config ∙ h in
        let size : length failed.payload ≡ length c.payload = ap length kept.payload in
        elim (Result-cases (ensure_connected w c).0) [
          | inl (u, e) ↦ ground (
            arith,
            after_send_done (report_error w (suc depth)) retry
                (record d { sends = d.sends + 1; sent = d.sent ++ s ∷ [] }),
            after_send-Delivered failed limit (omega arith),
          )
          | inr (x, e) ↦ ground arith
        ]

  pub attempts-Delivered :
      (depth n k : ℕ) (s : Str) (c : Collector Carrier)
      → HasLimit w n c
      → length c.payload + k < n
      → Delivered k k s c (attempts w (report_error w (suc depth)) k s c)
  unfolding attempts
  attempts-Delivered depth n zero s c h lt = ground arith
  attempts-Delivered depth n (suc k) s c h lt =
      attempt-Delivered depth n k s (attempts w (report_error w (suc depth)) k s)
        (attempts-Delivered depth n k s) c h lt

  -- With a plain integer above 3 as `max_buffer_size`, and a buffer that `json.dumps` accepts,
  -- `flush` does not meet the recursion limit however deep it may go; it makes at most three
  -- attempts, sends the buffer's text, ended by a newline, at most once, leaves at most three
  -- payloads in the buffer, and keeps the configuration.
  pub flush_once :
      (depth n : ℕ) (s : Str) (c : Collector Carrier)
      → HasLimit w n c
      → retry_count < n
      → dumps c.payload ≡ some s
      → Delivered 3 3 (s ++ 10 ∷ []) (record c { payload = [] }) (flush w (suc depth) c)
  unfolding flush flush_with
  flush_once depth n s c h lt e = ground (
    arith,
    attempts-Delivered depth n 3 (s ++ 10 ∷ []) (record c { payload = [] }) h (omega arith),
  )
