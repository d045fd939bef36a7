-- ===== src/Collector/Flush.antt =====
-- `Collector._connect` and `Collector.flush`. Whatever logs an error is given the report that
-- `CollectorErrorHandler` makes of it; the report's argument is the name of the exception being
-- handled, if there is one.
use fullerite.Base.{
  ℕ, zero, suc, ◌+◌, Bool, true, false, ◌||◌, not, Option, none, some, [], ◌∷◌, ◌++◌, if◌then◌else◌,
}
use fullerite.Base.Text.{Str, codes}
use fullerite.Base.Dict.{lookup}
use fullerite.Base.Result.{Error, ok, err, type_error, system_exit}
use fullerite.Base.Exec.{pure, modify, ◌>>=◌, ◌>>◌}
use fullerite.Python.Convert.{value_int}
use fullerite.Collector.State.{World, Collector, Action}

-- `FULLERITE_RETRY_COUNT`
abbrev pub retry_count : ℕ
retry_count = 3

module _ (w : World) where
  open w use {float, float.{Carrier}, dumps, send_ok, connect_ok}

  -- The port is converted where it is configured.
  abbrev port_error : Collector Carrier → Option Error
  unfolding lookup value_int
  port_error c = elim (lookup (codes "fulleritePort") c.config) [
    | none ↦ none
    | some port ↦ elim (value_int float port) [ ok p ↦ none | err e ↦ some e ]
  ]

  -- `_connect`, with the assignments that `flush` makes after it. A refused connection ends the
  -- process.
  unfoldable pub connect : Action w Unit
  unfolding port_error
  connect c =
      let next = record c { connects = c.connects + 1 } in
      elim (port_error c) [
        | some e ↦ (err e, c)
        | none ↦
            if connect_ok c.connects
            then (ok tt, record next { connected = true; reconnect = false })
            else (err system_exit, next)
      ]

  -- `self._socket.sendall(payloadStr)`: false stands for its socket.error.
  unfoldable pub send : Str → Action w Bool
  send s c =
      let next = record c { sends = c.sends + 1 } in
      if send_ok c.sends
      then (ok true, record next { sent = c.sent ++ s ∷ [] })
      else (ok false, next)

  -- `if not self._socket or self._reconnect is True`
  unfoldable pub ensure_connected : Action w Unit
  ensure_connected c = if not c.connected || c.reconnect then connect c else (ok tt, c)

  module _ (report : Option Str → Action w Unit) where
    -- What follows `sendall`: `break`, or the handler of socket.error and the next attempt. The
    -- exception is logged while `_reconnect` is still unset.
    unfoldable pub after_send : Action w Unit → Bool → Action w Unit
    after_send retry true = pure tt
    after_send retry false = do
      report (some (codes "error"))
      modify (λ c. record c { reconnect = true })
      retry

    -- One round of the loop, followed by the others if it fails.
    unfoldable pub attempt : Str → Action w Unit → Action w Unit
    attempt s retry = do ensure_connected; sent ← send s; after_send retry sent

    -- The rounds that are left.
    unfoldable pub attempts : ℕ → Str → Action w Unit
    attempts zero s = pure tt
    attempts (suc k) s = attempt s (attempts k s)

    -- The text ends in a newline. The buffer is emptied also where `json.dumps` raises.
    unfoldable pub flush_with : Action w Unit
    flush_with c =
        let cleared = record c { payload = [] } in
        elim (dumps c.payload) [
          | some s ↦ attempts retry_count (s ++ 10 ∷ []) cleared
          | none ↦ (err type_error, cleared)
        ]
