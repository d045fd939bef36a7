-- ===== src/Redis/Password.antt =====
-- The single instance of src/diamond/collectors/redisstat/redisstat.py, for a password with an `@`.
use fullerite.Base.{
  ◌≡◌, ◌≢◌, refl, sym, ap, ◌∙◌, false, Option, none, some, [], ◌∷◌, ◌++◌, All-append, arith,
}
use mathlib.Core.List.{append_assoc}
use fullerite.Base.Text.{Str, codes, starts_with, Lacks}
use fullerite.Base.Result.{ok}
use fullerite.Collector.State.{World}
use fullerite.Redis.{
  partition, default_port, parse_address, parse_tcp, host_and_port, parse_instance,
}
use fullerite.Redis.Single.{address_text, tcp}
use fullerite.Redis.Texts.{Digits, Digits-Lacks, Plain, partition-Lacks, partition-append}

no_colon_no_socket : (s : Str) → Lacks b':' s → starts_with s (codes "unix:") ≡ false
no_colon_no_socket [] h = refl
no_colon_no_socket (a ∷ []) h = ground arith
no_colon_no_socket (a ∷ b ∷ []) h = ground arith
no_colon_no_socket (a ∷ b ∷ c ∷ []) h = ground arith
no_colon_no_socket (a ∷ b ∷ c ∷ d ∷ []) h = ground arith
no_colon_no_socket (a ∷ b ∷ c ∷ d ∷ e ∷ s) h = ground arith

module _ (w : World) where
  -- A host alone.
  parse_address-host :
      (nick s : Str)
      → Lacks b'/' s
      → Lacks b':' s
      → parse_address w (some nick) s ≡ ok (nick, tcp s default_port none)
  unfolding parse_address parse_tcp host_and_port
  parse_address-host nick s slash colon =
      rw (no_colon_no_socket s colon, partition-Lacks b'/' s slash, partition-Lacks b':' s colon)
        refl

  -- An instance written as host, port and password, with no at sign before the one in the
  -- password, is read as one whose host is what stands behind that at sign, with the default port
  -- and no password; for a plain host, a port of digits, and no slash or colon behind the at sign.
  pub parse_instance-password :
      (host port a b : Str)
      → Plain host
      → Digits port
      → Lacks b'@' a
      → Lacks b'/' b
      → Lacks b':' b
      → parse_instance w (address_text host port (some (a ++ b'@' ∷ b)))
        ≡ ok (address_text host port (some a), tcp b default_port none)
  unfolding parse_instance
  parse_instance-password host port a b h d at slash colon =
      let text = address_text host port (some (a ++ b'@' ∷ b)) in
      let inner : port ++ b'/' ∷ (a ++ b'@' ∷ b) ≡ (port ++ b'/' ∷ a) ++ b'@' ∷ b =
        sym (append_assoc port (b'/' ∷ a) (b'@' ∷ b)) in
      let split_text : text ≡ address_text host port (some a) ++ b'@' ∷ b =
        ap (λ (t : Str). host ++ b':' ∷ t) inner
        ∙ sym (append_assoc host (b':' ∷ (port ++ b'/' ∷ a)) (b'@' ∷ b)) in
      let lacks =
        All-append (λ c. c ≢ b'@') host (b':' ∷ (port ++ b'/' ∷ a)) h.no_at
          (
            omega arith,
            All-append (λ c. c ≢ b'@') port (b'/' ∷ a) (Digits-Lacks b'@' port d (omega arith))
                (omega arith, at),
          ) in
      ap
        (λ (q : Str × Option Str). elim q.1 [
          | some t ↦ parse_address w (some q.0) t
          | none ↦ parse_address w none text
        ])
        (ap (partition b'@') split_text
          ∙ partition-append b'@' (address_text host port (some a)) b lacks)
      ∙ parse_address-host (address_text host port (some a)) b slash colon
