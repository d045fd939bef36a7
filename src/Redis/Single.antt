-- ===== src/Redis/Single.antt =====
-- The instance that `process_config` of src/diamond/collectors/redisstat/redisstat.py makes of the
-- options `host`, `port` and `auth`.
use fullerite.Base.{
  ℕ, suc, ◌≡◌, ◌≢◌, refl, sym, ap, ◌∙◌, Option, none, some, List, [], ◌∷◌, ◌++◌, All-append, arith,
}
use mathlib.Core.List.{append_assoc}
use fullerite.Base.Int.{ℤ, pos}
use fullerite.Base.Text.{Str, codes, Lacks, split-Lacks, decimal}
use fullerite.Base.Dict.{Dict, lookup, insert}
use fullerite.Base.Result.{ok, bind}
use fullerite.Python.{Value, nil, str, strs}
use fullerite.Python.Convert.{show_int, value_str, value_int}
use fullerite.Collector.State.{World}
use fullerite.Redis.{
  Address, nick_or, host_and_port, single_instance, format_instance, instance_list, partition,
  parse_host_port, parse_tcp, parse_address, parse_instance, parse_instances, read_instances,
}
use fullerite.Redis.Texts.{
  Digits, digits_from-Digits, Digits-Lacks, Digits-Lacks_low, Plain, not_socket, partition-Lacks,
  partition-append,
}

abbrev pub NoMeaning : Option Str → Type 0
NoMeaning none = Unit
NoMeaning (some a) = Lacks b'@' a × Lacks b'/' a

-- `host:port` or `host:port/auth`
abbrev pub address_text : Str → Str → Option Str → Str
address_text host port none = host ++ b':' ∷ port
address_text host port (some a) = host ++ b':' ∷ (port ++ b'/' ∷ a)

-- the name in front of it
abbrev pub nick_part : Option Str → Str → Str
nick_part none s = s
nick_part (some nick) s = nick ++ b'@' ∷ s

abbrev pub tcp : Str → ℤ → Option Str → Address
tcp host p auth = record { host = host; port = p; socket = none; auth = auth }

abbrev pub NickLacks : Option Str → Type 0
NickLacks none = Unit
NickLacks (some nick) = Lacks b'@' nick

module _ (w : World) (host port : Str) (p : ℤ) where
  open w use {float, float.{parse_int}}

  host_and_port-port :
      (port_colon : Lacks b':' port)
      → parse_int port ≡ some p
      → host ≢ []
      → host_and_port w host (some port) ≡ ok (host, p)
  unfolding host_and_port
  host_and_port-port h e n = host_cases host n
    where
      host_cases : (s : Str) → s ≢ [] → host_and_port w s (some port) ≡ ok (s, p)
      host_cases [] m = elim (m refl) [ ]
      host_cases (c ∷ s) m = ground (arith, e, split-Lacks b':' port h)

  parse_host_port-text :
      Plain host
      → Lacks b':' port
      → parse_int port ≡ some p
      → parse_host_port w (host ++ b':' ∷ port) ≡ ok (host, p)
  unfolding parse_host_port
  parse_host_port-text h n e =
      rw (partition-append b':' host port h.no_colon) (host_and_port-port n e h.has_char)

  -- What stands around the first slash.
  slash_none :
      Plain host → Digits port → partition b'/' (host ++ b':' ∷ port) ≡ (host ++ b':' ∷ port, none)
  slash_none h d = partition-Lacks b'/' (host ++ b':' ∷ port) (
      All-append (λ c. c ≢ b'/') host (b':' ∷ port) h.no_slash
        (omega arith, Digits-Lacks_low b'/' port d (omega arith)))

  slash_some :
      (a : Str)
      → Plain host
      → Digits port
      → partition b'/' (host ++ b':' ∷ (port ++ b'/' ∷ a)) ≡ (host ++ b':' ∷ port, some a)
  slash_some a h d =
      ap (partition b'/') (sym (append_assoc host (b':' ∷ port) (b'/' ∷ a)))
      ∙ partition-append b'/' (host ++ b':' ∷ port) a (
          All-append (λ c. c ≢ b'/') host (b':' ∷ port) h.no_slash
            (omega arith, Digits-Lacks_low b'/' port d (omega arith)))

  parse_tcp-text :
      (nick auth : Option Str)
      → Plain host
      → Digits port
      → NoMeaning auth
      → parse_int port ≡ some p
      → parse_tcp w nick (address_text host port auth)
        ≡ ok (nick_or nick (show_int p), tcp host p auth)
  unfolding parse_tcp
  parse_tcp-text nick none h d n e =
      rw
        (
          slash_none h d,
          partition-append b':' host port h.no_colon,
          host_and_port-port (Digits-Lacks b':' port d (omega arith)) e h.has_char,
        )
        refl
  parse_tcp-text nick (some a) h d n e =
      rw
        (
          slash_some a h d,
          partition-append b':' host port h.no_colon,
          host_and_port-port (Digits-Lacks b':' port d (omega arith)) e h.has_char,
          split-Lacks b'/' a n.1,
        )
        refl

  parse_address-text :
      (nick auth : Option Str)
      → Plain host
      → Digits port
      → NoMeaning auth
      → parse_int port ≡ some p
      → parse_address w nick (address_text host port auth)
        ≡ ok (nick_or nick (show_int p), tcp host p auth)
  unfolding parse_address
  parse_address-text nick none h d n e =
      rw (not_socket host port h.no_colon h.no_prefix) (parse_tcp-text nick none h d n e)
  parse_address-text nick (some a) h d n e =
      rw (not_socket host (port ++ b'/' ∷ a) h.no_colon h.no_prefix)
        (parse_tcp-text nick (some a) h d n e)

  text-NoAt :
      (auth : Option Str)
      → Plain host
      → Digits port
      → NoMeaning auth
      → Lacks b'@' (address_text host port auth)
  text-NoAt none h d n =
      All-append (λ c. c ≢ b'@') host (b':' ∷ port) h.no_at
        (omega arith, Digits-Lacks b'@' port d (omega arith))
  text-NoAt (some a) h d n =
      All-append (λ c. c ≢ b'@') host (b':' ∷ (port ++ b'/' ∷ a)) h.no_at
        (
          omega arith,
          All-append (λ c. c ≢ b'@') port (b'/' ∷ a) (Digits-Lacks b'@' port d (omega arith))
              (omega arith, n.0),
        )

  -- An instance written as host and port, with or without a nickname in front and a password
  -- behind, is read as it was written, the nickname being the port where there is none; for a host
  -- that is not empty and not unix and has no at sign, slash or colon, a port of digits that `int`
  -- reads, a nickname without an at sign, and a password without an at sign or a slash.
  pub parse_instance-text :
      (nick auth : Option Str)
      → NickLacks nick
      → Plain host
      → Digits port
      → NoMeaning auth
      → parse_int port ≡ some p
      → parse_instance w (nick_part nick (address_text host port auth))
        ≡ ok (nick_or nick (show_int p), tcp host p auth)
  unfolding parse_instance
  parse_instance-text none auth k h d n e =
      rw (partition-Lacks b'@' (address_text host port auth) (text-NoAt auth h d n), parse_instance)
        (parse_address-text none auth h d n e)
  parse_instance-text (some nick) auth k h d n e =
      ap
        (λ (q : Str × Option Str). elim q.1 [
          | some t ↦ parse_address w (some q.0) t
          | none ↦ parse_address w none (nick_part (some nick) (address_text host port auth))
        ])
        (partition-append b'@' nick (address_text host port auth) k)
      ∙ parse_address-text (some nick) auth h d n e

abbrev pub auth_value : {F : Type 0} → Option Str → Value F
auth_value none = nil
auth_value (some a) = str a

module _ (w : World) (config : Dict (Value w.float.Carrier)) (host : Str) (n : ℕ) where
  open w use {float, float.{Carrier, parse_int}}

  single_instance-text :
      (port : Value Carrier) (auth : Option Str)
      → lookup (codes "host") config ≡ some (str host)
      → lookup (codes "port") config ≡ some port
      → lookup (codes "auth") config ≡ some (auth_value auth)
      → value_int float port ≡ ok (pos n)
      → single_instance w config ≡ ok (address_text host (decimal n) auth)
  unfolding single_instance format_instance value_str show_int
  single_instance-text port none h p a v = rw (h, p, v, a) refl
  single_instance-text port (some s) h p a v = rw (h, p, v, a) refl

  instance_list-single :
      (s : Str)
      → lookup (codes "instances") config ≡ some (strs [])
      → single_instance w config ≡ ok s
      → instance_list w config ≡ ok (s ∷ [])
  unfolding instance_list
  instance_list-single s l e = ground (arith, l, e)

  -- With an empty list of instances, the options `host`, `port` and `auth` give one instance,
  -- named by the port, with this host, port and password, for a host that is not empty and not
  -- unix and has no at sign, slash or colon, a port that is not negative and that `int` reads
  -- back, and a password without an at sign or a slash.
  pub read_instances-single :
      (port : Value Carrier) (auth : Option Str)
      → lookup (codes "instances") config ≡ some (strs [])
      → lookup (codes "host") config ≡ some (str host)
      → lookup (codes "port") config ≡ some port
      → lookup (codes "auth") config ≡ some (auth_value auth)
      → value_int float port ≡ ok (pos n)
      → parse_int (decimal n) ≡ some (pos n)
      → Plain host
      → NoMeaning auth
      → read_instances w config ≡ ok ((decimal n, tcp host (pos n) auth) ∷ [])
  unfolding read_instances parse_instances insert
  read_instances-single port auth l h p a v e f m =
      ap (λ r. bind r λ (ss : List Str). parse_instances w ss [])
        (instance_list-single (address_text host (decimal n) auth) l
          (single_instance-text port auth h p a v))
      ∙ ap (λ r. bind r λ (q : Str × Address). ok ((q.0, q.1) ∷ []))
          (parse_instance-text w host (decimal n) (pos n) none auth tt f
            (digits_from-Digits (suc n) n [] tt) m e)
