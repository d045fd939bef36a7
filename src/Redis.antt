-- ===== src/Redis.antt =====
-- src/diamond/collectors/redisstat/redisstat.py.
pub mod Texts
pub mod Single
pub mod Password
pub mod Collect
use fullerite.Base.{
  ℕ, Bool, true, false, not, ◌==◌, Option, none, some, List, [], ◌∷◌, ◌++◌, length, if◌then◌else◌,
}
use fullerite.Base.Int.{ℤ, pos}
use fullerite.Base.Text.{Str, codes, starts_with, split}
use fullerite.Base.Dict.{Dict, lookup, insert, update}
use fullerite.Base.Result.{
  Result, ok, err, type_error, value_error, key_error, or_raise, bind, ◌>>=◌,
}
use fullerite.Python.{int, long, flt, Value, nil, bool, num, str, strs, pattern}
use fullerite.Python.Convert.{show_int, value_str, value_int}
use fullerite.Collector.State.{World}
use fullerite.Collector.Config.{get_default_config, process_config}

-- Where an instance listens: the tuple `(host, port, unix_socket, auth)`.
pub record Address : Type 0 where
  pub host : Str
  pub port : ℤ
  pub socket : Option Str
  pub auth : Option Str

abbrev pub default_host : Str
default_host = codes "localhost"

abbrev pub default_port : ℤ
default_port = pos 6_379

-- `s.partition(d)`: the text before the first `d`, and the one behind it.
abbrev pub partition : ℕ → Str → Str × Option Str
partition d [] = ([], none)
partition d (c ∷ s) = let (a, b) = partition d s in if c == d then ([], some s) else (c ∷ a, b)

abbrev pub after : Option Str → Str
after none = []
after (some s) = s

-- `s or None`
abbrev pub or_none : Str → Option Str
or_none [] = none
or_none s = some s

-- The text before and behind the last `d`.
abbrev pub last_part : ℕ → Str → Str × Option Str
last_part d [] = ([], none)
last_part d (c ∷ s) =
    let (a, rest) = last_part d s in
    elim rest [ some b ↦ (c ∷ a, some b) | none ↦ if c == d then ([], some s) else (c ∷ a, none) ]

-- `os.path.basename`
abbrev pub basename : Str → Str
basename s = let (a, b) = last_part b'/' s in elim b [ none ↦ s | some t ↦ t ]

abbrev pub all_dots : Str → Bool
all_dots [] = true
all_dots (c ∷ s) = if c == b'.' then all_dots s else false

-- `os.path.splitext(s)[0]` of a file's name: dots in front of a name begin no extension.
abbrev pub root : Str → Str
root s = let (a, b) = last_part b'.' s in elim b [ none ↦ s | some t ↦ if all_dots a then s else a ]

abbrev pub nick_or : Option Str → Str → Str
nick_or none s = s
nick_or (some nick) s = nick

-- `l[0]`, of the parts of a text
abbrev pub first : List Str → Str
first [] = []
first (a ∷ l) = a

-- A socket, for what follows `unix:`.
unfoldable pub parse_socket : Option Str → Str → Str × Address
parse_socket nick s =
    let (path, rest) = partition b':' s in
    let auth = or_none (after (partition b'/' (after rest)).1) in
    (
      nick_or nick (root (basename path)),
      record { host = default_host; port = default_port; socket = some path; auth = auth },
    )

module _ (w : World) where
  open w use {float, float.{Carrier, parse_int}}

  -- the host and the port, by what is around the first colon
  unfoldable pub host_and_port : Str → Option Str → Result (Str × ℤ)
  unfolding split
  host_and_port host none = ok (host, default_port)
  host_and_port [] (some rest) =
      bind (or_raise (parse_int rest) value_error) λ p. ok (default_host, p)
  host_and_port (c ∷ host) (some rest) =
      bind (or_raise (parse_int (first (split b':' rest))) value_error) λ p. ok (c ∷ host, p)

  abbrev pub parse_host_port : Str → Result (Str × ℤ)
  unfolding host_and_port
  parse_host_port s = let (host, rest) = partition b':' s in host_and_port host rest

  -- A host with a port and a password, each of which may be missing.
  unfoldable pub parse_tcp : Option Str → Str → Result (Str × Address)
  unfolding parse_host_port split show_int
  parse_tcp nick s =
      let (before, rest) = partition b'/' s in
      let auth : Option Str = elim rest [ none ↦ none | some t ↦ some (first (split b'/' t)) ] in
      bind (parse_host_port before) λ hp. ok (
        nick_or nick (show_int hp.1),
        record { host = hp.0; port = hp.1; socket = none; auth = auth },
      )

  -- `hostport[SOCKET_PREFIX_LEN:]`
  abbrev pub after_prefix : Str → Str
  after_prefix (a ∷ b ∷ c ∷ d ∷ e ∷ s) = s
  after_prefix s = []

  unfoldable pub parse_address : Option Str → Str → Result (Str × Address)
  unfolding parse_socket parse_tcp
  parse_address nick s =
      if starts_with s (codes "unix:")
      then ok (parse_socket nick (after_prefix s))
      else parse_tcp nick s

  -- the loop's body, up to the entry it makes
  unfoldable pub parse_instance : Str → Result (Str × Address)
  unfolding parse_address
  parse_instance s =
      let (nick, rest) = partition b'@' s in
      elim rest [ some t ↦ parse_address (some nick) t | none ↦ parse_address none s ]

  unfoldable pub parse_instances : List Str → Dict Address → Result (Dict Address)
  unfolding parse_instance insert
  parse_instances [] d = ok d
  parse_instances (s ∷ ss) d = bind (parse_instance s) λ e. parse_instances ss (insert e.0 e.1 d)

  -- `'%s' % v` of a text, a number, a truth value or None
  abbrev pub format : Value Carrier → Result Str
  unfolding value_str show_int
  format nil = ok (codes "None")
  format (num (long n)) = ok (show_int n)
  format v = or_raise (value_str float v) type_error

  -- `'%s:%d/%s' % (host, port, auth)`, without the last part where `auth` is None
  unfoldable pub format_instance : Value Carrier → ℤ → Value Carrier → Result Str
  unfolding format show_int
  format_instance host port nil = bind (format host) λ h. ok (h ++ b':' ∷ show_int port)
  format_instance host port auth =
      bind (format host) λ h. bind (format auth) λ a. ok (h ++ b':' ∷ (show_int port ++ b'/' ∷ a))

  abbrev setting : Dict (Value Carrier) → Str → Result (Value Carrier)
  setting config key = or_raise (lookup key config) key_error

  -- the instance of the options `host`, `port` and `auth`
  unfoldable pub single_instance : Dict (Value Carrier) → Result Str
  unfolding format_instance value_int
  single_instance config = do
    host ← setting config (codes "host")
    port ← setting config (codes "port")
    n ← value_int float port
    auth ← setting config (codes "auth")
    format_instance host n auth

  -- `instance_list`: a text stands for itself alone, and an empty list for the single instance.
  unfoldable pub instance_list : Dict (Value Carrier) → Result (List Str)
  unfolding single_instance
  instance_list config = elim (setting config (codes "instances")) [
    | err e ↦ err e
    | ok (str s) ↦ ok (s ∷ [])
    | ok (strs (s ∷ ss)) ↦ ok (s ∷ ss)
    | ok (strs []) ↦ bind (single_instance config) λ s. ok (s ∷ [])
    | ok v ↦ err type_error
  ]

  -- The instances that `process_config` sets.
  unfoldable pub read_instances : Dict (Value Carrier) → Result (Dict Address)
  unfolding instance_list parse_instances
  read_instances config = bind (instance_list config) λ l. parse_instances l []

  -- the list of the configuration, which the single instance is appended to
  abbrev keep_list : Dict (Value Carrier) → List Str → Dict (Value Carrier)
  keep_list config l = elim (setting config (codes "instances")) [
    | ok (strs []) ↦ insert (codes "instances") (strs l) config
    | other ↦ config
  ]

  -- `process_config`: the configuration and the instances.
  unfoldable pub process_redis : Dict (Value Carrier) → Result (Dict (Value Carrier) × Dict Address)
  unfolding process_config read_instances instance_list
  process_redis config = do
    processed ← process_config w config
    l ← instance_list processed
    instances ← parse_instances l []
    ok (keep_list processed l, instances)
