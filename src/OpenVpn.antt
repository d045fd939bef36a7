-- ===== src/OpenVpn.antt =====
-- src/diamond/collectors/openvpn/openvpn.py, for what `urlparse`, `os.path`, the files and the
-- sockets give.
pub mod Status
pub mod Reading
pub mod Waiting
use fullerite.Base.{
  ℕ, Bool, true, false, Option, none, some, List, [], ◌∷◌, ◌++◌, map, if◌then◌else◌,
}
use fullerite.Base.Int.{ℤ}
use fullerite.Base.Text.{Str, codes, str_eq, contains, split, replace_char, starts_with}
use fullerite.Base.Dict.{Dict, update}
use fullerite.Base.Result.{Error, Result, ok, err, type_error, value_error, bind}
use fullerite.Base.Exec.{pure, lift, ◌>>=◌, ◌>>◌}
use fullerite.Python.{Value, str, strs}
use fullerite.Python.Convert.{value_int}
use fullerite.Collector.State.{World, Action, config_get}
use fullerite.Collector.Config.{get_default_config}
use fullerite.Collector.Publish.{report_error}
use fullerite.OpenVpn.Status.{parse_status}
use fullerite.OpenVpn.Reading.{Stream, read_status}

-- what `parse_url` gives
pub record Url : Type 0 where
  pub scheme : Str
  pub netloc : Str
  pub path : Str

-- The libraries and the world outside: the parts of a URL, the name of a file without directory
-- and extension, the lines of a readable file, and what a connection reads; none is a socket.error
-- before the first line.
pub record Outside : Type 0 where
  pub parse_url : Str → Url
  pub stem : Str → Str
  pub file : Str → Option (List Str)
  pub connect : Str → ℤ → Option Stream

-- `get_default_config`
abbrev pub openvpn_default : {F : Type 0} → Dict (Value F)
openvpn_default = update get_default_config (
    (codes "path", str (codes "openvpn"))
    ∷ (codes "instances", str (codes "file:///var/log/openvpn/status.log"))
    ∷ (codes "timeout", str (codes "10"))
    ∷ [])

-- `isinstance(self.config['instances'], basestring)`
unfoldable pub instance_list : {F : Type 0} → Value F → Result (List Str)
instance_list (str s) = ok (s ∷ [])
instance_list (strs l) = ok l
instance_list v = err type_error

abbrev pub pair_of : List Str → Result (Str × Str)
pair_of (a ∷ b ∷ []) = ok (a, b)
pair_of l = err value_error

-- the file, and the name of its metrics
unfoldable pub file_and_name : (Str → Str) → Str → Result (Str × Str)
unfolding split
file_and_name stem path =
    if contains path (codes "?") then pair_of (split b'?' path) else ok (path, stem path)

abbrev pub drop_char_1 : Str → Str
drop_char_1 [] = []
drop_char_1 (c ∷ s) = s

-- `host, port = parsed.netloc.split(':')` and `port = int(port)`
unfoldable pub host_and_port : (Str → Option ℤ) → Str → Option (Str × ℤ)
unfolding split
host_and_port parse_int netloc = elim (pair_of (split b':' netloc)) [
  | err e ↦ none
  | ok (host, port) ↦ elim (parse_int port) [ none ↦ none | some n ↦ some (host, n) ]
]

unfoldable pub tcp_name : Str → Str → Str
tcp_name path host =
    if contains path (codes "?") then drop_char_1 path else replace_char b'.' b'_' host

module _ (w : World) (depth : ℕ) (o : Outside) where
  open w use {float, float.{Carrier, parse_int}}

  abbrev pub parse_file : Str → Option (List Str) → Action w Unit
  unfolding parse_status
  parse_file name none = report_error w depth none
  parse_file name (some lines) = parse_status w depth name lines

  unfoldable pub collect_file : Str → Action w Unit
  unfolding file_and_name parse_status
  collect_file uri = do
    (filename, name) ← lift (file_and_name o.stem (Url.path (o.parse_url uri)))
    parse_file name (o.file filename)

  -- The exception being handled when reading has failed: a socket.error, and none where the
  -- greeting was another one.
  abbrev pub reading_error : Option Stream → Option Str
  reading_error none = some (codes "error")
  reading_error (some stream) = elim (stream.readline 0) [
    | none ↦ some (codes "error")
    | some line ↦ if starts_with line (codes ">INFO:OpenVPN") then some (codes "error") else none
  ]

  -- What came of reading: the lines, or a failure, which is logged.
  abbrev pub parse_read : Str → Option Str → Option (List Str) → Action w Unit
  unfolding parse_status
  parse_read name error none = report_error w depth error
  parse_read name error (some lines) = parse_status w depth name lines

  -- the connection, read with the given fuel; none means that the fuel ran out.
  abbrev pub read_from : ℕ → Option Stream → Option (Option (List Str))
  unfolding read_status
  read_from fuel none = some none
  read_from fuel (some stream) = read_status fuel stream

  abbrev pub after_read :
      Str → Option Str → Option (Option (List Str)) → Action w (Option (Unit {0}))
  after_read name error none = pure none
  after_read name error (some r) = do parse_read name error r; pure (some tt)

  -- The fuel bounds the lines that are read; where it runs out, the result is none and the method
  -- has not returned.
  unfoldable pub collect_tcp : ℕ → Str → Action w (Option (Unit {0}))
  unfolding host_and_port read_status tcp_name value_int
  collect_tcp fuel uri =
      let url = o.parse_url uri in
      elim (host_and_port parse_int url.netloc) [
        | none ↦ (do report_error w depth (some (codes "ValueError")); pure (some tt))
        | some (host, port) ↦ (do
          timeout ← config_get (codes "timeout")
          seconds ← lift (value_int float timeout)
          let stream = o.connect host port
          after_read (tcp_name url.path host) (reading_error stream) (read_from fuel stream))
      ]

  -- `collect = getattr(self, 'collect_%s' % (parsed.scheme,), None)`
  unfoldable pub collect_uri : ℕ → Str → Action w (Option (Unit {0}))
  unfolding collect_file collect_tcp
  collect_uri fuel uri =
      let scheme = Url.scheme (o.parse_url uri) in
      if str_eq scheme (codes "file")
      then (do collect_file uri; pure (some tt))
      else if str_eq scheme (codes "tcp")
      then collect_tcp fuel uri
      else (do report_error w depth none; pure (some tt))

  -- A connection that is still read keeps the next one from being opened.
  unfoldable pub collect_uris : ℕ → List Str → Action w (Option (Unit {0}))
  unfolding collect_uri
  collect_uris fuel [] = pure (some tt)
  collect_uris fuel (uri ∷ uris) =
      collect_uri fuel uri >>= λ r. elim r [ none ↦ pure none | some u ↦ collect_uris fuel uris ]

  -- `collect`
  unfoldable pub collect_openvpn : ℕ → Action w (Option (Unit {0}))
  unfolding instance_list collect_uris
  collect_openvpn fuel = do
    v ← config_get (codes "instances")
    uris ← lift (instance_list v)
    collect_uris fuel uris
