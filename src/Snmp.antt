-- ===== src/Snmp.antt =====
-- The collectors that read the tables of /proc/net: src/diamond/collectors/tcp/tcp.py, ip/ip.py and
-- udp/udp.py of the same directory.
pub mod Tables
pub mod Sent
use fullerite.Base.{
  ℕ, String, Bool, true, false, ◌||◌, Option, none, some, List, [], ◌∷◌, ◌++◌, map, if◌then◌else◌,
}
use fullerite.Base.Int.{ℤ, pos}
use fullerite.Base.Text.{Str, codes, str_eq, str_mem, starts_with, contains, words, join}
use fullerite.Base.Dict.{Dict, lookup, insert, update}
use fullerite.Base.Result.{
  Result, ok, err, index_error, type_error, key_error, value_error, or_raise, bind,
}
use fullerite.Base.Exec.{pure, lift, ◌>>=◌, ◌>>◌}
use fullerite.Python.{Num, int, long, Value, nil, bool, num, str, strs, pattern}
use fullerite.Collector.State.{World, Collector, Action, config_get}
use fullerite.Collector.Derivative.{default_counting, derivative}
use fullerite.Collector.Config.{get_default_config, process_config}
use fullerite.Collector.Publish.{Sample, publish, report_error}
use fullerite.Collector.Run.{sample, publish_gauge, publish_cumulative_counter, publish_counter}

-- `readline()`, which gives an empty text at the end of the file
abbrev pub first_line : List Str → Str
first_line [] = []
first_line (l ∷ ls) = l

-- The header and the line behind it: the first line that starts with the prefix.
unfoldable pub find_table : Str → List Str → Option (Str × Str)
find_table prefix [] = none
find_table prefix (l ∷ ls) =
    let rest = find_table prefix ls in
    if str_eq l [] then none else if starts_with l prefix then some (l, first_line ls) else rest

-- `for i in xrange(1, len(header)): metrics[header[i]] = data[i]`, for what is behind the first words
unfoldable pub fill : List Str → List Str → Dict Str → Result (Dict Str)
fill [] ds m = ok m
fill (h ∷ hs) [] m = err index_error
fill (h ∷ hs) (d ∷ ds) m = fill hs ds (insert h d m)

-- `words[1:]`
abbrev pub behind_first : List Str → List Str
behind_first [] = []
behind_first (w ∷ ws) = ws

-- `len(allowed) == 0 or name in allowed`; in a text that is a part of the text.
abbrev pub is_wanted : {F : Type 0} → Value F → Str → Result Bool
is_wanted (str s) name = ok (str_eq s [] || contains s name)
is_wanted (strs []) name = ok true
is_wanted (strs l) name = ok (str_mem name l)
is_wanted v name = err type_error

abbrev pub tcp_gauges : List Str
tcp_gauges = map codes ("CurrEstab" ∷ "MaxConn" ∷ [])

abbrev pub ip_gauges : List Str
ip_gauges = map codes ("Forwarding" ∷ "DefaultTTL" ∷ [])

abbrev pub tcp_files : List Str
tcp_files = map codes ("/proc/net/netstat" ∷ "/proc/net/snmp" ∷ [])

abbrev pub snmp_files : List Str
snmp_files = map codes ("/proc/net/snmp" ∷ [])

module _ {F : Type 0} where
  abbrev pub tcp_default_config : Dict (Value F)
  unfolding update
  tcp_default_config = update get_default_config (
      (codes "path", str (codes "tcp"))
      ∷ (
        codes "allowed_names",
        str (
            codes
              "ListenOverflows, ListenDrops, TCPLoss, TCPTimeouts, TCPFastRetrans, TCPLostRetransmit, TCPForwardRetrans, TCPSlowStartRetrans, CurrEstab, MaxConn, TCPAbortOnMemory, TCPBacklogDrop, AttemptFails, EstabResets, InErrs, ActiveOpens, PassiveOpens, RetransSegs"),
      )
      ∷ [])

  abbrev pub ip_default_config : Dict (Value F)
  unfolding update
  ip_default_config = update get_default_config (
      (codes "path", str (codes "ip"))
      ∷ (
        codes "allowed_names",
        str (
            codes
              "InAddrErrors, InDelivers, InDiscards, InHdrErrors, InReceives, InUnknownProtos, OutDiscards, OutNoRoutes, OutRequests"),
      )
      ∷ [])

  abbrev pub udp_default_config : Dict (Value F)
  unfolding update
  udp_default_config = update get_default_config (
      (codes "path", str (codes "udp"))
      ∷ (
        codes "allowed_names",
        str (codes "InDatagrams, NoPorts, InErrors, OutDatagrams, RcvbufErrors, SndbufErrors"),
      )
      ∷ [])

  -- `if self.config['allowed_names'] is None: self.config['allowed_names'] = []`
  unfoldable pub allow_all : Dict (Value F) → Result (Dict (Value F))
  allow_all config = elim (lookup (codes "allowed_names") config) [
    | none ↦ err key_error
    | some nil ↦ ok (insert (codes "allowed_names") (strs []) config)
    | some v ↦ ok config
  ]

-- For a world, the depth of error reports, and the lines of the files that can be read.
module _ (w : World) (depth : ℕ) (files : Str → Option (List Str)) where
  open w use {float, float.{Carrier, parse_int}}

  -- `process_config` of the three collectors
  unfoldable pub process_names : Dict (Value Carrier) → Result (Dict (Value Carrier))
  process_names config = bind (process_config w config) allow_all

  -- `self.log.error(...); continue`: the log's handler reports the error.
  abbrev pub skip_file : Dict Str → Action w (Dict Str)
  skip_file metrics = do report_error w depth none; pure metrics

  -- what a header and its data add
  abbrev pub add_table : Str → Str → Dict Str → Action w (Dict Str)
  add_table header values metrics =
      if str_eq values []
      then skip_file metrics
      else lift (fill (behind_first (words header)) (behind_first (words values)) metrics)

  abbrev pub add_found : Option (Str × Str) → Dict Str → Action w (Dict Str)
  add_found none metrics = skip_file metrics
  add_found (some (header, values)) metrics = add_table header values metrics

  unfoldable pub add_lines : Str → List Str → Dict Str → Action w (Dict Str)
  unfolding find_table
  add_lines prefix lines metrics = add_found (find_table prefix lines) metrics

  -- the loop over the files
  unfoldable pub read_tables : Str → List Str → Dict Str → Action w (Dict Str)
  read_tables prefix [] metrics = pure metrics
  read_tables prefix (path ∷ paths) metrics = do
    more ← elim (files path) [
      | none ↦ skip_file metrics
      | some lines ↦ add_lines prefix lines metrics
    ]
    read_tables prefix paths more

  abbrev pub publish_text : (Str → Num Carrier → Action w Unit) → Str → Str → Action w Unit
  publish_text f name text = do n ← lift (or_raise (parse_int text) value_error); f name (long n)

  -- The loop over the metrics, in the order in which they were found; the source leaves it open.
  unfoldable pub publish_all : (Str → Num Carrier → Action w Unit) → Dict Str → Action w Unit
  publish_all f [] = pure tt
  publish_all f ((name, text) ∷ rest) = do
    allowed ← config_get (codes "allowed_names")
    wanted ← lift (is_wanted allowed name)
    if wanted then publish_text f name text else pure tt
    publish_all f rest

  unfoldable pub publish_tcp : Str → Num Carrier → Action w Unit
  publish_tcp name value =
      let full = join b'.' (codes "tcp" ∷ name ∷ []) in
      if str_mem name tcp_gauges
      then publish_gauge w depth full (num value) 0 none
      else publish_cumulative_counter w depth full (num value) 0 none

  unfoldable pub publish_ip : Str → Num Carrier → Action w Unit
  publish_ip name value =
      if str_mem name ip_gauges
      then publish_gauge w depth name (num value) 0 none
      else publish_counter w depth name value 0 default_counting

  -- `self.publish(metric_name, value, 0)`: the third argument of `publish` is the raw value.
  abbrev pub udp_sample : Str → Num Carrier → Sample Carrier
  udp_sample name value = record (sample name (num value) (codes "GAUGE")) {
    raw_value = num (int (pos 0));
  }

  unfoldable pub publish_udp : Str → Num Carrier → Action w Unit
  publish_udp name value = do
    rate ← derivative w name value default_counting
    publish w depth (udp_sample name rate)

  unfoldable pub collect_tcp : Action w Unit
  collect_tcp = do metrics ← read_tables (codes "Tcp") tcp_files []; publish_all publish_tcp metrics

  unfoldable pub collect_ip : Action w Unit
  collect_ip = do metrics ← read_tables (codes "Ip") snmp_files []; publish_all publish_ip metrics

  unfoldable pub collect_udp : Action w Unit
  collect_udp = do
    metrics ← read_tables (codes "Udp") snmp_files []
    publish_all publish_udp metrics
