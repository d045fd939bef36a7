-- ===== src/OpenVpn/Status.antt =====
-- `parse` and `publish_number` of src/diamond/collectors/openvpn/openvpn.py.
use fullerite.Base.{ℕ, ◌+◌, none, some, List, [], ◌∷◌, ◌++◌, ◌==◌, not, if◌then◌else◌}
use fullerite.Base.Int.{pos}
use fullerite.Base.Text.{
  Str, codes, str_eq, starts_with, contains, strip, lower, split, join, span, replace_char,
}
use fullerite.Base.Dict.{Dict, lookup, insert}
use fullerite.Base.Result.{Result, ok, key_error, or_raise, bind}
use fullerite.Base.Exec.{pure, lift, ◌>>=◌, ◌>>◌}
use fullerite.Python.{int, long, num}
use fullerite.Collector.State.{World, Action}
use fullerite.Collector.Publish.{publish, report_error}
use fullerite.Collector.Run.{sample}

-- the section that the lines belong to, `none` before the first and in the routing table
pub data Section : Type 0 where
  no_section statistics clients global_stats : Section

-- What the loop keeps.
pub record Parsing : Type 0 where
  pub section : Section
  pub heading : List Str
  pub number_connected_clients : ℕ

-- What a line does: the loop ends, or goes on after numbers have been published, each under its
-- key.
pub data Verdict : Type 0 where
  stop : Verdict
  go_on : Parsing → List (Result (Str × Str)) → Verdict

-- `zip(heading, values)` with the keys in lower case
unfoldable pub info_of : List Str → List Str → Dict Str → Dict Str
unfolding insert
info_of [] vs info = info
info_of (k ∷ ks) [] info = info
info_of (k ∷ ks) (v ∷ vs) info = info_of ks vs (insert (lower k) v info)

-- the two numbers of a client, each with its key, or what looking them up raises
unfoldable pub client_number : Str → Dict Str → Str → Str → Result (Str × Str)
unfolding lookup
client_number name info last column =
    bind (or_raise (lookup (codes "common name") info) key_error) λ common.
      bind (or_raise (lookup column info) key_error) λ text.
        (let host = replace_char b'.' b'_' common in
          ok (join b'.' (name ∷ codes "clients" ∷ host ∷ last ∷ []), text))

-- a line of a client, below the heading
unfoldable pub client_line : Str → Str → Parsing → Result Verdict
unfolding split info_of client_number
client_line name line p = elim p.heading [
  | [] ↦ ok (go_on (record p { heading = split b',' (strip line) }) [])
  | h ∷ hs ↦
      let info = info_of (h ∷ hs) (split b',' (strip line)) [] in
      ok (
        go_on (record p { number_connected_clients = p.number_connected_clients + 1 })
          (client_number name info (codes "bytes_rx") (codes "bytes received")
            ∷ client_number name info (codes "bytes_tx") (codes "bytes sent")
            ∷ []))
]

-- `key, value = line.split(',', 1)`, of a line that has a comma
abbrev pub after_comma : Str → Str
after_comma [] = []
after_comma (c ∷ s) = s

-- a line with a comma, by its section
unfoldable pub comma_line : Str → Str → Parsing → Result Verdict
unfolding client_line
comma_line name line p =
    let (key, rest) = span (λ c. not (c == b',')) line in
    let published = λ (full : Str). ok (go_on p (ok (full, after_comma rest) ∷ [])) in
    let of_client = client_line name line p in
    if str_eq (lower key) (codes "updated") then ok (go_on p []) else elim p.section [
      | no_section ↦ ok (go_on p [])
      | statistics ↦ published (join b'.' (name ∷ codes "global" ∷ key ∷ []))
      | clients ↦ of_client
      | global_stats ↦ published (join b'.' (name ∷ codes "global" ∷ key ∷ []))
    ]

-- the body of the loop
unfoldable pub status_line : Str → Str → Parsing → Result Verdict
unfolding comma_line
status_line name line p =
    let starts = λ (words : Str). starts_with (lower line) words in
    let enter = λ (s : Section). ok (go_on (record p { section = s }) []) in
    if str_eq (strip line) (codes "END")
    then ok stop
    else if starts (codes "openvpn statistics")
    then enter statistics
    else if starts (codes "openvpn client list")
    then enter clients
    else if starts (codes "routing table")
    then enter no_section
    else if starts (codes "global stats")
    then enter global_stats
    else if contains line (codes ",")
    then comma_line name line p
    else if starts_with line (codes "END")
    then ok stop
    else ok (go_on p [])

module _ (w : World) (depth : ℕ) where
  open w use {float, float.{Carrier, parse_int}}

  -- `publish_number`
  unfoldable pub publish_number : Str → Str → Action w Unit
  publish_number key text =
      let full = lower (replace_char b' ' b'_' (replace_char b'/' b'-' key)) in
      elim (parse_int text) [
        | none ↦ report_error w depth (some (codes "ValueError"))
        | some n ↦ publish w depth (sample full (num (long n)) (codes "GAUGE"))
      ]

  unfoldable pub publish_numbers : List (Result (Str × Str)) → Action w Unit
  unfolding publish_number
  publish_numbers [] = pure tt
  publish_numbers (r ∷ more) = do
    (key, text) ← lift r
    publish_number key text
    publish_numbers more

  -- the loop, which returns the number of clients
  unfoldable pub status_lines : Str → List Str → Parsing → Action w ℕ
  unfolding status_line publish_numbers
  status_lines name [] p = pure p.number_connected_clients
  status_lines name (l ∷ ls) p = lift (status_line name l p) >>= λ v. elim v [
    | stop ↦ pure p.number_connected_clients
    | go_on q numbers ↦ publish_numbers numbers >> status_lines name ls q
  ]

  -- `parse`
  unfoldable pub parse_status : Str → List Str → Action w Unit
  unfolding status_lines
  parse_status name lines = do
    n ←
        status_lines name lines
          (record { section = no_section; heading = []; number_connected_clients = 0 })
    publish w depth
        (sample (name ++ codes ".clients.connected") (num (int (pos n))) (codes "GAUGE"))
