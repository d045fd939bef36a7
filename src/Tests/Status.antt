-- ===== src/Tests/Status.antt =====
-- The theorems about the status files and the tables of collectors, at concrete inputs.
use fullerite.Base.{
  ℕ, true, ◌==◌, Option, none, some, List, [], ◌∷◌, ◌++◌, map, ◌≡◌, refl, ap, All, length, arith,
  if◌then◌else◌,
}
use fullerite.Base.Int.{ℤ, pos}
use fullerite.Base.Text.{Str, codes, str_eq}
use fullerite.Base.Dict.{Dict, lookup, insert}
use fullerite.Base.Result.{ok, err, zero_division}
use fullerite.Collector.State.{Collector}
use fullerite.Icinga.Parse.{Entity, parse_stats_file}
use fullerite.Icinga.Blocks.{Block, IsBlock}
use fullerite.Icinga.RoundTrip.{Holds, parse_stats_file-Holds}
use fullerite.Icinga.Counts.{AddsUpOrRaises, count_hosts-cases}
use fullerite.Icinga.Program.{get_externalcmd_stats}
use fullerite.Icinga.Slots.{get_externalcmd_stats-used}
use fullerite.OpenVpn.Reading.{Stream, read_status}
use fullerite.OpenVpn.Waiting.{taken, read_status-closed, read_status-taken}
use fullerite.Disk.{Device, FileSystem, System, get_file_systems, has_device}
use fullerite.Disk.Found.{IsFound, IsDevice, get_file_systems-IsFound}
use fullerite.Disk.Space.{Statvfs, publish_unit, publish_inodes_free}
use fullerite.Disk.Blocks.{publish_unit-no_blocks}
use fullerite.Sys.Sockets.{count_of, collect_files}
use fullerite.Sys.Sums.{total, file_groups, collect_files-total}
use fullerite.Tests.Floats.{whole}
use fullerite.Tests.Worlds.{world, collector_with}

abbrev host_block : Block
host_block = record {
  kind = codes "hoststatus";
  items = (codes "current_state", codes "0") ∷ (codes "is_flapping", codes "0") ∷ [];
}

abbrev status_lines : List Str
status_lines =
    (codes "hoststatus {" ++ 10 ∷ [])
    ∷ (9 ∷ codes "current_state=0" ++ 10 ∷ [])
    ∷ (9 ∷ codes "is_flapping=0" ++ 10 ∷ [])
    ∷ (9 ∷ codes "}" ++ 10 ∷ [])
    ∷ []

parse_stats_file-Holds_example : Holds (host_block ∷ []) (parse_stats_file (some status_lines))
unfolding IsBlock
parse_stats_file-Holds_example =
    parse_stats_file-Holds (host_block ∷ []) status_lines
      (
        (
          (refl, refl),
          refl,
          (
            (omega arith, (refl, refl), (refl, refl), refl, refl, refl),
            ((omega arith, (refl, refl), (refl, refl), refl, refl, refl), tt),
          ),
          refl,
        ),
        tt,
      )
      refl

abbrev host : Entity
host =
    (codes "is_flapping", codes "0")
    ∷ (codes "scheduled_downtime_depth", codes "1")
    ∷ (codes "has_been_checked", codes "1")
    ∷ (codes "should_be_scheduled", codes "1")
    ∷ []

count_hosts-cases_example : AddsUpOrRaises whole (host ∷ [] ∷ [])
count_hosts-cases_example = count_hosts-cases whole (host ∷ [] ∷ [])

abbrev program : Entity
program =
    (codes "total_external_command_buffer_slots", codes "4096")
    ∷ (codes "used_external_command_buffer_slots", codes "7")
    ∷ []

abbrev slots : Dict ℤ
slots =
    (codes "external_command.buffer_total", pos 4_096)
    ∷ (codes "external_command.buffer_used", pos 4_096)
    ∷ []

get_externalcmd_stats-used_example :
    (lookup (codes "external_command.buffer_total") slots ≡ some (pos 4_096))
    × (lookup (codes "external_command.buffer_used") slots ≡ some (pos 4_096))
unfolding lookup insert get_externalcmd_stats
get_externalcmd_stats-used_example =
    get_externalcmd_stats-used whole program (codes "7") (codes "4096") (pos 4_096) slots refl refl
      refl refl

abbrev line_at : Str → ℕ → Str
line_at last n =
    if n == 0 then codes ">INFO:OpenVPN" else if n == 1 then codes "OpenVPN CLIENT LIST" else last

abbrev stream : Str → Stream
stream last = record { readline = λ n. some (line_at last n) }

read_status-closed_example : read_status 5 (stream []) ≡ none
read_status-closed_example =
    read_status-closed 5 (stream []) (codes ">INFO:OpenVPN") 2 refl refl
      (λ k a b.
        let e : k ≡ 1 = omega arith in (line_at [] 1, ap (λ n. some (line_at [] n)) e, refl))
      (λ k a. ground arith)

read_status-taken_example :
    read_status 2 (stream (codes "END")) ≡ some (some (taken (stream (codes "END")) 1 2))
read_status-taken_example =
    read_status-taken 2 1 (stream (codes "END")) (codes ">INFO:OpenVPN") (codes "END") (omega arith)
      refl refl
      (λ k a b.
        let e : k ≡ 1 = omega arith in
        (line_at (codes "END") 1, ap (λ n. some (line_at (codes "END") n)) e, refl))
      refl refl

abbrev system : System
system = record {
  stat = λ path. some (8, length path);
  realpath = λ path. path;
  search = λ p path. str_eq path (codes "/boot");
}

abbrev mounts : List Str
mounts = map codes ("/dev/sda1 / ext4 rw" ∷ "/dev/sda2 /home ext4 rw" ∷ "proc /proc proc rw" ∷ [])

get_file_systems-IsFound_example :
    (found : List (Device × FileSystem)) × (get_file_systems system []
        (codes "ext4" ∷ [])
        (some mounts)
        none
      ≡ some found)
    × IsFound system [] (codes "ext4" ∷ []) found
    × All
        (λ l. (d : Device) → IsDevice system [] (codes "ext4" ∷ []) l d → has_device d found ≡ true)
        mounts
get_file_systems-IsFound_example =
    get_file_systems-IsFound system [] (codes "ext4" ∷ []) mounts none

abbrev collector : Collector ℕ
collector = collector_with 300 []

abbrev empty_disk : Statvfs
empty_disk = record {
  f_bsize = pos 512;
  f_blocks = pos 0;
  f_bfree = pos 0;
  f_bavail = pos 0;
  f_files = pos 0;
  f_ffree = pos 0;
  f_favail = pos 0;
}

publish_unit-no_blocks_example :
    (publish_unit world 1 (codes "root") empty_disk (codes "byte") collector
      ≡ (err zero_division, collector))
    × (publish_inodes_free world 1 (codes "root") empty_disk collector ≡ (ok tt, collector))
publish_unit-no_blocks_example =
    publish_unit-no_blocks world 1 0 0 (codes "root") (codes "byte") empty_disk collector
      (record { zero_float = refl; no_quotient = λ x. refl; not_above = refl }) refl refl refl

abbrev sockets : Str → Option (List (Str × Option Str))
sockets l = some ((codes "tcp_inuse", some l) ∷ (codes "udp_inuse", none) ∷ [])

abbrev socket_files : List (Option (List Str))
socket_files = some (codes "3" ∷ []) ∷ none ∷ some (codes "4" ∷ []) ∷ []

abbrev socket_counts : Dict ℤ
socket_counts = (codes "tcp_inuse", pos 7) ∷ []

collect_files-total_example :
    count_of (lookup (codes "tcp_inuse") socket_counts)
    ≡ total whole (codes "tcp_inuse") (file_groups whole sockets socket_files)
unfolding collect_files
collect_files-total_example =
    collect_files-total whole sockets (codes "tcp_inuse") socket_files socket_counts refl
