-- ===== src/Icinga/Program.antt =====
-- The metrics of the program's own status: `get_icinga_stats` and the methods that it calls, in
-- src/diamond/collectors/icinga_stats/icinga_stats.py.
use fullerite.Base.{
  Bool, true, false, ◌&&◌, Option, none, some, List, [], ◌∷◌, ◌++◌, leb, if◌then◌else◌,
}
use fullerite.Base.Int.{ℤ, pos, ◌-ℤ◌, ltb_ℤ}
use fullerite.Base.Text.{Str, codes, split}
use fullerite.Base.Dict.{Dict, lookup, insert, update}
use fullerite.Base.Result.{Result, ok, key_error, value_error, or_raise, ◌>>=◌}
use fullerite.Python.{Float}
use fullerite.Icinga.Parse.{Entity}

-- `s.isdigit()`
abbrev pub all_digits : Str → Bool
all_digits [] = true
all_digits (c ∷ s) = leb b'0' c && leb c b'9' && all_digits s

abbrev pub is_digit : Str → Bool
is_digit [] = false
is_digit (c ∷ s) = all_digits (c ∷ s)

-- three integers, or three zeros
abbrev pub three_or_zeros : Option ℤ → Option ℤ → Option ℤ → ℤ × ℤ × ℤ
three_or_zeros (some a) (some b) (some c) = (a, b, c)
three_or_zeros a b c = (pos 0, pos 0, pos 0)

-- what is before the three intervals of a metric
abbrev pub active_keys : List (Str × Str)
active_keys =
    (codes "active_scheduled_host_check_stats", codes "hosts.active_scheduled")
    ∷ (codes "active_scheduled_service_check_stats", codes "services.active_scheduled")
    ∷ (codes "active_ondemand_host_check_stats", codes "hosts.active_ondemand")
    ∷ (codes "active_ondemand_service_check_stats", codes "services.active_ondemand")
    ∷ []

abbrev pub cached_keys : List (Str × Str)
cached_keys =
    (codes "cached_host_check_stats", codes "hosts.cached")
    ∷ (codes "cached_service_check_stats", codes "services.cached")
    ∷ []

abbrev pub command_keys : List (Str × Str)
command_keys =
    (codes "serial_host_check_stats", codes "hosts.executed_serial")
    ∷ (codes "parallel_host_check_stats", codes "hosts.executed_parallel")
    ∷ []

module _ (fl : Float) where
  open fl use {parse_int}

  abbrev pub triple_of : List Str → ℤ × ℤ × ℤ
  triple_of (a ∷ b ∷ c ∷ []) = three_or_zeros (parse_int a) (parse_int b) (parse_int c)
  triple_of parts = (pos 0, pos 0, pos 0)

  -- `_convert_tripplet`
  unfoldable pub convert_tripplet : Str → ℤ × ℤ × ℤ
  unfolding split
  convert_tripplet text = triple_of (split b',' text)

  unfoldable pub insert_triple : Str → ℤ × ℤ × ℤ → Dict ℤ → Dict ℤ
  unfolding insert
  insert_triple metric (x01, x05, x15) stats =
      insert (metric ++ codes ".15") x15
        (insert (metric ++ codes ".05") x05 (insert (metric ++ codes ".01") x01 stats))

  -- the loop over the keys of `_get_active_stats`, `_get_cached_stats` and `_get_command_execution`
  unfoldable pub triple_stats : List (Str × Str) → Entity → Dict ℤ → Dict ℤ
  unfolding lookup convert_tripplet insert_triple
  triple_stats [] app_stats stats = stats
  triple_stats ((app_key, metric) ∷ more) app_stats stats =
      triple_stats more app_stats (elim (lookup app_key app_stats) [
        | none ↦ stats
        | some text ↦ insert_triple metric (convert_tripplet text) stats
      ])

  -- `_get_active_stats`
  abbrev pub get_active_stats : Entity → Dict ℤ
  unfolding triple_stats
  get_active_stats app_stats = triple_stats active_keys app_stats []

  -- `_get_cached_stats`
  abbrev pub get_cached_stats : Entity → Dict ℤ
  unfolding triple_stats
  get_cached_stats app_stats = triple_stats cached_keys app_stats []

  -- `_get_command_execution`
  abbrev pub get_command_execution : Entity → Dict ℤ
  unfolding triple_stats
  get_command_execution app_stats = triple_stats command_keys app_stats []

  -- `int(text)`
  abbrev pub to_int : Str → Result ℤ
  to_int s = or_raise (parse_int s) value_error

  -- the slots that are published only if their text is a number
  unfoldable pub high_slots : Option Str → Dict ℤ → Result (Dict ℤ)
  unfolding insert
  high_slots none stats = ok stats
  high_slots (some text) stats =
      if is_digit text
      then (do n ← to_int text; ok (insert (codes "external_command.buffer_high") n stats))
      else ok stats

  -- The test is a text, `str(text.isdigit())`, and so always true.
  unfoldable pub total_slots : Option Str → Dict ℤ → Result (Dict ℤ)
  unfolding insert
  total_slots none stats = ok stats
  total_slots (some text) stats = do
    n ← to_int text
    ok (insert (codes "external_command.buffer_total") n stats)

  -- Here too; and it is the text of the total that is read.
  unfoldable pub used_slots : Option Str → Option Str → Dict ℤ → Result (Dict ℤ)
  unfolding insert
  used_slots none total stats = ok stats
  used_slots (some text) total stats = do
    read ← or_raise total key_error
    n ← to_int read
    ok (insert (codes "external_command.buffer_used") n stats)

  -- The last of the three takes the place of the first.
  unfoldable pub command_stats : Option Str → Dict ℤ → Dict ℤ
  unfolding insert convert_tripplet
  command_stats none stats = stats
  command_stats (some text) stats =
      let (x01, x05, x15) = convert_tripplet text in
      insert (codes "external_command.01") x15
        (insert (codes "external_command.05") x05 (insert (codes "external_command.01") x01 stats))

  -- `_get_externalcmd_stats`
  unfoldable pub get_externalcmd_stats : Entity → Result (Dict ℤ)
  unfolding lookup high_slots total_slots used_slots command_stats
  get_externalcmd_stats app_stats = do
    let total = lookup (codes "total_external_command_buffer_slots") app_stats
    s1 ← high_slots (lookup (codes "high_external_command_buffer_slots") app_stats) []
    s2 ← total_slots total s1
    s3 ← used_slots (lookup (codes "used_external_command_buffer_slots") app_stats) total s2
    ok (command_stats (lookup (codes "external_command_stats") app_stats) s3)

  -- the seconds since the start, where the clock has not been put back
  abbrev pub seconds_since : ℤ → ℤ → ℤ
  unfolding ◌-ℤ◌
  seconds_since now start =
      let uptime = now -ℤ start in if ltb_ℤ uptime (pos 0) then pos 0 else uptime

  -- `_get_uptime`
  unfoldable pub get_uptime : ℤ → Entity → Result ℤ
  unfolding lookup ◌-ℤ◌
  get_uptime now app_stats = elim (lookup (codes "program_start") app_stats) [
    | none ↦ ok (pos 0)
    | some text ↦
        if is_digit text then (do start ← to_int text; ok (seconds_since now start)) else ok (pos 0)
  ]

  -- `get_icinga_stats`
  unfoldable pub get_icinga_stats : ℤ → Entity → Result (Dict ℤ)
  unfolding update insert get_externalcmd_stats get_uptime triple_stats
  get_icinga_stats now app_stats = do
    let checks = update (get_active_stats app_stats) (get_cached_stats app_stats)
    let commands = update checks (get_command_execution app_stats)
    external ← get_externalcmd_stats app_stats
    uptime ← get_uptime now app_stats
    ok (insert (codes "uptime") uptime (update commands external))
