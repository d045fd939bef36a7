-- ===== src/Icinga/Parse.antt =====
-- The file status.dat: `parse_stats_file`, `_parse_config_buffer` and `_trim` of
-- src/diamond/collectors/icinga_stats/icinga_stats.py, for the lines of the file.
use fullerite.Base.{
  ℕ, Bool, true, false, ◌||◌, ◌==◌, Option, none, some, List, [], ◌∷◌, ◌++◌, if◌then◌else◌,
}
use mathlib.Core.List.{reverse}
use fullerite.Base.Text.{Str, codes, str_eq, starts_with, ends_with, split, join, strip}
use fullerite.Base.Dict.{Dict, lookup, insert}

-- What a block of the file gives: its keys with their texts, and its type under `_type`.
abbrev pub Entity : Type 0
Entity = Dict Str

-- The dict that is returned. The two types that hold one entity are fields, all others lists.
pub record Stats : Type 0 where
  pub info : Option Entity
  pub programstatus : Option Entity
  pub others : Dict (List Entity)

abbrev pub no_stats : Stats
no_stats = record { info = none; programstatus = none; others = [] }

-- What the loop over the lines keeps.
pub record Reading : Type 0 where
  pub stats : Stats
  pub fbuffer : List Str
  pub save_buffer : Bool

abbrev pub no_reading : Reading
no_reading = record { stats = no_stats; fbuffer = []; save_buffer = false }

-- `_trim`
abbrev pub trim : Str → Str
trim = strip

-- a text from its end, without the given character
abbrev pub drop_char : ℕ → Str → Str
drop_char d [] = []
drop_char d (c ∷ s) = let rest = drop_char d s in if c == d then rest else c ∷ s

-- `s.rstrip(d)`, of one character
abbrev pub rstrip_char : ℕ → Str → Str
rstrip_char d s = reverse (drop_char d (reverse s))

-- one chunk, by its parts between the equals signs
unfoldable pub add_chunk : List Str → Entity → Entity
unfolding insert
add_chunk [] entity = entity
add_chunk (k ∷ []) entity = entity
add_chunk (k ∷ v ∷ vs) entity = insert (trim k) (trim (join b'=' (v ∷ vs))) entity

unfoldable pub add_chunks : List Str → Entity → Entity
unfolding add_chunk split
add_chunks [] entity = entity
add_chunks (chunk ∷ chunks) entity = add_chunks chunks (add_chunk (split b'=' chunk) entity)

-- `_parse_config_buffer`
unfoldable pub parse_config_buffer : List Str → Entity
unfolding add_chunks
parse_config_buffer [] = []
parse_config_buffer (first ∷ chunks) =
    if ends_with first (codes "{")
    then add_chunks chunks ((codes "_type", trim (rstrip_char b'{' first)) ∷ [])
    else []

abbrev pub list_or_empty : Option (List Entity) → List Entity
list_or_empty none = []
list_or_empty (some l) = l

-- an entity of a type, put into the dict
unfoldable pub store : Str → Entity → Stats → Stats
unfolding lookup insert
store kind entity s =
    if str_eq kind (codes "info")
    then record s { info = some entity }
    else if str_eq kind (codes "programstatus")
    then record s { programstatus = some entity }
    else record s {
      others = insert kind (list_or_empty (lookup kind s.others) ++ entity ∷ []) s.others;
    }

-- a parsed block, which is passed over if it is empty
unfoldable pub store_entity : Entity → Stats → Stats
unfolding store lookup
store_entity entity s = elim (lookup (codes "_type") entity) [
  | none ↦ s
  | some kind ↦ store kind entity s
]

-- the body of the loop, for a line that is trimmed already
unfoldable pub read_trimmed : Str → Reading → Reading
unfolding parse_config_buffer store_entity
read_trimmed line r =
    if str_eq line [] || starts_with line (codes "#")
    then r
    else if ends_with line (codes "{")
    then record r { save_buffer = true; fbuffer = r.fbuffer ++ line ∷ [] }
    else if ends_with line (codes "}")
    then record r { fbuffer = []; stats = store_entity (parse_config_buffer r.fbuffer) r.stats }
    else if r.save_buffer
    then record r { fbuffer = r.fbuffer ++ line ∷ [] }
    else r

abbrev pub read_line : Str → Reading → Reading
unfolding read_trimmed
read_line line r = read_trimmed (trim (rstrip_char 10 line)) r

unfoldable pub read_lines : List Str → Reading → Reading
unfolding read_trimmed
read_lines [] r = r
read_lines (l ∷ ls) r = read_lines ls (read_line l r)

-- `parse_stats_file`; none is a file that cannot be opened, whose exception is logged.
unfoldable pub parse_stats_file : Option (List Str) → Stats
unfolding read_lines
parse_stats_file none = no_stats
parse_stats_file (some lines) = Reading.stats (read_lines lines no_reading)
