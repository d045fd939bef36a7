-- ===== src/MySql/Innodb.antt =====
-- The loop over the lines of SHOW ENGINE INNODB STATUS, in `get_stats` of
-- src/diamond/collectors/mysqlstat/mysqlstat.py, for what the patterns match.
use fullerite.Base.{Bool, true, Option, none, some, List, [], ◌∷◌, if◌then◌else◌}
use fullerite.Base.Text.{Str, str_mem, split}
use fullerite.Base.Dict.{Dict, insert}
use fullerite.Python.{Float}

-- The groups of a pattern in a line, by the pattern's key; a group that takes no part is none.
abbrev pub Matches : Type 0
Matches = Str → Str → Option (List (Option Str))

-- What has been read, and whether an exception has ended the loop.
pub record Values (F : Type 0) : Type 0 where
  pub read : Dict F
  pub failed : Bool

module _ (fl : Float) (sections : List Str) where
  open fl use {Carrier, parse}

  abbrev pub parse_group : Option Str → Option Carrier
  parse_group none = none
  parse_group (some s) = parse s

  -- `float(match.group(match_index))`, and where the name is no section yet, the value
  abbrev pub put : Str → Option Carrier → Values Carrier → Values Carrier
  unfolding insert
  put name none v = record v { failed = true }
  put name (some x) v =
      if str_mem name sections then v else record v { read = insert name x v.read }

  -- The names of a key beside the groups. A name without a group is passed over; a group that is
  -- no number ends the loop.
  unfoldable pub store_groups : List Str → List (Option Str) → Values Carrier → Values Carrier
  unfolding insert
  store_groups [] groups v = v
  store_groups (name ∷ names) [] v = v
  store_groups (name ∷ names) (g ∷ groups) v =
      let next = put name (parse_group g) v in
      let rest = store_groups names groups next in if next.failed then next else rest

  -- What follows the match of the last key, and of a key with others behind it: it is removed while
  -- the list is being gone through, so that the key after it is not tried.
  abbrev pub last_match :
      Option (List (Option Str)) → Str → Values Carrier → List Str × Values Carrier
  unfolding store_groups split
  last_match none k v = (k ∷ [], v)
  last_match (some groups) k v = ([], store_groups (split b',' k) groups v)

  abbrev pub after_match :
      Option (List (Option Str))
      → Str
      → Str
      → List Str
      → Values Carrier
      → List Str × Values Carrier
      → (Values Carrier → List Str × Values Carrier)
      → List Str × Values Carrier
  unfolding store_groups split
  after_match none k next keys v missed more = (k ∷ missed.0, missed.1)
  after_match (some groups) k next keys v missed more =
      let stored = store_groups (split b',' k) groups v in
      let (todo, after) = more stored in
      if stored.failed then (next ∷ keys, stored) else (next ∷ todo, after)

  -- One line against the keys still to do.
  unfoldable pub read_keys : Matches → Str → List Str → Values Carrier → List Str × Values Carrier
  unfolding last_match after_match
  read_keys matches line [] v = ([], v)
  read_keys matches line (k ∷ []) v = last_match (matches k line) k v
  read_keys matches line (k ∷ next ∷ keys) v =
      after_match (matches k line) k next keys v (read_keys matches line (next ∷ keys) v)
        (read_keys matches line keys)

  unfoldable pub read_status_lines :
      Matches → List Str → List Str → Values Carrier → List Str × Values Carrier
  unfolding read_keys
  read_status_lines matches [] todo v = (todo, v)
  read_status_lines matches (l ∷ ls) todo v =
      let (left, next) = read_keys matches l todo v in
      let rest = read_status_lines matches ls left next in
      if next.failed then (left, next) else rest
