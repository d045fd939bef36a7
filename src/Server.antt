-- ===== src/Server.antt =====
-- src/diamond/server.py: one round of `Server.run`, which starts and stops the processes of the
-- collectors; and `initialize_collector` of src/diamond/utils/classes.py.
pub mod Rounds
pub mod Unique
pub mod Loop
use fullerite.Base.{
  String, Bool, true, false, ◌&&◌, not, Option, none, some, List, [], ◌∷◌, ◌++◌, map, if◌then◌else◌,
}
use fullerite.Base.Text.{Str, codes, str_eq, str_mem, contains, words, split, join, replace_char}
use fullerite.Base.Dict.{Dict, lookup, insert}
use fullerite.Base.Result.{Error, Result, ok, err, index_error, or_raise, ◌>>=◌}
use fullerite.Collector.Run.{is_exception}

-- What the server is given: the classes that the scan of the collectors' directories found, with
-- their `__name__`; the reader of a collector's own file, which may raise; and the constructors.
pub record Site : Type 1 where
  pub Class : Type 0
  pub Instance : Type 0
  pub Settings : Type 0
  pub class_name : Class → Str
  pub load_config : Str → Result Settings
  pub construct : Class → Str → Settings → Result Instance

-- `self.config`: the names under `diamondCollectors`, and the directory of their files.
pub record ServerConfig : Type 0 where
  pub collectors : List Str
  pub config_path : Str

pub record Child (I : Type 0) : Type 0 where
  pub name : Str
  pub instance' : I

-- the names of the running processes
abbrev pub child_names : {I : Type 0} → List (Child I) → List Str
child_names [] = []
child_names (c ∷ cs) = c.name ∷ child_names cs

-- `set(names)`, in the order of the first occurrences from the right
abbrev pub to_set : List Str → List Str
to_set [] = []
to_set (n ∷ ns) = let rest = to_set ns in if str_mem n rest then rest else n ∷ rest

-- `a - b` on sets
abbrev pub difference : List Str → List Str → List Str
difference [] b = []
difference (n ∷ a) b = let rest = difference a b in if str_mem n b then rest else n ∷ rest

-- `'Collector' in name`
abbrev pub is_collector_name : Str → Bool
is_collector_name name = contains name (codes "Collector")

module _ {I : Type 0} where
  -- `process.terminate()` for each child of that name; what terminates is no child in the next round
  unfoldable pub terminate : Str → List (Child I) → List (Child I)
  terminate name [] = []
  terminate name (c ∷ cs) =
      let rest = terminate name cs in if str_eq c.name name then rest else c ∷ rest

  -- the loop over the processes that are running but should not be
  unfoldable pub stop_all : List Str → List (Child I) → List (Child I)
  stop_all [] cs = cs
  stop_all (n ∷ ns) cs = stop_all ns (if is_collector_name n then terminate n cs else cs)

-- the last of the parts
abbrev last_part : List Str → Str
last_part [] = []
last_part (p ∷ []) = p
last_part (p ∷ q ∷ ps) = last_part (q ∷ ps)

module _ (site : Site) where
  open site use {Class, Instance, Settings, class_name, load_config, construct}

  -- `dict((cls.__name__.split('.')[-1], cls) for cls in collectors.values())`
  unfoldable pub collector_classes : List Class → Dict Class → Dict Class
  collector_classes [] d = d
  collector_classes (c ∷ cs) d =
      collector_classes cs (insert (last_part (split b'.' (class_name c))) c d)

  -- `initialize_collector`: any Exception of the constructor is logged, and there is no collector.
  unfoldable pub initialize_collector : Class → Str → Settings → Result (Option Instance)
  initialize_collector cls name settings = elim (construct cls name settings) [
    | ok i ↦ ok (some i)
    | err e ↦ if is_exception e then ok none else err e
  ]

  -- the path of a collector's own file; every space becomes an underscore
  abbrev pub config_file : Str → Str → Str
  config_file config_path process_name =
      replace_char b' ' b'_' (join b'/' (config_path ∷ process_name ∷ [])) ++ codes ".conf"

  abbrev first_word : List Str → Result Str
  first_word [] = err index_error
  first_word (n ∷ ns) = ok n

  -- a child for an instance
  abbrev child_of : Str → Option Instance → Option (Child Instance)
  child_of name none = none
  child_of name (some i) = some (record { name = name; instance' = i })

  abbrev create : Str → Str → Option Class → Result (Option (Child Instance))
  create config_path name none = ok none
  create config_path name (some cls) = do
    settings ← load_config (config_file config_path name)
    made ← initialize_collector cls name settings
    ok (child_of name made)

  -- The body of the loop over the processes that should be running: the new child, or none where
  -- the name is skipped. The first word of the name is the class.
  unfoldable pub launch : Str → Dict Class → Str → Result (Option (Child Instance))
  launch config_path classes name = do
    word ← first_word (words name)
    if is_collector_name word then create config_path name (lookup word classes) else ok none

  abbrev pub append_child : List (Child Instance) → Option (Child Instance) → List (Child Instance)
  append_child cs none = cs
  append_child cs (some c) = cs ++ c ∷ []

  -- An exception here is caught nowhere, and ends the server.
  unfoldable pub start_all :
      Str → Dict Class → List Str → List (Child Instance) → Result (List (Child Instance))
  start_all config_path classes [] cs = ok cs
  start_all config_path classes (n ∷ ns) cs = do
    child ← launch config_path classes n
    start_all config_path classes ns (append_child cs child)

  -- One round: from the active children to those of the next round.
  unfoldable pub round :
      ServerConfig → List Class → List (Child Instance) → Result (List (Child Instance))
  round config found active =
      let running = to_set (child_names active) in
      let wanted = to_set config.collectors in
      let kept = stop_all (difference running wanted) active in
      let classes = collector_classes found [] in
      start_all config.config_path classes (difference wanted running) kept
