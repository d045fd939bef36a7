-- ===== src/Loader.antt =====
-- src/diamond/utils/classes.py: the scan of directories for collector classes.
pub mod Classes
pub mod Dynamic
pub mod Scan
pub mod Finds
pub mod Complete
pub mod Include
use fullerite.Base.{
  ℕ, zero, suc, ◌<◌, String, Bool, true, false, ◌&&◌, ◌||◌, not, Option, none, some, List, [], ◌∷◌,
  ◌++◌, map, length, ltb, if◌then◌else◌,
}
use fullerite.Base.Text.{Str, codes, str_eq, str_mem, starts_with, ends_with, join, split, strip}
use fullerite.Base.Dict.{Dict, lookup, insert, update}
use fullerite.Base.Result.{
  Result, ok, err, os_error, attribute_error, keyboard_interrupt, system_exit, or_raise,
}
use fullerite.Base.Exec.{Exec, pure, raise, lift, modify, ◌>>=◌, ◌>>◌}
use fullerite.Collector.Run.{is_exception}
use fullerite.Loader.Classes.{
  Class, class_name, same_class, issubclass, collector_class, Object, class_object, other_object,
  Module, Import, module_of, fails, interrupted, exits, load_dynamic_class,
}

-- What is logged as an error; the dict that is returned does not tell of it.
pub data Failure : Type 0 where
  module_failed : Str → Failure
  module_interrupted : Str → Failure
  class_failed : Str → Failure

abbrev pub Log : Type 0
Log = List Failure

-- A directory's entries, in the order of `os.listdir`; an entry may be neither a file nor a
-- directory.
mutual
  pub data Entry : Type 0 where
    file : Str → Entry
    directory : Str → Entries → Entry
    other : Str → Entry

  pub data Entries : Type 0 where
    end : Entries
    entry : Entry → Entries → Entries

-- `f[:-3]`
abbrev pub module_name : Str → Str
module_name [] = []
module_name (a ∷ []) = []
module_name (a ∷ b ∷ []) = []
module_name (a ∷ b ∷ c ∷ []) = []
module_name (a ∷ b ∷ c ∷ d ∷ s) = a ∷ module_name (b ∷ c ∷ d ∷ s)

-- `os.path.join(path, f)` for a name without slashes
abbrev pub join_path : Str → Str → Str
join_path path f =
    if str_eq path [] || ends_with path (codes "/") then path ++ f else join b'/' (path ∷ f ∷ [])

-- The names of the files that are imported.
abbrev pub is_source : Str → Bool
is_source f =
    ltb 3 (length f)
    && ends_with f (codes ".py")
    && not (starts_with f (codes "test"))
    && not (starts_with f (codes "."))

abbrev pub is_skipped : Str → Bool
is_skipped path = ends_with path (codes "tests") || ends_with path (codes "fixtures")

abbrev pub log_failure : Failure → Exec Log (Unit {0})
log_failure f = modify (λ log. log ++ f ∷ [])

-- The collectors found so far.
abbrev pub Found : Type 0
Found = Dict Class

-- `inspect.isclass(attr) and issubclass(attr, Collector) and attr != Collector`
unfoldable pub is_collector : Object → Bool
unfolding issubclass
is_collector (class_object c) = issubclass c collector_class && not (same_class c collector_class)
is_collector other_object = false

-- The class that `load_dynamic_class` returned, or `except Exception`.
unfoldable pub add_class : Str → Found → Result Class → Exec Log Found
unfolding insert
add_class fqcn found (ok c) = pure (insert (class_name c) c found)
add_class fqcn found (err e) =
    if is_exception e then (do log_failure (class_failed fqcn); pure found) else raise e

module _ (import' : Str → Import) where
  -- the body of the loop over the attributes of a module
  unfoldable pub load_attribute : Str → Str → Object → Found → Exec Log Found
  unfolding load_dynamic_class is_collector add_class
  load_attribute modname attrname attr found =
      let fqcn = join b'.' (modname ∷ attrname ∷ []) in
      if is_collector attr && not (starts_with attrname (codes "parent_"))
      then add_class fqcn found (load_dynamic_class import' fqcn collector_class)
      else pure found

  -- the loop
  unfoldable pub load_attributes : Str → Module → List Str → Found → Exec Log Found
  unfolding load_attribute
  load_attributes modname mod' [] found = pure found
  load_attributes modname mod' (attrname ∷ names) found = do
    attr ← lift (or_raise (mod'.attribute attrname) attribute_error)
    found' ← load_attribute modname attrname attr found
    load_attributes modname mod' names found'

  -- What an import gives; one that fails is logged and skipped.
  unfoldable pub load_module : Str → Import → Found → Exec Log Found
  unfolding load_attributes
  load_module modname (module_of m) found = load_attributes modname m m.names found
  load_module modname fails found = do log_failure (module_failed modname); pure found
  load_module modname interrupted found = do
    log_failure (module_interrupted modname)
    raise keyboard_interrupt
  load_module modname exits found = do log_failure (module_interrupted modname); raise system_exit

  unfoldable pub load_file : Str → Found → Exec Log Found
  unfolding load_module
  load_file f found =
      let modname = module_name f in
      if is_source f then load_module modname (import' modname) found else pure found

-- `load_collectors` of one path, without a filter, and its loop over the entries. A path whose name
-- ends in `tests` or `fixtures` gives what was found so far; in a recursive call that is nothing.
unfoldable mutual
  unfolding load_file update

  pub load_entry : (Str → Import) → Str → Entry → Found → Exec Log Found
  load_entry import' path (file f) found = load_file import' f found
  load_entry import' path (other f) found = pure found
  load_entry import' path (directory f es) found =
      let inner = join_path path f in
      let scan = load_entries import' inner es [] in
      (if is_skipped inner then pure [] else scan) >>= λ sub. pure (update found sub)

  pub load_entries : (Str → Import) → Str → Entries → Found → Exec Log Found
  load_entries import' path end found = pure found
  load_entries import' path (entry e es) found =
      load_entry import' path e found >>= λ found'. load_entries import' path es found'

-- A text of paths, `map(str.strip, paths.split(','))`
abbrev pub split_paths : Str → List Str
split_paths s = map strip (split b',' s)

-- A path that `load_collectors` is given: what is there, if it exists.
pub record Root : Type 0 where
  pub path : Str
  pub listing : Option Entries

-- The loop over the paths: a path whose name ends in `tests` or `fixtures` ends it.
unfoldable pub load_collectors : (Str → Import) → List Root → Found → Exec Log Found
unfolding load_entries
load_collectors import' [] found = pure found
load_collectors import' (r ∷ rs) found =
    let scan = λ (es : Entries).
      load_entries import' r.path es found >>= λ found'. load_collectors import' rs found' in
    elim r.listing [
      | none ↦ raise os_error
      | some es ↦ if is_skipped r.path then pure found else scan es
    ]

-- `load_include_path`: each directory is put behind the first place of the path, unless it is
-- there already, and then its subdirectories are.
abbrev pub insert_second : Str → List Str → List Str
insert_second p [] = p ∷ []
insert_second p (q ∷ ps) = q ∷ p ∷ ps

abbrev pub include : Str → List Str → List Str
include p ps = if str_mem p ps then ps else insert_second p ps

unfoldable mutual
  pub include_entry : Str → Entry → List Str → List Str
  include_entry path (file f) ps = ps
  include_entry path (other f) ps = ps
  include_entry path (directory f es) ps =
      let inner = join_path path f in include_entries inner es (include inner ps)

  pub include_entries : Str → Entries → List Str → List Str
  include_entries path end ps = ps
  include_entries path (entry e es) ps = include_entries path es (include_entry path e ps)

unfoldable pub load_include_path : List (Str × Option Entries) → List Str → List Str
unfolding include_entries
load_include_path [] ps = ps
load_include_path ((path, none) ∷ rs) ps = load_include_path rs ps
load_include_path ((path, some es) ∷ rs) ps =
    load_include_path rs (include_entries path es (include path ps))
