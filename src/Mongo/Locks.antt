-- ===== src/Mongo/Locks.antt =====
-- `_publish_transformed` of src/diamond/collectors/mongodb/mongodb.py and tokumx/tokumx.py.
pub mod Ignored
use fullerite.Base.{
  ℕ, String, Bool, true, false, ◌||◌, Option, none, some, List, [], ◌∷◌, ◌++◌, map, if◌then◌else◌,
}
use fullerite.Base.Int.{pos}
use fullerite.Base.Text.{Str, codes, join}
use fullerite.Base.Dict.{lookup}
use fullerite.Base.Result.{Result, ok, err, attribute_error, type_error, bind}
use fullerite.Base.Exec.{pure, lift, gets, ◌>>=◌, ◌>>◌}
use fullerite.Python.{Num, int, flt, Value, num, str, pattern}
use fullerite.Python.Arith.{float_div}
use fullerite.Python.Convert.{value_float}
use fullerite.Collector.State.{World, config_get}
use fullerite.Collector.Config.{compile}
use fullerite.Collector.Publish.{is_true}
use fullerite.Collector.Run.{publish_counter}
use fullerite.Json.{
  Json, null, text, items, object, no_items, Fields, no_fields, get_field, set_field, remove_field,
  field_names,
}
use fullerite.Mongo.{
  Reading, on_collector, publish_fields, publish_key, count_value, is_falsy, dotted_value, plus,
  compute_interval, counting, publish_percent,
}

-- For `search` of a compiled pattern.
module _ (w : World) (depth : ℕ) (found : Str → Str → Bool) where
  open w use {float, float.{Carrier}}

  -- `data.get(key, {})`, which is taken for a dict; what cannot be iterated raises.
  abbrev pub section : Str → Fields Carrier → Result (Fields Carrier)
  unfolding get_field
  section key fs = elim (get_field key fs) [
    | none ↦ ok no_fields
    | some (object f) ↦ ok f
    | some (text []) ↦ ok no_fields
    | some (items no_items) ↦ ok no_fields
    | some v ↦ err type_error
  ]

  abbrev pub base_with : List Str → Str → List Str
  base_with base s = base ++ s ∷ []

  -- the counters of a whole section, and the counter of one key of it
  unfoldable pub count_section : List Str → Str → Str → Fields Carrier → Reading w depth Unit
  count_section base key published fs = do
    f ← lift (section key fs)
    on_collector w depth (publish_fields w depth (count_value w depth) (base_with base published) f)

  unfoldable pub count_key : List Str → Str → Str → Str → Fields Carrier → Reading w depth Unit
  count_key base key published one fs = do
    f ← lift (section key fs)
    on_collector w depth
        (publish_key w depth (count_value w depth) (base_with base published) one f)

  -- `if '.' in locks`
  unfoldable pub rename_global : Fields Carrier → Fields Carrier
  unfolding get_field set_field remove_field
  rename_global locks = elim (get_field (codes ".") locks) [
    | none ↦ locks
    | some v ↦ remove_field (codes ".") (set_field (codes "_global_") v locks)
  ]

  -- `float(a + b) / 10`
  abbrev pub tenth : Json Carrier → Json Carrier → Result Carrier
  unfolding value_float float_div
  tenth a b = bind (plus w depth a b) λ s. bind (value_float float s) λ x. float_div float x 10

  -- what is looked up for a share of the time, by the texts around the database's name
  abbrev pub share : Fields Carrier → Str → Str → Str → Result (Json Carrier)
  share locks before db after = dotted_value w depth (object locks) (before ++ db ++ after)

  abbrev pub read_share : Fields Carrier → Str → Result Carrier
  read_share locks db =
      bind (share locks [] db (codes ".timeLockedMicros.r"))
        λ r. bind (share locks (codes ".") db (codes ".timeLockedMicros.R")) λ all. tenth r all

  abbrev pub write_share : Fields Carrier → Str → Result Carrier
  write_share locks db =
      bind (share locks [] db (codes ".timeLockedMicros.w"))
        λ r. bind (share locks [] db (codes ".timeLockedMicros.W")) λ all. tenth r all

  -- `if value: self.publish_counter(...)`
  unfoldable pub count_share : List Str → Num Carrier → Str → Str → Carrier → Reading w depth Unit
  count_share base interval db kind x =
      if is_true w (num (flt x))
      then on_collector w depth (
          publish_counter w depth
            (join b'.' (base ++ codes "percent" ∷ []) ++ codes ".locks." ++ db ++ kind) (flt x) 0
            (counting w depth interval))
      else pure tt

  unfoldable pub publish_lock : List Str → Num Carrier → Fields Carrier → Str → Reading w depth Unit
  publish_lock base interval locks db = do
    r ← lift (read_share locks db)
    count_share base interval db (codes ".read") r
    x ← lift (write_share locks db)
    count_share base interval db (codes ".write") x

  unfoldable pub publish_locks :
      List Str → Num Carrier → Str → Fields Carrier → List Str → Reading w depth Unit
  publish_locks base interval filter locks [] = pure tt
  publish_locks base interval filter locks (db ∷ dbs) = do
    if found filter db then publish_lock base interval locks db else pure tt
    publish_locks base interval filter locks dbs

  -- the pattern of what `re.compile` returns
  abbrev pub pattern_of : Value Carrier → Result Str
  pattern_of (pattern p) = ok p
  pattern_of v = err type_error

  -- `self.config[key]` compiled
  abbrev pub compiled : Str → Reading w depth Str
  compiled key = do v ← on_collector w depth (config_get key); lift (bind (compile w v) pattern_of)

  -- `locks = data.get('locks')` and what follows it. The renaming changes the document itself.
  unfoldable pub transform_locks : List Str → Fields Carrier → Reading w depth (Fields Carrier)
  unfolding get_field set_field
  transform_locks base fs = elim (get_field (codes "locks") fs) [
    | none ↦ pure fs
    | some (object locks) ↦
        let renamed = rename_global locks in
        let changed = set_field (codes "locks") (object renamed) fs in
        if is_falsy w depth (object locks) then pure fs else (do
          filter ← compiled (codes "databases")
          interval ← compute_interval w depth base (object changed) (codes "uptimeMillis")
          publish_locks base interval filter renamed (field_names renamed)
          pure changed)
    | some v ↦ if is_falsy w depth v then pure fs else lift (err type_error)
  ]

  -- the percentages and the locks, by the names of values and totals
  unfoldable pub publish_percents :
      List Str → List (String × String) → Fields Carrier → Reading w depth Unit
  publish_percents base [] fs = pure tt
  publish_percents base ((value, total) ∷ names) fs = do
    publish_percent w depth base (codes value) (codes total) (object fs)
    publish_percents base names fs

  -- `_publish_transformed` of MongoDB
  unfoldable pub publish_transformed : List Str → Fields Carrier → Reading w depth (Fields Carrier)
  publish_transformed base fs = do
    count_section base (codes "opcounters") (codes "opcounters_per_sec") fs
    count_section base (codes "opcountersRepl") (codes "opcountersRepl_per_sec") fs
    count_key base (codes "backgroundFlushing") (codes "backgroundFlushing_per_sec")
        (codes "flushes") fs
    count_section base (codes "network") (codes "network_per_sec") fs
    count_key base (codes "extra_info") (codes "extra_info_per_sec") (codes "page_faults") fs
    publish_percents base
        (("globalLock.lockTime", "globalLock.totalTime")
          ∷ ("indexCounters.btree.misses", "indexCounters.btree.accesses")
          ∷ [])
        fs
    transform_locks base fs

  -- `_publish_transformed` of TokuMX
  unfoldable pub publish_transformed_toku :
      List Str → Fields Carrier → Reading w depth (Fields Carrier)
  publish_transformed_toku base fs = do
    count_section base (codes "opcounters") (codes "opcounters_per_sec") fs
    count_section base (codes "opcountersRepl") (codes "opcountersRepl_per_sec") fs
    count_section base (codes "network") (codes "network_per_sec") fs
    count_key base (codes "extra_info") (codes "extra_info_per_sec") (codes "page_faults") fs
    publish_percents base (("globalLock.lockTime", "globalLock.totalTime") ∷ []) fs
    transform_locks base fs
