-- ===== src/Mongo/Collect.antt =====
-- `collect` of src/diamond/collectors/mongodb/mongodb.py and tokumx/tokumx.py, for what pymongo
-- gives for a host, and for `search` of a compiled pattern and zlib's `crc32`.
use fullerite.Base.{ℕ, Bool, false, ◌||◌, Option, none, some, List, [], ◌∷◌, ◌++◌, if◌then◌else◌}
use fullerite.Base.Int.{pos}
use fullerite.Base.Text.{Str, codes, replace_char}
use fullerite.Base.Dict.{lookup, insert}
use fullerite.Base.Result.{Result, ok, err, type_error, bind}
use fullerite.Base.Exec.{pure, lift, modify, ◌>>=◌, ◌>>◌}
use fullerite.Python.{Num, int, Value, bool, num, str}
use fullerite.Python.Arith.{num_scale, num_lt}
use fullerite.Collector.State.{World, config_get}
use fullerite.Collector.Config.{str_to_bool}
use fullerite.Collector.Publish.{is_true, report_error}
use fullerite.Json.{Fields}
use fullerite.Mongo.{Reading, on_collector, publish_value, publish_fields}
use fullerite.Mongo.Locks.{compiled, publish_transformed, publish_transformed_toku}
use fullerite.Mongo.Server.{Client, max_crc32, merge_fields, extract_simple_data}

module _ (w : World) (depth : ℕ) (found : Str → Str → Bool) (crc32 : Str → ℕ) where
  open w use {float, float.{Carrier}}

  abbrev pub setting : Str → Reading w depth (Value Carrier)
  setting key = on_collector w depth (config_get key)

  abbrev pub config_value : Str → Reading w depth (Option (Value Carrier))
  config_value key s = (ok (lookup key s.collector.config), s)

  -- `self.config[key] = v`
  abbrev pub set_config : Str → Value Carrier → Reading w depth Unit
  set_config key v = modify (λ s. record s {
    collector = record s.collector { config = insert key v s.collector.config };
  })

  -- `if self.config[key]: self.config[key] = f(self.config[key])`
  unfoldable pub convert : Str → (Value Carrier → Result (Value Carrier)) → Reading w depth Unit
  convert key f = do
    v ← setting key
    if is_true w v then (lift (f v) >>= set_config key) else pure tt

  -- `str_to_bool(self.config[key])` as a condition
  abbrev pub switch : Str → Reading w depth Bool
  switch key = do v ← setting key; b ← lift (str_to_bool v); pure (is_true w b)

  abbrev pub log_error : Option Str → Reading w depth Unit
  log_error e = on_collector w depth (report_error w depth e)

  -- `_publish_dict_with_prefix` with `publish`
  abbrev pub publish_all : Fields Carrier → List Str → Reading w depth Unit
  publish_all fs prefix =
      on_collector w depth (publish_fields w depth (publish_value w depth) prefix fs)

  -- `collection_sample_rate < 1`, and the threshold; a text is above every number.
  abbrev pub sampling : Value Carrier → Result (Option (Num Carrier))
  unfolding num_lt num_scale
  sampling (num n) =
      if num_lt float n (int (pos 1))
      then bind (num_scale float n max_crc32) (λ t. ok (some t))
      else ok none
  sampling (bool b) = if b then ok none else ok (some (int (pos 0)))
  sampling (str s) = ok none
  sampling v = err type_error

  -- whether the sampling leaves a collection out
  abbrev pub is_left_out : Option (Num Carrier) → Str → Bool
  unfolding num_lt
  is_left_out none name = false
  is_left_out (some threshold) name = num_lt float threshold (int (pos (crc32 name)))

  unfoldable pub collect_collection : Client Carrier → Str → List Str → Str → Reading w depth Unit
  collect_collection cl db prefix name = do
    stats ← lift (cl.collection_stats db name)
    translated ← switch (codes "translate_collections")
    publish_all stats (prefix ++ (if translated then replace_char b'.' b'_' name else name) ∷ [])

  -- the collections of a database, for the ones that are passed over
  unfoldable pub collect_collections :
      (Str → Bool) → Client Carrier → Str → List Str → List Str → Reading w depth Unit
  collect_collections ignored cl db prefix [] = pure tt
  collect_collections ignored cl db prefix (name ∷ names) = do
    if ignored name then pure tt else collect_collection cl db prefix name
    collect_collections ignored cl db prefix names

  unfoldable pub collect_database :
      (Str → Bool) → Client Carrier → List Str → Str → Reading w depth Unit
  collect_database ignored cl base db = do
    stats ← lift (cl.database_stats db)
    let prefix = base ++ codes "databases" ∷ db ∷ []
    publish_all stats prefix
    names ← lift (cl.collections db)
    collect_collections ignored cl db prefix names

  unfoldable pub collect_databases :
      (Str → Bool) → (Str → Bool) → Client Carrier → List Str → List Str → Reading w depth Unit
  collect_databases wanted ignored cl base [] = pure tt
  collect_databases wanted ignored cl base (db ∷ dbs) = do
    if wanted db then collect_database ignored cl base db else pure tt
    collect_databases wanted ignored cl base dbs

  -- the server's own values, those of `simple` or all
  unfoldable pub collect_status : Fields Carrier → List Str → Reading w depth Unit
  collect_status fs base = do
    simple ← switch (codes "simple")
    publish_all (if simple then extract_simple_data fs else fs) base

  -- A host of MongoDB, once there is a connection.
  unfoldable pub collect_mongo : Client Carrier → List Str → Reading w depth Unit
  collect_mongo cl base = do
    fs ← lift cl.status
    changed ← publish_transformed w depth found base fs
    collect_status changed base
    wanted ← compiled w depth found (codes "databases")
    ignored ← compiled w depth found (codes "ignore_collections")
    rate ← setting (codes "collection_sample_rate")
    threshold ← lift (sampling rate)
    dbs ← lift cl.databases
    collect_databases (found wanted) (λ name. found ignored name || is_left_out threshold name) cl
        base dbs

  -- A host of TokuMX, once there is a connection.
  unfoldable pub collect_toku : Client Carrier → List Str → Reading w depth Unit
  collect_toku cl base = do
    status ← lift cl.status
    engine ← lift cl.engine_status
    changed ← publish_transformed_toku w depth found base (merge_fields status engine)
    collect_status changed base
    wanted ← compiled w depth found (codes "databases")
    ignored ← compiled w depth found (codes "ignore_collections")
    dbs ← lift cl.databases
    collect_databases (found wanted) (found ignored) cl base dbs
