-- ===== src/Mongo/Hosts.antt =====
-- The loop over the hosts in `collect` of src/diamond/collectors/mongodb/mongodb.py and
-- tokumx/tokumx.py.
use fullerite.Base.{ℕ, Bool, true, false, Option, none, some, List, [], ◌∷◌, map, if◌then◌else◌}
use fullerite.Base.Text.{Str, codes}
use fullerite.Base.Result.{Result, ok, err, type_error, key_error, or_raise, bind}
use fullerite.Base.Exec.{pure, lift, ◌>>=◌, ◌>>◌}
use fullerite.Python.{int, flt, Value, nil, num, str, strs}
use fullerite.Python.Convert.{value_int, value_float}
use fullerite.Collector.State.{World}
use fullerite.Collector.Config.{str_to_bool}
use fullerite.Collector.Publish.{is_true}
use fullerite.Collector.Run.{error_name}
use fullerite.Mongo.{Reading}
use fullerite.Mongo.Server.{
  Client, Connection, refused, client, split_host, base_prefix, host_list, is_single,
}
use fullerite.Mongo.Collect.{
  log_error, collect_mongo, collect_toku, convert, set_config, config_value, setting,
}

module _ (w : World) (depth : ℕ) (found : Str → Str → Bool) (crc32 : Str → ℕ) where
  open w use {float, float.{Carrier}}

  abbrev user_of : Str → Reading w depth (Value Carrier)
  user_of key = do
    v ← config_value w depth found crc32 key
    pure (elim v [ none ↦ nil | some u ↦ u ])

  -- `if user: conn.admin.authenticate(user, passwd)`
  abbrev pub login : Value Carrier → Value Carrier → Client Carrier → Option Str
  login user password cl = if is_true w user then cl.authenticate user password else none

  -- The connection, the login and the rest; false for `return`, which ends the loop over the hosts.
  unfoldable pub collect_connected :
      (Client Carrier → List Str → Reading w depth Unit)
      → Value Carrier
      → Value Carrier
      → List Str
      → Connection Carrier
      → Reading w depth Bool
  collect_connected rest user password base (refused e) = do
    log_error w depth found crc32 (some e)
    pure true
  collect_connected rest user password base (client cl) = elim (login user password cl) [
    | some e ↦ (do log_error w depth found crc32 (some e); pure false)
    | none ↦ (do rest cl base; pure true)
  ]

  -- The loop, for what is done with one host.
  unfoldable pub collect_hosts : (Str → Reading w depth Bool) → List Str → Reading w depth Unit
  collect_hosts one [] = pure tt
  collect_hosts one (h ∷ hs) = do
    let rest = collect_hosts one hs
    more ← one h
    if more then rest else pure tt

  abbrev int_value : Value Carrier → Result (Value Carrier)
  unfolding value_int
  int_value v = bind (value_int float v) λ n. ok (num (int n))

  abbrev float_value : Value Carrier → Result (Value Carrier)
  unfolding value_float
  float_value v = bind (value_float float v) λ x. ok (num (flt x))

  -- One host of MongoDB. Whether SSL is wanted is read in the `try` too.
  unfoldable pub mongo_host :
      (Option Str → Connection Carrier)
      → Value Carrier
      → Value Carrier
      → Bool
      → Str
      → Reading w depth Bool
  unfolding str_to_bool
  mongo_host connect user password single h = do
    let (alias, host) = split_host h
    base ← lift (base_prefix single alias host)
    ssl ← config_value w depth found crc32 (codes "ssl")
    elim ssl [
      | none ↦ (do log_error w depth found crc32 (some (error_name key_error)); pure true)
      | some v ↦ elim (str_to_bool v) [
        | err e ↦ (do log_error w depth found crc32 (some (error_name e)); pure true)
        | ok b ↦ (do
          set_config w depth found crc32 (codes "ssl") b
          collect_connected (collect_mongo w depth found crc32) user password base (connect host))
      ]
    ]

  -- One host of TokuMX: the alias is read where there are several hosts.
  unfoldable pub toku_host :
      (Option Str → Connection Carrier)
      → Value Carrier
      → Value Carrier
      → Bool
      → Str
      → Reading w depth Bool
  toku_host connect user password true h =
      collect_connected (collect_toku w depth found crc32) user password [] (connect (some h))
  toku_host connect user password false h = do
    let (alias, host) = split_host h
    base ← lift (base_prefix false alias host)
    collect_connected (collect_toku w depth found crc32) user password base (connect host)

  -- `hosts` of MongoDB: the single `host` if it is there
  abbrev mongo_hosts : Reading w depth (List Str)
  mongo_hosts = do
    many ← config_value w depth found crc32 (codes "hosts")
    single ← config_value w depth found crc32 (codes "host")
    lift (elim single [
      | some (str h) ↦ ok (h ∷ [])
      | some v ↦ err type_error
      | none ↦ bind (or_raise many type_error) host_list
    ])

  unfoldable pub collect_mongodb : (Option Str → Connection Carrier) → Reading w depth Unit
  unfolding int_value float_value
  collect_mongodb connect = do
    convert w depth found crc32 (codes "network_timeout") int_value
    convert w depth found crc32 (codes "collection_sample_rate") float_value
    user ← user_of (codes "user")
    password ← user_of (codes "passwd")
    hosts ← mongo_hosts
    collect_hosts (mongo_host connect user password (is_single hosts)) hosts

  -- `hosts` of TokuMX, after `host` has taken its place; the loop over a text takes its letters. A
  -- `host` is taken for a text.
  abbrev toku_hosts : Value Carrier → Result (List Str)
  toku_hosts (strs l) = ok l
  toku_hosts (str s) = ok (map (λ (c : ℕ). c ∷ []) s)
  toku_hosts v = err type_error

  abbrev host_as_list : Value Carrier → Value Carrier
  host_as_list (str s) = strs (s ∷ [])
  host_as_list v = nil

  abbrev set_hosts : Option (Value Carrier) → Reading w depth Unit
  set_hosts none = pure tt
  set_hosts (some h) = set_config w depth found crc32 (codes "hosts") (host_as_list h)

  unfoldable pub collect_tokumx : (Option Str → Connection Carrier) → Reading w depth Unit
  unfolding int_value
  collect_tokumx connect = do
    single ← config_value w depth found crc32 (codes "host")
    set_hosts single
    convert w depth found crc32 (codes "network_timeout") int_value
    user ← user_of (codes "user")
    password ← user_of (codes "passwd")
    many ← setting w depth found crc32 (codes "hosts")
    hosts ← lift (toku_hosts many)
    collect_hosts (toku_host connect user password (is_single hosts)) hosts
