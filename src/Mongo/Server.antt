-- ===== src/Mongo/Server.antt =====
-- What `collect` reads in src/diamond/collectors/mongodb/mongodb.py and tokumx/tokumx.py, for what pymongo
-- gives for a host. A host is a text without a line break.
use fullerite.Base.{ℕ, Bool, true, false, ◌==◌, Option, none, some, List, [], ◌∷◌, if◌then◌else◌}
use fullerite.Base.Int.{pos}
use fullerite.Base.Text.{Str, codes, replace_char}
use fullerite.Base.Dict.{Dict, update}
use fullerite.Base.Result.{Result, ok, err, type_error, bind}
use fullerite.Python.{int, Value, nil, bool, num, str, strs}
use fullerite.Collector.Config.{get_default_config}
use fullerite.Json.{Json, null, Fields, no_fields, field, get_field, set_field}

-- A connection: what the server's commands return, and `authenticate`, which may raise an exception
-- of the given name.
pub record Client (F : Type 0) : Type 0 where
  pub status : Result (Fields F)
  pub engine_status : Result (Fields F)
  pub databases : Result (List Str)
  pub database_stats : Str → Result (Fields F)
  pub collections : Str → Result (List Str)
  pub collection_stats : Str → Str → Result (Fields F)
  pub authenticate : Value F → Value F → Option Str

-- What `pymongo.Connection` gives: an exception of the given name, or a connection.
pub data Connection (F : Type 0) : Type 0 where
  refused : Str → Connection F
  client : Client F → Connection F

-- `MAX_CRC32`
abbrev pub max_crc32 : ℕ
max_crc32 = 4_294_967_295

-- The text before and behind the last `@`.
abbrev pub last_at : Str → Option (Str × Str)
last_at [] = none
last_at (c ∷ s) = elim (last_at s) [
  | some (before, after) ↦ some (c ∷ before, after)
  | none ↦ if c == b'@' then some ([], s) else none
]

abbrev some_text : Str → Option Str
some_text [] = none
some_text s = some s

-- The alias and the host that `((.+)\@)?(.+)?` finds.
unfoldable pub split_host : Str → Option Str × Option Str
split_host s = elim (last_at s) [
  | some (c ∷ before, after) ↦ (some (c ∷ before), some_text after)
  | some ([], after) ↦ (none, some s)
  | none ↦ (none, some_text s)
]

-- `re.sub('[:\.]', '_', host)`
abbrev pub underscored : Option Str → Result Str
underscored (some s) = ok (replace_char b':' b'_' (replace_char b'.' b'_' s))
underscored none = err type_error

-- The prefix of a host's metrics, where it is one of several or not.
abbrev pub base_prefix : Bool → Option Str → Option Str → Result (List Str)
base_prefix single (some alias) host = ok (alias ∷ [])
base_prefix true none host = ok []
base_prefix false none host = bind (underscored host) λ s. ok (s ∷ [])

-- The hosts of a configuration's value.
abbrev pub host_list : {F : Type 0} → Value F → Result (List Str)
host_list (str s) = ok (s ∷ [])
host_list (strs l) = ok l
host_list v = err type_error

abbrev pub is_single : List Str → Bool
is_single (h ∷ []) = true
is_single l = false

-- `dict(a.items() + b.items())`
unfoldable pub merge_fields : {F : Type 0} → Fields F → Fields F → Fields F
unfolding set_field
merge_fields a no_fields = a
merge_fields a (field k v b) = merge_fields (set_field k v a) b

-- `data.get(key)`, where None stands for a missing key
abbrev pub field_or_null : {F : Type 0} → Str → Fields F → Json F
unfolding get_field
field_or_null key fs = elim (get_field key fs) [ none ↦ null | some v ↦ v ]

-- `_extract_simple_data`
unfoldable pub extract_simple_data : {F : Type 0} → Fields F → Fields F
unfolding field_or_null
extract_simple_data fs = field (codes "connections") (field_or_null (codes "connections") fs) (
    field (codes "globalLock") (field_or_null (codes "globalLock") fs)
      (field (codes "indexCounters") (field_or_null (codes "indexCounters") fs) no_fields))

-- `get_default_config` of TokuMX
abbrev pub toku_default : {F : Type 0} → Dict (Value F)
toku_default = update get_default_config (
    (codes "path", str (codes "mongo"))
    ∷ (codes "hosts", strs (codes "localhost" ∷ []))
    ∷ (codes "user", nil)
    ∷ (codes "passwd", nil)
    ∷ (codes "databases", str (codes ".*"))
    ∷ (codes "ignore_collections", str (codes "^tmp\\.mr\\."))
    ∷ (codes "network_timeout", nil)
    ∷ (codes "simple", str (codes "False"))
    ∷ (codes "translate_collections", str (codes "False"))
    ∷ [])

-- `get_default_config` of MongoDB
abbrev pub mongo_default : {F : Type 0} → Dict (Value F)
mongo_default =
    update toku_default
      ((codes "collection_sample_rate", num (int (pos 1))) ∷ (codes "ssl", bool false) ∷ [])
