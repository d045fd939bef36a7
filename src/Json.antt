-- ===== src/Json.antt =====
-- JSON documents, as `json.load` and pymongo give them to the collectors.
use fullerite.Base.{Bool, Option, none, some, List, [], ◌∷◌, if◌then◌else◌}
use fullerite.Base.Text.{Str, str_eq}
use fullerite.Base.Result.{Result, ok, err, attribute_error, key_error, type_error, or_raise}
use fullerite.Python.{Num}

mutual
  pub data Json (F : Type 0) : Type 0 where
    null : Json F
    flag : Bool → Json F
    number : Num F → Json F
    text : Str → Json F
    items : Items F → Json F
    object : Fields F → Json F

  pub data Items (F : Type 0) : Type 0 where
    no_items : Items F
    item : Json F → Items F → Items F

  pub data Fields (F : Type 0) : Type 0 where
    no_fields : Fields F
    field : Str → Json F → Fields F → Fields F

module _ {F : Type 0} where
  -- `d.get(key)` of a dict
  unfoldable pub get_field : Str → Fields F → Option (Json F)
  get_field key no_fields = none
  get_field key (field k v fs) = if str_eq k key then some v else get_field key fs

  -- `d[key] = v`
  unfoldable pub set_field : Str → Json F → Fields F → Fields F
  set_field key v no_fields = field key v no_fields
  set_field key v (field k u fs) =
      if str_eq k key then field k v fs else field k u (set_field key v fs)

  -- `del d[key]`
  unfoldable pub remove_field : Str → Fields F → Fields F
  remove_field key no_fields = no_fields
  remove_field key (field k v fs) = if str_eq k key then fs else field k v (remove_field key fs)

  -- `d.keys()`
  abbrev pub field_names : Fields F → List Str
  field_names no_fields = []
  field_names (field k v fs) = k ∷ field_names fs

  -- the items of a dict; of anything else there is no `items`
  abbrev pub fields_of : Json F → Result (Fields F)
  fields_of (object fs) = ok fs
  fields_of v = err attribute_error

  -- `v[key]`, of a dict. (A list or a text wants a number for a key.)
  unfoldable pub index : Json F → Str → Result (Json F)
  unfolding get_field
  index (object fs) key = or_raise (get_field key fs) key_error
  index v key = err type_error

  -- `v.get(key)`
  unfoldable pub get : Json F → Str → Result (Option (Json F))
  unfolding get_field
  get (object fs) key = ok (get_field key fs)
  get v key = err attribute_error
