-- ===== src/Jolokia/Beans.antt =====
-- The state of src/diamond/collectors/jolokia/jolokia.py, `check_mbean`, and `collect_bean`. The hooks
-- that subclasses replace are those of the class itself.
use fullerite.Base.{ℕ, Bool, true, false, ◌||◌, Option, List, [], ◌∷◌, ◌++◌}
use fullerite.Base.Text.{Str, codes, str_mem}
use fullerite.Base.Dict.{lookup}
use fullerite.Base.Exec.{Exec, pure, lift, gets, ◌>>=◌, ◌>>◌}
use fullerite.Python.{Value, nil}
use fullerite.Collector.State.{World, Collector, Action, config_get}
use fullerite.Collector.Publish.{publish, report_error}
use fullerite.Collector.Run.{sample}
use fullerite.Json.{
  Json, null, flag, number, text, items, object, Fields, no_fields, field, fields_of,
}
use fullerite.Redis.Collect.{plain_value}
use fullerite.Jolokia.{clean_up}

-- The collector with what it remembers, and its options as `__init__` and `process_config` left them.
pub record Jolokia (F : Type 0) : Type 0 where
  pub collector : Collector F
  pub domain_keys : List Str
  pub last_list_request : Json F
  pub mbeans : List Str
  pub rewrites : List (Str × Str)
  pub domain_blacklist : List Str

pub record Host (F : Type 0) : Type 0 where
  pub host : Value F
  pub port : Value F

-- What is asked: the domains that changed since a time, the beans of a domain, or the values of a
-- path, each with its limit.
pub data Request (F : Type 0) : Type 0 where
  list_domains : Json F → Value F → Request F
  list_beans : Str → Value F → Request F
  read : Value F → Str → Request F

-- The values in a bean, and the action for each; lists are passed over.
unfoldable mutual
  pub bean_value :
      {F : Type 0}
      → (Str → Json F → Exec {0, 0} (Jolokia F) (Unit {0}))
      → Str
      → Json F
      → Exec {0, 0} (Jolokia F) (Unit {0})
  bean_value leaf key (object fs) = bean_fields leaf key fs
  bean_value leaf key (number n) = leaf key (number n)
  bean_value leaf key null = pure tt
  bean_value leaf key (flag b) = pure tt
  bean_value leaf key (text s) = pure tt
  bean_value leaf key (items vs) = pure tt

  pub bean_fields :
      {F : Type 0}
      → (Str → Json F → Exec {0, 0} (Jolokia F) (Unit {0}))
      → Str
      → Fields F
      → Exec {0, 0} (Jolokia F) (Unit {0})
  bean_fields leaf prefix no_fields = pure tt
  bean_fields leaf prefix (field k v fs) = do
    bean_value leaf (prefix ++ b'.' ∷ k) v
    bean_fields leaf prefix fs

module _ (w : World) (depth : ℕ) (sub : Str → Str → Str → Str) where
  open w use {float, float.{Carrier, lt_int, int_lt, is_nan}, matches, now}

  abbrev pub Step : Type 0 → Type 0
  Step A = Exec {0, 0} (Jolokia Carrier) A

  abbrev pub on_collector : {A : Type 0} → Action w A → Step A
  on_collector m s = let (r, c) = m s.collector in (r, record s { collector = c })

  abbrev pub log_error : Option Str → Step Unit
  log_error e = on_collector (report_error w depth e)

  abbrev pub setting : Str → Step (Value Carrier)
  setting key = on_collector (config_get key)

  -- a number under a cleaned name
  unfoldable pub publish_bean : Str → Json Carrier → Step Unit
  unfolding clean_up
  publish_bean key v = do
    s ← gets (λ s. s)
    elim (clean_up sub s.rewrites key) [
      | [] ↦ pure tt
      | c ∷ name ↦
          on_collector (publish w depth (sample (c ∷ name) (plain_value v) (codes "GAUGE")))
    ]

  -- `collect_bean`
  abbrev pub collect_bean : Str → Json Carrier → Step Unit
  unfolding bean_fields publish_bean
  collect_bean prefix obj = do fs ← lift (fields_of obj); bean_fields publish_bean prefix fs

  abbrev pub any_match : List Str → Str → Str → Bool
  any_match [] a b = false
  any_match (p ∷ ps) a b = matches p a || matches p b || any_match ps a b

  -- `check_mbean`, where None counts as false
  unfoldable pub check_mbean : Str → Step Bool
  unfolding clean_up lookup
  check_mbean mbean = do
    s ← gets (λ s. s)
    let fixed = clean_up sub s.rewrites mbean
    elim s.mbeans [
      | [] ↦ pure true
      | b ∷ bs ↦ (do
        regex ← setting (codes "regex")
        pure (elim regex as (λ v. Bool) [
          | nil ↦ str_mem mbean (b ∷ bs) || str_mem fixed (b ∷ bs)
          | other ↦ any_match (b ∷ bs) mbean fixed
        ]))
    ]
