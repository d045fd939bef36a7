-- ===== src/MySql/Publish.antt =====
-- `_publish_stats` and the address of `collect` in src/diamond/collectors/mysqlstat/mysqlstat.py.
use fullerite.Base.{ℕ, Bool, true, false, Option, none, some, List, [], ◌∷◌, ◌++◌, if◌then◌else◌}
use fullerite.Base.Int.{ℤ, pos}
use fullerite.Base.Text.{Str, codes, str_eq, str_mem, contains}
use fullerite.Base.Dict.{Dict, lookup, update, has_key}
use fullerite.Base.Result.{Result, ok, err, type_error}
use fullerite.Base.Exec.{pure, lift, gets, modify, ◌>>=◌, ◌>>◌}
use fullerite.Python.{int, flt, Value, nil, bool, num, str, strs}
use fullerite.Metric.{dict}
use fullerite.Collector.State.{World, Action}
use fullerite.Collector.Config.{get_default_config}
use fullerite.Collector.Derivative.{default_counting, derivative}
use fullerite.Collector.Publish.{publish, report_error}
use fullerite.Collector.Run.{sample}
use fullerite.MySql.Keys.{gauge_keys}
use fullerite.MySql.Stats.{Entry, Group, plain, entries}

-- `get_default_config`
abbrev pub mysql_default : {F : Type 0} → Dict (Value F)
mysql_default = update get_default_config (
    (codes "path", str (codes "mysql"))
    ∷ (codes "hosts", strs [])
    ∷ (codes "slave", bool false)
    ∷ (codes "master", bool false)
    ∷ (codes "innodb", bool false)
    ∷ (codes "innodb_rseg", bool false)
    ∷ (codes "ignore_users", strs [])
    ∷ (codes "idle_threshold", num (int (pos 30)))
    ∷ (codes "processlist", bool false)
    ∷ (codes "query_threshold", num (int (pos 10)))
    ∷ (codes "temp_tables", nil)
    ∷ [])

-- What the pattern of an address finds.
pub record Address : Type 0 where
  pub user : Str
  pub passwd : Str
  pub host : Str
  pub port : Str
  pub db : Str
  pub nickname : Str

-- The parameters of the connection; the database `None` is left out.
pub record Params : Type 0 where
  pub host : Str
  pub port : ℤ
  pub db : Option Str
  pub user : Str
  pub passwd : Str

unfoldable pub params_of : (Str → Option ℤ) → Address → Params
params_of parse_int a = record {
  host = Address.host a;
  port = elim (parse_int (Address.port a)) [ none ↦ pos 3306 | some n ↦ n ];
  db = if str_eq (Address.db a) (codes "None") then none else some (Address.db a);
  user = Address.user a;
  passwd = Address.passwd a;
}

-- a name that is not empty, with a dot
abbrev pub dotted : Str → Str
dotted [] = []
dotted (c ∷ s) = c ∷ s ++ b'.' ∷ []

-- `metric_name in self.config['publish']`: in a text, the name may stand anywhere
abbrev pub is_in : {F : Type 0} → Str → Value F → Result Bool
is_in name (str s) = ok (contains s name)
is_in name (strs l) = ok (str_mem name l)
is_in name v = err type_error

module _ (w : World) (depth : ℕ) where
  open w use {float, float.{Carrier}}

  -- `'publish' not in self.config or metric_name in self.config['publish']`, for the status
  unfoldable pub is_published : Str → Str → Action w Bool
  unfolding lookup
  is_published key name = do
    c ← gets (λ c. c)
    if str_eq key (codes "status")
        then elim (lookup (codes "publish") c.config) [
          | none ↦ pure true
          | some v ↦ lift (is_in name v)
        ]
        else pure true

  -- a number: as it is for a gauge, and its rate otherwise
  abbrev pub rate_or_gauge : Str → Str → Carrier → Action w (Value Carrier)
  rate_or_gauge nickname name x =
      if str_mem name gauge_keys
      then pure (num (flt x))
      else do r ← derivative w (nickname ++ name) (flt x) default_counting; pure (num r)

  unfoldable pub publish_number : Str → Str → Str → Carrier → Action w Unit
  unfolding is_published
  publish_number nickname key name x = do
    v ← rate_or_gauge nickname name x
    b ← is_published key name
    if b then publish w depth (sample (nickname ++ name) v (codes "GAUGE")) else pure tt

  unfoldable pub publish_plain : Str → Str → Dict Carrier → Action w Unit
  unfolding publish_number
  publish_plain nickname key [] = pure tt
  publish_plain nickname key ((name, x) ∷ more) = do
    publish_number nickname key name x
    publish_plain nickname key more

  unfoldable pub publish_entries : Str → List (Entry Carrier) → Action w Unit
  publish_entries nickname [] = pure tt
  publish_entries nickname (e ∷ es) = do
    modify (λ c. record c { dimensions = dict (Entry.dimensions e) })
    publish w depth (sample (nickname ++ e.metric_name) e.metric_value (codes "GAUGE"))
    publish_entries nickname es

  -- `_publish_stats`
  unfoldable pub publish_stats : Str → Dict (Group Carrier) → Action w Unit
  unfolding publish_plain publish_entries
  publish_stats nickname [] = pure tt
  publish_stats nickname ((key, plain d) ∷ groups) = do
    publish_plain nickname key d
    publish_stats nickname groups
  publish_stats nickname ((key, entries es) ∷ groups) = do
    publish_entries nickname es
    publish_stats nickname groups

  -- the names of `self.config['publish'].split()` that are not in the status
  unfoldable pub report_unknown : List Str → Dict Carrier → Action w Unit
  unfolding has_key
  report_unknown [] status = pure tt
  report_unknown (k ∷ ks) status = do
    if has_key k status then pure tt else report_error w depth none
    report_unknown ks status
