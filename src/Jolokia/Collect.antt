-- ===== src/Jolokia/Collect.antt =====
-- The requests of src/diamond/collectors/jolokia/jolokia.py and the loop over the domains, for what
-- a Jolokia agent answers.
pub mod Failed
use fullerite.Base.{
  ℕ, Bool, true, false, ◌&&◌, ◌||◌, not, Option, none, some, List, [], ◌∷◌, ◌++◌, if◌then◌else◌,
}
use fullerite.Base.Int.{pos, leb_ℤ}
use fullerite.Base.Text.{Str, codes, str_eq, str_mem}
use fullerite.Base.Dict.{lookup}
use fullerite.Base.Result.{
  Error, Result, ok, err, key_error, type_error, attribute_error, or_raise, bind,
}
use fullerite.Base.Exec.{Exec, pure, lift, gets, modify, ◌>>=◌, ◌>>◌}
use fullerite.Python.{int, long, flt, Value, nil, bool, num, str, strs}
use fullerite.Collector.State.{World, Collector, Action, config_get}
use fullerite.Collector.Publish.{is_true, publish, report_error}
use fullerite.Collector.Run.{sample, error_name, is_exception}
use fullerite.Json.{
  Json, null, flag, number, text, items, object, Fields, no_fields, field, get_field, field_names,
  fields_of, index,
}
use fullerite.Elastic.Collect.{Response, failed, document}
use fullerite.Redis.Collect.{plain_value}
use fullerite.Jolokia.{clean_up, escape_domain, check_mbean_blacklist, check_domain_for_blacklist}
use fullerite.Jolokia.Beans.{
  Jolokia, Host, Request, list_domains, list_beans, read, Step, on_collector, log_error, setting,
  collect_bean, check_mbean,
}

module _ (w : World) (depth : ℕ) (sub : Str → Str → Str → Str) (quote : Str → Str)
    (fetch : Host w.float.Carrier → Request w.float.Carrier → Response w.float.Carrier) where
  open w use {float, float.{Carrier, lt_int, int_lt, is_nan}, now}

  -- what follows a request: the document, or `{}` once the exception is logged
  unfoldable pub answer : Response Carrier → Step w depth sub (Json Carrier)
  answer (document v) = pure v
  answer (failed e) = do
    log_error w depth sub (some e)
    log_error w depth sub (some e)
    pure (object no_fields)

  -- An option that is missing is an exception of the request.
  abbrev request_with : Str → (Value Carrier → Response Carrier) → Step w depth sub (Json Carrier)
  unfolding lookup answer
  request_with key ask s = elim (lookup key s.collector.config) [
    | none ↦ answer (failed (error_name key_error)) s
    | some v ↦ answer (ask v) s
  ]

  -- `list_request` without and with a path, and `read_request`
  unfoldable pub list_request : Host Carrier → Option Str → Step w depth sub (Json Carrier)
  unfolding request_with
  list_request h none = do
    s ← gets (λ s. s)
    request_with (codes "listing_max_depth")
        (λ most. fetch h (list_domains s.last_list_request most))
  list_request h (some path) =
      request_with (codes "listing_max_depth") (λ most. fetch h (list_beans path most))

  unfoldable pub read_request : Host Carrier → Str → Bool → Step w depth sub (Json Carrier)
  unfolding request_with escape_domain
  read_request h path bean =
      let escaped = escape_domain quote path in
      request_with (codes "read_limit")
        (λ limit. fetch h (read limit (if bean then escaped else escaped ++ codes ":*")))

  -- `v == 200`
  abbrev pub is_200 : Json Carrier → Bool
  is_200 (number (int n)) = leb_ℤ n (pos 200) && leb_ℤ (pos 200) n
  is_200 (number (long n)) = leb_ℤ n (pos 200) && leb_ℤ (pos 200) n
  is_200 (number (flt x)) = not (lt_int x (pos 200)) && not (int_lt (pos 200) x) && not (is_nan x)
  is_200 v = false

  -- `obj['value'] if obj['status'] == 200 else {}`
  unfoldable pub value_of : Json Carrier → Result (Json Carrier)
  unfolding index
  value_of obj =
      bind (index obj (codes "status"))
        λ s. if is_200 s then index obj (codes "value") else ok (object no_fields)

  -- `read_metric_path`
  unfoldable pub read_metric_path : Host Carrier → Str → Step w depth sub Unit
  unfolding read_request value_of
  read_metric_path h path = do
    obj ← read_request h path true
    v ← lift (value_of obj)
    collect_bean w depth sub path v

  -- the beans of a domain that no line of the black list names
  unfoldable pub read_allowed : Host Carrier → Str → List Str → List Str → Step w depth sub Unit
  unfolding read_metric_path check_mbean_blacklist
  read_allowed h prefix blacklist [] = pure tt
  read_allowed h prefix blacklist (path ∷ paths) = do
    let full = prefix ++ b':' ∷ path
    if check_mbean_blacklist full blacklist then read_metric_path h full else pure tt
    read_allowed h prefix blacklist paths

  -- `except KeyError: self.log.error(...)`
  abbrev pub or_log : Step w depth sub Unit → Step w depth sub Unit
  or_log m s =
      let (r, t) = m s in
      elim r [
        | ok u ↦ (ok tt, t)
        | err key_error ↦ log_error w depth sub (some (error_name key_error)) t
        | err e ↦ (err e, t)
      ]

  -- the names of a document's items
  abbrev keys_of : Json Carrier → Result (List Str)
  keys_of v = bind (fields_of v) λ fs. ok (field_names fs)

  -- `read_except_blacklist`
  unfoldable pub read_except_blacklist : Host Carrier → Str → List Str → Step w depth sub Unit
  unfolding list_request value_of read_allowed
  read_except_blacklist h prefix blacklist = do
    listing ← list_request h (some prefix)
    or_log (do
      domains ← lift (bind (value_of listing) keys_of)
      read_allowed h prefix blacklist domains)

  -- the beans that are wanted
  unfoldable pub collect_beans : Fields Carrier → Step w depth sub Unit
  unfolding check_mbean
  collect_beans no_fields = pure tt
  collect_beans (field k v fs) = do
    wanted ← check_mbean w depth sub k
    if wanted then collect_bean w depth sub k v else pure tt
    collect_beans fs

  abbrev list_of : Value Carrier → Result (List Str)
  list_of (strs l) = ok l
  list_of v = err type_error

  -- a domain, all at once
  unfoldable pub read_domain : Host Carrier → Str → Step w depth sub Unit
  unfolding read_request value_of collect_beans
  read_domain h domain = do
    obj ← read_request h domain false
    v ← lift (value_of obj)
    fs ← lift (fields_of v)
    collect_beans fs

  -- `publish_metric_from_domain`; the black list is taken for a list.
  unfoldable pub publish_metric_from_domain : Host Carrier → Str → Step w depth sub Unit
  unfolding lookup check_domain_for_blacklist read_except_blacklist read_domain
  publish_metric_from_domain h domain = do
    v ← setting w depth sub (codes "mbean_blacklist")
    blacklist ← lift (list_of v)
    let listed = read_except_blacklist h domain blacklist
    let whole = read_domain h domain
    if check_domain_for_blacklist domain blacklist then listed else whole

  -- the loop over the domains
  unfoldable pub collect_domains : Host Carrier → List Str → Step w depth sub Unit
  unfolding publish_metric_from_domain
  collect_domains h [] = pure tt
  collect_domains h (domain ∷ domains) = do
    s ← gets (λ s. s)
    if str_mem domain s.domain_blacklist then pure tt else publish_metric_from_domain h domain
    collect_domains h domains

  -- `listing.get('timestamp', int(time.time()))`
  abbrev stamp : Json Carrier → Result (Json Carrier)
  unfolding get_field
  stamp (object fs) =
      ok (elim (get_field (codes "timestamp") fs) [ none ↦ number (int now) | some t ↦ t ])
  stamp v = err attribute_error

  abbrev remember_keys : Json Carrier → Json Carrier → Step w depth sub Unit
  unfolding stamp
  remember_keys listing domains = do
    keys ← lift (keys_of domains)
    t ← lift (stamp listing)
    modify (λ s. record s { domain_keys = keys; last_list_request = t })

  -- The domains and the time of a listing are remembered where its status is 200.
  unfoldable pub remember : Json Carrier → Step w depth sub Unit
  unfolding value_of remember_keys index
  remember listing = do
    domains ← lift (value_of listing)
    status ← lift (index listing (codes "status"))
    if is_200 status then remember_keys listing domains else pure tt

  -- a host
  unfoldable pub collect_host : Host Carrier → Step w depth sub Unit
  unfolding list_request remember collect_domains
  collect_host h = do
    listing ← list_request h none
    or_log (do remember listing; s ← gets (λ s. s); collect_domains h s.domain_keys)

  unfoldable pub collect_hosts : List (Host Carrier) → Step w depth sub Unit
  unfolding collect_host
  collect_hosts [] = pure tt
  collect_hosts (h ∷ hs) = do collect_host h; collect_hosts hs
