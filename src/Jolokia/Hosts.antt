-- ===== src/Jolokia/Hosts.antt =====
-- The hosts of src/diamond/collectors/jolokia/jolokia.py, and `collect`.
use fullerite.Base.{ℕ, Option, none, some, List, [], ◌∷◌, if◌then◌else◌}
use fullerite.Base.Text.{Str, codes}
use fullerite.Base.Dict.{lookup}
use fullerite.Base.Result.{Result, ok, err, key_error, or_raise, bind}
use fullerite.Base.Exec.{pure, ◌>>=◌, ◌>>◌}
use fullerite.Python.{Value, nil}
use fullerite.Collector.State.{World}
use fullerite.Collector.Publish.{is_true}
use fullerite.Collector.Run.{error_name}
use fullerite.Json.{Json, Fields, no_fields, field, get_field, fields_of, index}
use fullerite.Elastic.Collect.{Response, failed, document}
use fullerite.Redis.Collect.{plain_value}
use fullerite.Jolokia.Beans.{Host, Request, Step, log_error, setting}
use fullerite.Jolokia.Collect.{collect_hosts}

module _ (w : World) (depth : ℕ) (sub : Str → Str → Str → Str) (quote : Str → Str)
    (fetch : Host w.float.Carrier → Request w.float.Carrier → Response w.float.Carrier) where
  open w use {float, float.{Carrier}}

  -- the hosts of the services, all with the configured port
  unfoldable pub service_hosts :
      Fields Carrier → Option (Value Carrier) → Result (List (Host Carrier))
  service_hosts no_fields port = ok []
  service_hosts (field name v fs) port = bind (fields_of v) λ inner.
      bind (or_raise port key_error) λ p. bind (service_hosts fs port) λ hosts.
        let found : Value Carrier = elim (get_field (codes "host") inner) [
          | none ↦ nil
          | some h ↦ plain_value h
        ] in
        ok (record { host = found; port = p } ∷ hosts)

  abbrev services : Json Carrier → Option (Value Carrier) → Result (List (Host Carrier))
  unfolding index service_hosts
  services doc port =
      bind (index doc (codes "services")) λ s. bind (fields_of s) λ fs. service_hosts fs port

  -- `read_host_list`, for the document of the file, or the exception of its opening or its parser
  unfoldable pub read_host_list : Response Carrier → Step w depth sub (List (Host Carrier))
  unfolding services lookup
  read_host_list (failed e) s = (do log_error w depth sub (some e); pure []) s
  read_host_list (document doc) s = elim (services doc (lookup (codes "port") s.collector.config)) [
    | ok hosts ↦ (ok hosts, s)
    | err e ↦ (do log_error w depth sub (some (error_name e)); pure []) s
  ]

  abbrev own_host : Step w depth sub (List (Host Carrier))
  own_host = do
    h ← setting w depth sub (codes "host")
    p ← setting w depth sub (codes "port")
    pure (record { host = h; port = p } ∷ [])

  -- `collect`
  unfoldable pub collect_jolokia : Response Carrier → Step w depth sub Unit
  unfolding collect_hosts read_host_list lookup
  collect_jolokia doc = do
    several ← setting w depth sub (codes "multiple_hosts_mode")
    hosts ← if is_true w several then read_host_list doc else own_host
    collect_hosts w depth sub quote fetch hosts
