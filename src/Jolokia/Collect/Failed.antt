-- ===== src/Jolokia/Collect/Failed.antt =====
-- The loop over the domains of src/diamond/collectors/jolokia/jolokia.py where a request fails.
use fullerite.Base.{ℕ, ◌≡◌, false, inl, inr, some, List, ◌∷◌, ◌++◌, arith}
use fullerite.Base.Text.{Str, codes, str_mem}
use fullerite.Base.Dict.{lookup}
use fullerite.Base.Result.{Error, Result-cases, err, key_error}
use fullerite.Python.{Value, strs}
use fullerite.Collector.State.{World}
use fullerite.Collector.Publish.{report_error}
use fullerite.Json.{index, get_field}
use fullerite.Elastic.Collect.{Response, failed}
use fullerite.Jolokia.{escape_domain, check_domain_for_blacklist}
use fullerite.Jolokia.Beans.{Jolokia, Host, Request, read}
use fullerite.Jolokia.Collect.{
  answer, read_request, value_of, read_domain, publish_metric_from_domain, collect_domains,
}

module _ (w : World) (depth : ℕ) (sub : Str → Str → Str → Str) (quote : Str → Str)
    (fetch : Host w.float.Carrier → Request w.float.Carrier → Response w.float.Carrier) where
  open w use {float, float.{Carrier}}

  -- A failed read of a domain is an exception, whatever the error reports do.
  read_domain-failed :
      (h : Host Carrier) (domain e : Str) (limit : Value Carrier) (s : Jolokia Carrier)
      → lookup (codes "read_limit") s.collector.config ≡ some limit
      → fetch h (read limit (escape_domain quote domain ++ codes ":*")) ≡ failed e
      → (x : Error) × ((read_domain w depth sub quote fetch h domain s).0 ≡ err x)
  unfolding read_domain read_request answer value_of index get_field
  read_domain-failed h domain e limit s l f =
      elim (Result-cases (report_error w depth (some e) s.collector).0) [
        | inr (x, first) ↦ (x, ground (arith, l, f, first))
        | inl (u, first) ↦
            elim (Result-cases
              (report_error w depth (some e) (report_error w depth (some e) s.collector).1).0) [
                | inr (x, second) ↦ (x, ground (arith, l, f, first, second))
                | inl (v, second) ↦ (key_error, ground (arith, l, f, first, second))
              ]
      ]

  -- If the read of a domain fails, which no black list names, the loop over the domains ends with
  -- an exception and leaves the collector as that read left it, whatever domains come behind it.
  pub collect_domains-failed :
      (h : Host Carrier) (domain e : Str) (domains blacklist : List Str) (limit : Value Carrier)
      (s : Jolokia Carrier)
      → str_mem domain s.domain_blacklist ≡ false
      → lookup (codes "mbean_blacklist") s.collector.config ≡ some (strs blacklist)
      → check_domain_for_blacklist domain blacklist ≡ false
      → lookup (codes "read_limit") s.collector.config ≡ some limit
      → fetch h (read limit (escape_domain quote domain ++ codes ":*")) ≡ failed e
      → (x : Error) × (collect_domains w depth sub quote fetch h (domain ∷ domains) s
          ≡ (err x, (read_domain w depth sub quote fetch h domain s).1))
  unfolding collect_domains publish_metric_from_domain
  collect_domains-failed h domain e domains blacklist limit s allowed b c l f =
      let (x, raised) = read_domain-failed h domain e limit s l f in
      (x, ground (arith, allowed, b, c, raised))
