-- ===== src/HaProxy.antt =====
-- src/diamond/collectors/haproxy/haproxy.py, for the lines of the answer and the rows that `csv`
-- makes of them.
mod Rows
use fullerite.Base.{
  ℕ, zero, suc, Bool, true, false, ◌&&◌, not, Option, none, some, List, [], ◌∷◌, ◌++◌, map,
  if◌then◌else◌,
}
use fullerite.Base.Text.{Str, codes, str_eq, str_mem, lower, join}
use fullerite.Base.Dict.{Dict, lookup, update}
use fullerite.Base.Result.{Result, ok, err, index_error, key_error, type_error, or_raise, bind}
use fullerite.Base.Exec.{pure, lift, gets, modify, ◌>>=◌, ◌>>◌}
use fullerite.Python.{flt, Value, nil, bool, num, str, strs}
use fullerite.Metric.{dict}
use fullerite.Collector.State.{World, Action, config_get}
use fullerite.Collector.Config.{get_default_config}
use fullerite.Collector.Publish.{is_true, publish, report_error}
use fullerite.Collector.Run.{sample, publish_cumulative_counter}
use fullerite.Kernel.{item}
use fullerite.Nagios.{sanitize}

abbrev pub cumulative_counters : List Str
cumulative_counters = map codes (
    "stot" ∷ "bin" ∷ "bout" ∷ "chkdown" ∷ "downtime" ∷ "lbtot" ∷ "hrsp_1xx" ∷ "hrsp_2xx"
    ∷ "hrsp_3xx" ∷ "hrsp_4xx" ∷ "hrsp_5xx" ∷ "hrsp_other" ∷ "req_tot" ∷ "cli_abrt" ∷ "srv_abrt"
    ∷ "comp_in" ∷ "comp_out" ∷ "comp_byp" ∷ "comp_rsp" ∷ [])

abbrev pub ignored : List Str
ignored = map codes ("pid" ∷ "iid" ∷ "sid" ∷ [])

-- `get_default_config`
abbrev pub haproxy_default : {F : Type 0} → Dict (Value F)
haproxy_default = update get_default_config (
    (codes "path", str (codes "haproxy"))
    ∷ (codes "url", str (codes "http://localhost/haproxy?stats;csv"))
    ∷ (codes "user", str (codes "admin"))
    ∷ (codes "pass", str (codes "password"))
    ∷ (codes "ignore_servers", bool false)
    ∷ (codes "extra_prefix", nil)
    ∷ [])

-- a row's names and states, cleaned
pub record Labels : Type 0 where
  pub proxy_name : Str
  pub server_name : Str
  pub status : Str
  pub check_status : Str
  pub check_code : Str

-- `self._sanitize(row[i].lower())`
abbrev pub label : ℕ → List Str → Result Str
label i row = bind (item i row) λ s. ok (sanitize (lower s))

unfoldable pub row_labels : List Str → Result Labels
row_labels row = bind (label 0 row) λ proxy. bind (label 1 row) λ server.
    bind (label 17 row) λ status. bind (label 36 row) λ check. bind (label 37 row) λ code.
      ok (record {
        proxy_name = proxy;
        server_name = server;
        status = status;
        check_status = check;
        check_code = code;
      })

-- a dimension that is there only if it is not empty
abbrev pub optional : {F : Type 0} → Str → Str → Dict (Value F)
optional key [] = []
optional key (c ∷ s) = (key, str (c ∷ s)) ∷ []

unfoldable pub row_dimensions : {F : Type 0} → Labels → Str → Dict (Value F)
row_dimensions l section =
    (codes "proxy_name", str l.proxy_name)
    ∷ (codes "server_name", str l.server_name)
    ∷ (optional (codes "check_status") l.check_status
        ++ (optional (codes "check_code") l.check_code
            ++ (optional (codes "status") l.status ++ optional (codes "section_server") section)))

-- `self._get_config_value(section, key)` of a section's own dict
unfoldable pub section_value : {F : Type 0} → Option (Dict (Value F)) → Str → Value F → Value F
unfolding lookup
section_value none key v = v
section_value (some own) key v = elim (lookup key own) [ none ↦ v | some u ↦ u ]

-- A section: its name, which is empty for the collector's own configuration, and its dict.
pub record Section (F : Type 0) : Type 0 where
  pub name : Str
  pub own : Option (Dict (Value F))

module _ (w : World) (depth : ℕ) where
  open w use {float, float.{Carrier, parse}}

  -- The configured value; a section that is not in the configuration is logged, and gives None.
  unfoldable pub value_in : Str → Option (Dict (Value Carrier)) → Str → Action w (Value Carrier)
  unfolding section_value
  value_in [] own key = config_get key
  value_in (c ∷ s) none key = do report_error w depth none; pure nil
  value_in (c ∷ s) (some d) key = do v ← config_get key; pure (section_value (some d) key v)

  -- `_get_config_value`
  abbrev pub get_config_value : Section Carrier → Str → Action w (Value Carrier)
  unfolding value_in
  get_config_value section key = value_in section.name section.own key

  abbrev pub prefix_of : Value Carrier → Result Str
  prefix_of (str s) = ok (s ++ codes "_haproxy")
  prefix_of v = err type_error

  abbrev pub metric_prefix : Value Carrier → Result Str
  metric_prefix v = if is_true w v then prefix_of v else ok (codes "haproxy")

  unfoldable pub publish_cell : Str → Str → Carrier → Action w Unit
  publish_cell prefix heading x =
      let name = join b'.' (prefix ∷ heading ∷ []) in
      if str_mem heading cumulative_counters
      then publish_cumulative_counter w depth name (num (flt x)) 0 none
      else publish w depth (sample name (num (flt x)) (codes "GAUGE"))

  -- a cell that is a number, under its heading
  unfoldable pub number_cell : Section Carrier → Labels → Option Str → Carrier → Action w Unit
  unfolding value_in row_dimensions publish_cell sanitize
  number_cell section l none x = lift (err key_error)
  number_cell section l (some heading) x = if str_mem heading ignored then pure tt else do
    modify (λ c. record c {
      dimensions = dict (row_dimensions l (sanitize (lower (Section.name section))));
    })
    v ← get_config_value section (codes "extra_prefix")
    prefix ← lift (metric_prefix v)
    publish_cell prefix heading x

  abbrev pub head : List Str → Option Str
  head [] = none
  head (h ∷ hs) = some h

  abbrev pub rest : List Str → List Str
  rest [] = []
  rest (h ∷ hs) = hs

  -- The cells of a row beside the headings; a cell that is no number is passed over.
  unfoldable pub publish_cells : Section Carrier → Labels → List Str → List Str → Action w Unit
  unfolding number_cell
  publish_cells section l headings [] = pure tt
  publish_cells section l headings (cell ∷ cells) = elim (parse cell) [
    | none ↦ publish_cells section l (rest headings) cells
    | some x ↦ (do
      number_cell section l (head headings) x
      publish_cells section l (rest headings) cells)
  ]

  abbrev pub is_server : List Str → Result Bool
  is_server row =
      bind (item 1 row) λ s. ok (not (str_mem (lower s) (map codes ("frontend" ∷ "backend" ∷ []))))

  -- `ignore_servers`, where the second cell is looked at only under it
  abbrev pub is_skipped : Section Carrier → List Str → Action w Bool
  unfolding value_in
  is_skipped section row = do
    v ← get_config_value section (codes "ignore_servers")
    if is_true w v then lift (is_server row) else pure false

  unfoldable pub publish_row : Section Carrier → List Str → List Str → Action w Unit
  unfolding row_labels publish_cells value_in
  publish_row section headings row = do
    l ← lift (row_labels row)
    publish_cells section l headings row

  unfoldable pub publish_rows : Section Carrier → List Str → List (List Str) → Action w Unit
  unfolding publish_row value_in
  publish_rows section headings [] = pure tt
  publish_rows section headings (row ∷ rows) = do
    skipped ← is_skipped section row
    if skipped then pure tt else publish_row section headings row
    publish_rows section headings rows

  -- `_collect`, for the rows of the answer. They are empty where the request failed, which has been
  -- logged; the headings are the first of them.
  unfoldable pub collect_section : Section Carrier → List (List Str) → Action w Unit
  unfolding publish_rows sanitize
  collect_section section [] = lift (err index_error)
  collect_section section (first ∷ rows) = publish_rows section (map sanitize first) (first ∷ rows)

  -- `collect`, for the sections and the rows that each answers
  unfoldable pub collect_haproxy : List (Section Carrier × List (List Str)) → Action w Unit
  unfolding collect_section
  collect_haproxy [] = pure tt
  collect_haproxy ((section, rows) ∷ more) = do collect_section section rows; collect_haproxy more
