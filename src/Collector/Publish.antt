-- ===== src/Collector/Publish.antt =====
-- `Collector.publish`, `publish_metric`, and the error reports that
-- `CollectorErrorHandler` makes of every `log.error` and `log.exception`.
use fullerite.Base.{
  ℕ, zero, suc, Bool, true, false, ◌&&◌, not, Option, none, some, [], ◌∷◌, ◌++◌, length,
  if◌then◌else◌,
}
use fullerite.Base.Int.{pos}
use fullerite.Base.Text.{Str, codes}
use fullerite.Base.Dict.{Dict, lookup, update}
use fullerite.Base.Result.{
  Result, ok, err, diamond_exception, attribute_error, recursion_limit, bind,
}
use fullerite.Base.Exec.{pure, raise, lift, gets, modify, ◌>>=◌, ◌>>◌}
use fullerite.Python.{int, long, flt, Value, nil, bool, num, str, strs, pattern}
use fullerite.Python.Convert.{value_float, int_ge}
use fullerite.Metric
use fullerite.Metric.{Dimensions, no_dimensions, dict, not_a_dict, Metric}
use fullerite.Collector.State.{Payload, World, Collector, Action, config_get}
use fullerite.Collector.Path.{get_metric_path}
use fullerite.Collector.Flush.{flush_with}

-- The arguments of `publish`.
pub record Sample (F : Type 0) : Type 0 where
  pub name : Str
  pub value : Value F
  pub raw_value : Value F
  pub precision : ℕ
  pub metric_type : Str
  pub instance' : Option Str

-- what `report_error` publishes
abbrev pub error_sample : {F : Type 0} → Sample F
error_sample = record {
  name = codes "fullerite.collector_errors";
  value = num (int (pos 1));
  raw_value = nil;
  precision = 0;
  metric_type = codes "GAUGE";
  instance' = none;
}

abbrev pub can_publish_metric : {F : Type 0} → Collector F → Bool
can_publish_metric c = c.connected && not c.reconnect

-- the items of a dict of texts, as values
abbrev pub str_items : {F : Type 0} → Dict Str → Dict (Value F)
str_items [] = []
str_items ((k, v) ∷ d) = (k, str v) ∷ str_items d

abbrev pub dict_or_empty {ℓ} : {V : Type ℓ} → Option (Dict V) → Dict V
dict_or_empty none = []
dict_or_empty (some d) = d

-- The dimensions of a payload: the three of the framework, then the collector's defaults, then the
-- metric's own, each replacing those before it.
unfoldable pub payload_dimensions :
    {F : Type 0} → Str → Str → Str → Option (Dict (Value F)) → Option (Dict Str) → Dict (Value F)
unfolding update
payload_dimensions prefix collector name defaults own =
    let framework =
      (codes "prefix", str prefix)
      ∷ (codes "collector", str collector)
      ∷ (codes "collectorCanonicalName", str name)
      ∷ [] in
    update (update framework (dict_or_empty defaults)) (str_items (dict_or_empty own))

-- None falls back on the value.
abbrev pub raw_or : {F : Type 0} → Value F → Value F → Value F
raw_or nil v = v
raw_or r v = r

unfoldable pub make_payload : {F : Type 0} → Collector F → Metric F → Result (Payload F)
unfolding payload_dimensions Metric.get_path_prefix Metric.get_collector_path Metric.get_metric_path
make_payload c m = bind (Metric.get_path_prefix m.path) λ prefix.
    bind (Metric.get_collector_path m.path) λ collector. ok (record {
      name = Metric.get_metric_path m.path;
      value = raw_or m.raw_value m.value;
      type = m.metric_type;
      dimensions = payload_dimensions prefix collector c.name c.default_dimensions m.dimensions;
    })

module _ (w : World) where
  open w use {float, float.{Carrier, mul}, float_zero, matches, now}

  -- a condition on a configuration's value, `if self.config[key]`
  abbrev pub is_true : Value Carrier → Bool
  is_true nil = false
  is_true (bool b) = b
  is_true (num (int (pos zero))) = false
  is_true (num (long (pos zero))) = false
  is_true (num (flt x)) = not (float_zero x)
  is_true (num n) = true
  is_true (str []) = false
  is_true (strs []) = false
  is_true v = true

  -- `self.config[key].match(name)`, for a compiled pattern
  abbrev pub match : Str → Value Carrier → Result Bool
  match name (pattern p) = ok (matches p name)
  match name v = err attribute_error

  -- `elif self.config['metrics_blacklist']`
  abbrev pub is_not_blacklisted : Str → Action w Bool
  is_not_blacklisted name = do
    black ← config_get (codes "metrics_blacklist")
    if is_true black then lift (bind (match name black) (λ b. ok (not b))) else pure true

  -- Whether the white list, or else the black list, lets the name through.
  unfoldable pub is_allowed : Str → Action w Bool
  unfolding lookup
  is_allowed name = do
    white ← config_get (codes "metrics_whitelist")
    if is_true white then lift (match name white) else is_not_blacklisted name

  -- `self.dimensions`, taken and reset
  abbrev pub take_dimensions : Action w (Dimensions Carrier)
  take_dimensions c = (ok c.dimensions, record c { dimensions = no_dimensions })

  abbrev pub config_float : Str → Action w Carrier
  config_float key = do v ← config_get key; lift (value_float float v)

  -- `len(self.payload) >= self.config.get('max_buffer_size', 300)`
  unfoldable pub has_full_buffer : Collector Carrier → Bool
  unfolding lookup int_ge
  has_full_buffer c = elim (lookup (codes "max_buffer_size") c.config) [
    | none ↦ int_ge float (pos (length c.payload)) (num (int (pos 300)))
    | some v ↦ int_ge float (pos (length c.payload)) v
  ]

  -- The path, the time to live, and the metric made of them. Only what the constructor raises is
  -- handed on as a value, since only that stands in the `try`.
  unfoldable pub create_metric :
      Sample Carrier → Dimensions Carrier → Action w (Result (Metric Carrier))
  create_metric s dims = do
    c ← gets (λ c. c)
    path ← lift (get_metric_path float_zero c s.name s.instance')
    interval ← config_float (codes "interval")
    multiplier ← config_float (codes "ttl_multiplier")
    pure (
        Metric.new_metric float now (some path) s.value s.raw_value nil s.precision s.metric_type
          (some (mul interval multiplier)) dims)

  module _ (report : Option Str → Action w Unit) where
    unfoldable pub publish_metric_with : Metric Carrier → Action w Unit
    publish_metric_with m = do
      c ← gets (λ c. c)
      p ← lift (make_payload c m)
      modify (λ c. record c { payload = c.payload ++ p ∷ [] })
      full ← gets has_full_buffer
      if full then flush_with w report else pure tt

    -- A DiamondException is logged and raised again.
    abbrev pub log_diamond : {A : Type 0} → Result A → Action w A
    log_diamond (ok a) = pure a
    log_diamond (err diamond_exception) = do
      report (some (codes "DiamondException"))
      raise diamond_exception
    log_diamond (err e) = raise e

    -- the part of `publish` behind the lists
    unfoldable pub publish_allowed : Sample Carrier → Dimensions Carrier → Action w Unit
    publish_allowed s dims = do
      created ← create_metric s dims
      m ← log_diamond created
      publish_metric_with m

    unfoldable pub publish_with : Sample Carrier → Action w Unit
    publish_with s = do
      dims ← take_dimensions
      allowed ← is_allowed s.name
      if allowed then publish_allowed s dims else pure tt

  -- the dimension that names the exception being handled
  abbrev pub set_error_type : Option Str → Action w Unit
  set_error_type none = pure tt
  set_error_type (some e) =
      modify (λ c. record c { dimensions = dict ((codes "error_type", str e) ∷ []) })

  -- `report_error`. It publishes, and that may log an error again: the number is how deep such
  -- reports may be nested before the interpreter's recursion limit is met.
  unfoldable pub report_error : ℕ → Option Str → Action w Unit
  report_error zero e = raise recursion_limit
  report_error (suc depth) e = do
    set_error_type e
    c ← gets (λ c. c)
    if can_publish_metric c then publish_with (report_error depth) error_sample else pure tt

  unfoldable pub flush : ℕ → Action w Unit
  flush depth = flush_with w (report_error depth)

  unfoldable pub publish_metric : ℕ → Metric Carrier → Action w Unit
  publish_metric depth = publish_metric_with (report_error depth)

  unfoldable pub publish : ℕ → Sample Carrier → Action w Unit
  publish depth = publish_with (report_error depth)
