-- ===== src/Collector/Config.antt =====
-- The configuration: `str_to_bool`, `load_config`, `process_config` and `get_default_config`.
use fullerite.Base.{Bool, true, false, ◌&&◌, Option, none, some, [], ◌∷◌, map, if◌then◌else◌}
use fullerite.Base.Int.{pos}
use fullerite.Base.Text.{Str, codes, str_mem, strip, lower, words}
use fullerite.Base.Dict.{Dict, lookup, insert, update}
use fullerite.Base.Result.{
  Result, ok, err, diamond_exception, value_error, type_error, key_error, not_implemented, or_raise,
  ◌>>=◌,
}
use fullerite.Python.{int, Value, nil, bool, num, str, strs, pattern}
use fullerite.Python.Convert.{value_int}
use fullerite.Collector.State.{World, Collector}
use fullerite.Collector.Path.{config_or}
use fullerite.Collector.Publish.{is_true}

-- What `load_config` reads of the framework's configuration; none is a missing key.
pub record Framework (F : Type 0) : Type 0 where
  pub fullerite_port : Option (Value F)
  pub interval : Option (Value F)
  pub default_config : Option (Dict (Value F))

module _ {F : Type 0} where
  -- `str_to_bool`: a text by its letters, in any case and without the white space around it; any
  -- other value is returned as it is.
  unfoldable pub str_to_bool : Value F → Result (Value F)
  str_to_bool (str s) =
      let word = lower (strip s) in
      if str_mem word (map codes ("true" ∷ "t" ∷ "yes" ∷ "y" ∷ []))
      then ok (bool true)
      else if str_mem word (map codes ("false" ∷ "f" ∷ "no" ∷ "n" ∷ "" ∷ []))
      then ok (bool false)
      else err not_implemented
  str_to_bool v = ok v

  -- `get_default_config`
  abbrev pub get_default_config : Dict (Value F)
  get_default_config =
      (codes "enabled", bool false)
      ∷ (codes "path_prefix", str (codes "servers"))
      ∷ (codes "instance_prefix", str (codes "instances"))
      ∷ (codes "path_suffix", str [])
      ∷ (codes "interval", num (int (pos 300)))
      ∷ (codes "ttl_multiplier", num (int (pos 2)))
      ∷ (codes "byte_unit", str (codes "byte"))
      ∷ (codes "measure_collector_time", bool false)
      ∷ (codes "metrics_whitelist", nil)
      ∷ (codes "metrics_blacklist", nil)
      ∷ (codes "max_buffer_size", num (int (pos 300)))
      ∷ []

  -- `if key in self.config: self.config[key] = f(self.config[key])`
  unfoldable pub convert_key :
      Str → (Value F → Result (Value F)) → Dict (Value F) → Result (Dict (Value F))
  convert_key key f config = elim (lookup key config) [
    | none ↦ ok config
    | some v ↦ do u ← f v; ok (insert key u config)
  ]

  -- `split()` of a text
  abbrev pub split_units : Value F → Result (Value F)
  split_units (str s) = ok (strs (words s))
  split_units v = ok v

module _ (w : World) where
  open w use {float, float.{Carrier}, compiles}

  -- `re.compile`. A pattern that is compiled already is returned; one that does not compile raises
  -- re.error, which is taken for a ValueError.
  abbrev pub compile : Value Carrier → Result (Value Carrier)
  compile (str s) = if compiles s then ok (pattern s) else err value_error
  compile (pattern p) = ok (pattern p)
  compile v = err type_error

  abbrev pub to_int : Value Carrier → Result (Value Carrier)
  unfolding value_int
  to_int v = do n ← value_int float v; ok (num (int n))

  -- `if self.config.get(key, None)`
  abbrev pub has_true : Str → Dict (Value Carrier) → Bool
  has_true key config = is_true w (config_or key nil config)

  -- The two lists exclude one another, and the one that is given is compiled.
  unfoldable pub compile_lists : Dict (Value Carrier) → Result (Dict (Value Carrier))
  compile_lists config =
      if has_true (codes "metrics_whitelist") config && has_true (codes "metrics_blacklist") config
      then err diamond_exception
      else if has_true (codes "metrics_whitelist") config
      then convert_key (codes "metrics_whitelist") compile config
      else if has_true (codes "metrics_blacklist") config
      then convert_key (codes "metrics_blacklist") compile config
      else ok config

  -- The configuration after `process_config`, or what it raises.
  unfoldable pub process_config : Dict (Value Carrier) → Result (Dict (Value Carrier))
  process_config config = do
    c1 ← convert_key (codes "byte_unit") split_units config
    c2 ← convert_key (codes "enabled") str_to_bool c1
    c3 ← convert_key (codes "measure_collector_time") str_to_bool c2
    c4 ← compile_lists c3
    convert_key (codes "max_buffer_size") to_int c4

  -- The dict that `load_config` hands to `process_config`. The framework's interval is read also
  -- where the collector's own file has one.
  unfoldable pub merge_config :
      Framework Carrier
      → Dict (Value Carrier)
      → Dict (Value Carrier)
      → Result (Dict (Value Carrier))
  merge_config framework configfile config = do
    port ← or_raise framework.fullerite_port key_error
    interval ← or_raise framework.interval key_error
    let defaults = update config get_default_config
    let enabled = insert (codes "enabled") (bool true) defaults
    let ported = insert (codes "fulleritePort") port enabled
    let own = config_or (codes "interval") interval configfile
    let timed = insert (codes "interval") own ported
    let framed = update timed (elim framework.default_config [ none ↦ [] | some d ↦ d ])
    ok (update framed configfile)

  unfoldable pub load_config : Framework Carrier → Collector Carrier → Result (Collector Carrier)
  load_config framework c = do
    merged ← merge_config framework c.configfile c.config
    processed ← process_config merged
    ok (record c { config = processed })
