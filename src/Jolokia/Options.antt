-- ===== src/Jolokia/Options.antt =====
-- The constructor, `process_config` and the default configuration of
-- src/diamond/collectors/jolokia/jolokia.py.
use fullerite.Base.{false, List, [], ◌∷◌, ◌++◌, map}
use fullerite.Base.Int.{pos}
use fullerite.Base.Text.{Str, codes, split, strip}
use fullerite.Base.Dict.{Dict, lookup, update}
use fullerite.Base.Result.{Result, ok, err, key_error, type_error, or_raise, bind}
use fullerite.Python.{int, Value, bool, num, str, strs}
use fullerite.Collector.State.{World}
use fullerite.Collector.Config.{get_default_config, process_config}

-- `IGNORE_DOMAINS`
abbrev pub ignore_domains : List Str
ignore_domains =
    map codes (
      "JMImplementation" ∷ "jmx4perl" ∷ "jolokia" ∷ "com.sun.management" ∷ "java.util.logging" ∷ [])

-- `get_default_config`. (An empty `rewrite` is a list there.)
abbrev pub jolokia_default : {F : Type 0} → Dict (Value F)
jolokia_default = update get_default_config (
    (codes "mbeans", strs [])
    ∷ (codes "regex", bool false)
    ∷ (codes "rewrite", strs [])
    ∷ (codes "url_path", str (codes "jolokia"))
    ∷ (codes "host", str (codes "localhost"))
    ∷ (codes "domain_blacklist", strs [])
    ∷ (codes "mbean_blacklist", strs [])
    ∷ (codes "port", num (int (pos 8_778)))
    ∷ (codes "listing_max_depth", num (int (pos 1)))
    ∷ (codes "read_limit", num (int (pos 1_000)))
    ∷ (codes "multiple_hosts_mode", bool false)
    ∷ [])

module _ {F : Type 0} where
  -- `self.mbeans`: the parts of a text, without the white space around them, or a list as it is
  unfoldable pub mbeans_of : Value F → List Str
  unfolding split
  mbeans_of (str s) = map strip (split b'|' s)
  mbeans_of (strs l) = l
  mbeans_of v = []

  -- `self.config['domain_blacklist']`, which is added to a list
  abbrev pub added_domains : Value F → Result (List Str)
  added_domains (strs l) = ok l
  added_domains v = err type_error

module _ (w : World) where
  open w use {float, float.{Carrier}}

  -- `process_config`: the configuration and the domains that are passed over
  unfoldable pub process_jolokia : Dict (Value Carrier) → Result (Dict (Value Carrier) × List Str)
  unfolding process_config lookup
  process_jolokia config = bind (process_config w config) λ processed.
      bind (or_raise (lookup (codes "domain_blacklist") processed) key_error)
        λ v. bind (added_domains v) λ l. ok (processed, ignore_domains ++ l)
