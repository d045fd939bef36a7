-- ===== src/Tests/Worlds.antt =====
-- A concrete world and a concrete collector.
use fullerite.Base.{ℕ, Bool, true, false, Option, none, some, List, [], ◌∷◌}
use fullerite.Base.Int.{pos}
use fullerite.Base.Text.{Str, codes, str_eq}
use fullerite.Base.Dict.{Dict}
use fullerite.Python.{int, Value, nil, num, str}
use fullerite.Metric.{no_dimensions}
use fullerite.Collector.State.{World, Collector, Payload}
use fullerite.Tests.Floats.{whole}

-- the names of the payloads, as the text that is sent
abbrev payload_names : List (Payload ℕ) → Option Str
payload_names [] = some []
payload_names (p ∷ ps) = some p.name

-- A world whose `sendall` goes by the given outcomes, and whose `connect` succeeds.
abbrev pub world_with : (ℕ → Bool) → World
world_with sends = record {
  float = whole;
  float_zero = λ x. false;
  matches = str_eq;
  compiles = λ p. true;
  dumps = payload_names;
  now = pos 1_000;
  send_ok = sends;
  connect_ok = λ n. true;
}

abbrev pub world : World
world = world_with (λ n. true)

abbrev pub broken_world : World
broken_world = world_with (λ n. false)

abbrev pub config_with : ℕ → Str → Dict (Value ℕ)
config_with limit suffix =
    (codes "metrics_whitelist", nil)
    ∷ (codes "metrics_blacklist", nil)
    ∷ (codes "interval", num (int (pos 10)))
    ∷ (codes "ttl_multiplier", num (int (pos 2)))
    ∷ (codes "path_prefix", str (codes "servers"))
    ∷ (codes "path_suffix", str suffix)
    ∷ (codes "path", str (codes "cpu"))
    ∷ (codes "max_buffer_size", num (int (pos limit)))
    ∷ []

-- A connected collector with the given limit and path suffix.
abbrev pub collector_with : ℕ → Str → Collector ℕ
collector_with limit suffix = record {
  name = codes "CPUCollector";
  class_name = codes "CPUCollector";
  connected = true;
  reconnect = false;
  default_dimensions = none;
  dimensions = no_dimensions;
  handlers = 0;
  last_values = [];
  payload = [];
  config = config_with limit suffix;
  configfile = [];
  connects = 0;
  sends = 0;
  sent = [];
  handlers_flushed = 0;
}
