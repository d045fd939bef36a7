-- ===== src/Collector/Derivative.antt =====
-- `Collector.derivative`: the rate of a counter, with rollover.
use fullerite.Base.{Bool, true, false, ◌&&◌, not, Option, none, some, if◌then◌else◌}
use fullerite.Base.Int.{pos}
use fullerite.Base.Text.{Str, codes}
use fullerite.Base.Dict.{lookup, insert}
use fullerite.Base.Result.{Result, ok, zero_division, or_raise, bind}
use fullerite.Base.Exec.{pure, lift, gets, modify, ◌>>=◌, ◌>>◌}
use fullerite.Python.{Num, int, flt}
use fullerite.Python.Arith.{to_float, num_sub, num_lt}
use fullerite.Python.Convert.{value_int}
use fullerite.Collector.State.{World, Action, config_get}
use fullerite.Collector.Path.{get_metric_path}

-- The keyword arguments of `derivative`.
pub record Counting (F : Type 0) : Type 0 where
  pub max_value : Num F
  pub time_delta : Bool
  pub interval : Option (Num F)
  pub allow_negative : Bool
  pub instance' : Option Str

-- The defaults of `derivative` and `publish_counter`.
abbrev pub default_counting : {F : Type 0} → Counting F
default_counting = record {
  max_value = int (pos 0);
  time_delta = true;
  interval = none;
  allow_negative = false;
  instance' = none;
}

module _ (w : World) where
  open w use {float, float.{Carrier, div, lt_int}}

  -- `new - old`, where a value below the old one has rolled over at `max_value`
  unfoldable pub change : Num Carrier → Num Carrier → Num Carrier → Result (Num Carrier)
  unfolding num_lt num_sub
  change max_value old new =
      if num_lt float new old
      then bind (num_sub float old max_value) (λ base. num_sub float new base)
      else num_sub float new old

  -- `float(x) / float(y)`, with a negative result cut off at the integer 0
  unfoldable pub rate : Bool → Num Carrier → Num Carrier → Result (Num Carrier)
  unfolding to_float
  rate allow_negative x y = bind (to_float float x) λ a. bind (to_float float y) λ b.
      bind (or_raise (div a b) zero_division)
        λ q. if lt_int q (pos 0) && not allow_negative then ok (int (pos 0)) else ok (flt q)

  -- the interval passed in, or the configured one
  abbrev pub interval_or_config : Option (Num Carrier) → Action w (Num Carrier)
  interval_or_config (some i) = pure i
  interval_or_config none = do
    v ← config_get (codes "interval")
    n ← lift (value_int float v)
    pure (int n)

  -- The result for a path that was seen before with value `old`.
  abbrev pub rate_since : Counting Carrier → Num Carrier → Num Carrier → Action w (Num Carrier)
  rate_since k new old = do
    x ← lift (change k.max_value old new)
    i ← interval_or_config k.interval
    lift (rate k.allow_negative x (if k.time_delta then i else int (pos 1)))

  abbrev pub rate_or_zero :
      Counting Carrier → Num Carrier → Option (Num Carrier) → Action w (Num Carrier)
  rate_or_zero k new none = pure (int (pos 0))
  rate_or_zero k new (some old) = rate_since k new old

  unfoldable pub derivative : Str → Num Carrier → Counting Carrier → Action w (Num Carrier)
  derivative name new k = do
    c ← gets (λ c. c)
    path ← lift (get_metric_path w.float_zero c name k.instance')
    result ← rate_or_zero k new (lookup path c.last_values)
    modify (λ c. record c { last_values = insert path new c.last_values })
    pure result
