-- ===== src/Collector/Reading.antt =====
-- What `load_config` of src/diamond/collector.py gives `process_config`.
use fullerite.Base.{
  ◌≡◌, ap, refl, inl, inr, Bool, true, false, Option, none, some, Option-cases, arith,
  if◌then◌else◌,
}
use fullerite.Base.Text.{Str, codes, str_eq}
use fullerite.Base.Dict.{Dict, lookup, or_else, lookup_last, lookup-insert, lookup-update}
use fullerite.Base.Result.{Result, Result-cases, ok, ok-injective}
use fullerite.Python.{Value, nil, bool, num, str, strs, pattern}
use fullerite.Collector.State.{World}
use fullerite.Collector.Path.{config_or}
use fullerite.Collector.Config.{get_default_config, convert_key, compile, merge_config}

module _ {F : Type 0} where
  -- the values that `load_config` sets itself, over the defaults
  abbrev pub injected : Str → Value F → Value F → Option (Value F)
  injected j port interval =
      if str_eq (codes "interval") j
      then some interval
      else if str_eq (codes "fulleritePort") j
      then some port
      else if str_eq (codes "enabled") j
      then some (bool true)
      else none

  injected_or_else :
      (a b c : Bool) (x y z : Value F) (o : Option (Value F))
      → (if a then some x else if b then some y else if c then some z else o)
        ≡ or_else (if a then some x else if b then some y else if c then some z else none) o
  injected_or_else true b c x y z o = refl
  injected_or_else false true c x y z o = refl
  injected_or_else false false true x y z o = refl
  injected_or_else false false false x y z o = refl

  pub convert_key-lookup :
      (key j : Str) (f : Value F → Result (Value F)) (c d : Dict (Value F))
      → convert_key key f c ≡ ok d
      → str_eq key j ≡ false
      → lookup j d ≡ lookup j c
  unfolding convert_key
  convert_key-lookup key j f c d h ne = elim (Option-cases (lookup key c)) [
    | inl absent ↦ ground arith
    | inr (v, present) ↦ elim (Result-cases (f v)) [
      | inl (u, e) ↦ ground (arith, lookup-insert key j u c)
      | inr (x, e) ↦ ground arith
    ]
  ]

module _ (w : World) where
  open w use {float, float.{Carrier}}

  -- With a port, an interval and defaults in the framework's configuration, a key's value in the
  -- dict that `process_config` gets comes from the collector's own file if that has the key, then
  -- from the framework's defaults, then from what `load_config` sets, then from the class's
  -- defaults, then from what the dict held before.
  pub merge_config-lookup :
      (j : Str) (port interval : Value Carrier) (defaults own c m : Dict (Value Carrier))
      → merge_config w
          (record {
            fullerite_port = some port;
            interval = some interval;
            default_config = some defaults;
          })
          own
          c
        ≡ ok m
      → lookup j m
        ≡ or_else (lookup_last j own) (
            or_else (lookup_last j defaults) (
              or_else
                (injected j port (config_or (codes "interval") interval own))
                (or_else (lookup_last j get_default_config) (lookup j c))))
  unfolding merge_config
  merge_config-lookup j port interval defaults own c m h =
      rw
        (
          ← ok-injective h,
          lookup-update,
          lookup-update,
          lookup-insert,
          lookup-insert,
          lookup-insert,
          lookup-update,
        )
        (ap (or_else (lookup_last j own)) (
          ap (or_else (lookup_last j defaults)) (
            injected_or_else (str_eq (codes "interval") j) (str_eq (codes "fulleritePort") j)
              (str_eq (codes "enabled") j) (config_or (codes "interval") interval own) port
              (bool true) _)))

  pub compile-pattern : (v u : Value Carrier) → compile w v ≡ ok u → (p : Str) × (u ≡ pattern p)
  compile-pattern (str s) u h = ground arith
  compile-pattern (pattern p) u h = (p, ground arith)
  compile-pattern nil u h = cc
  compile-pattern (bool b) u h = cc
  compile-pattern (num n) u h = cc
  compile-pattern (strs l) u h = cc
