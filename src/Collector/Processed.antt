-- ===== src/Collector/Processed.antt =====
-- What `process_config` of src/diamond/collector.py leaves in the configuration.
use fullerite.Base.{
  ◌≡◌, ap, sym, refl, ◌∙◌, inl, inr, true, false, ◌&&◌, none, some, Option-cases, arith,
}
use fullerite.Base.Int.{ℤ}
use fullerite.Base.Text.{Str, codes, str_eq, str_eq_refl}
use fullerite.Base.Dict.{Dict, lookup, lookup-insert}
use fullerite.Base.Result.{Result, Result-cases, ok, ok-injective, ◌>>=◌}
use fullerite.Python.{Value, nil, num, pattern, int}
use fullerite.Python.Convert.{value_int}
use fullerite.Collector.State.{World}
use fullerite.Collector.Publish.{is_true}
use fullerite.Collector.Config.{
  convert_key, split_units, str_to_bool, compile, to_int, has_true, compile_lists, process_config,
}
use fullerite.Collector.Reading.{convert_key-lookup, compile-pattern}

module _ {F : Type 0} where
  -- A key's value after the conversion is a converted value.
  convert_key-converted :
      (key : Str) (f : Value F → Result (Value F)) (c d : Dict (Value F)) (v : Value F)
      → convert_key key f c ≡ ok d
      → lookup key d ≡ some v
      → (u : Value F) × (lookup key c ≡ some u) × (f u ≡ ok v)
  unfolding convert_key
  convert_key-converted key f c d v h found = elim (Option-cases (lookup key c)) [
    | inl absent ↦ ground arith
    | inr (u, present) ↦ elim (Result-cases (f u)) [
      | inl (x, e) ↦ (u, present, ground (arith, lookup-insert key key x c, str_eq_refl key))
      | inr (x, e) ↦ ground arith
    ]
  ]

module _ (w : World) where
  open w use {float, float.{Carrier}}

  to_int-int : (u v : Value Carrier) → to_int w u ≡ ok v → (n : ℤ) × (v ≡ num (int n))
  unfolding value_int
  to_int-int u v h = elim (Result-cases (value_int float u)) [
    | inl (n, e) ↦ (n, ok-injective (sym h ∙ ap (λ r. r >>= λ k. ok (num (int k))) e))
    | inr (x, e) ↦ ground arith
  ]

  -- The dicts between the steps.
  record Steps (c d : Dict (Value Carrier)) : Type 0 where
    c1 : Dict (Value Carrier)
    c2 : Dict (Value Carrier)
    c3 : Dict (Value Carrier)
    c4 : Dict (Value Carrier)
    units : convert_key (codes "byte_unit") split_units c ≡ ok c1
    enabled : convert_key (codes "enabled") str_to_bool c1 ≡ ok c2
    measured : convert_key (codes "measure_collector_time") str_to_bool c2 ≡ ok c3
    lists : compile_lists w c3 ≡ ok c4
    size : convert_key (codes "max_buffer_size") (to_int w) c4 ≡ ok d

  process_config-Steps : (c d : Dict (Value Carrier)) → process_config w c ≡ ok d → Steps c d
  unfolding process_config
  process_config-Steps c d h = elim (Result-cases (convert_key (codes "byte_unit") split_units c)) [
    | inr (x, e) ↦ ground arith
    | inl (c1, e1) ↦ elim (Result-cases (convert_key (codes "enabled") str_to_bool c1)) [
      | inr (x, e) ↦ ground arith
      | inl (c2, e2) ↦
          elim (Result-cases (convert_key (codes "measure_collector_time") str_to_bool c2)) [
            | inr (x, e) ↦ ground arith
            | inl (c3, e3) ↦ elim (Result-cases (compile_lists w c3)) [
              | inr (x, e) ↦ ground arith
              | inl (c4, e4) ↦ record {
                c1 = c1;
                c2 = c2;
                c3 = c3;
                c4 = c4;
                units = e1;
                enabled = e2;
                measured = e3;
                lists = e4;
                size = ground arith;
              }
            ]
          ]
    ]
  ]

  -- before the lists are read, their keys are untouched
  list-kept :
      (key : Str) (c d : Dict (Value Carrier)) (s : Steps c d)
      → str_eq (codes "byte_unit") key ≡ false
      → str_eq (codes "enabled") key ≡ false
      → str_eq (codes "measure_collector_time") key ≡ false
      → lookup key s.c3 ≡ lookup key c
  list-kept key c d s a b m =
      convert_key-lookup (codes "measure_collector_time") key str_to_bool s.c2 s.c3 s.measured m
      ∙ convert_key-lookup (codes "enabled") key str_to_bool s.c1 s.c2 s.enabled b
      ∙ convert_key-lookup (codes "byte_unit") key split_units c s.c1 s.units a

  has_true-lookup :
      (key : Str) (c d : Dict (Value Carrier))
      → lookup key c ≡ lookup key d
      → has_true w key c ≡ has_true w key d
  has_true-lookup key c d e = ap (λ o. is_true w (elim o [ none ↦ nil | some v ↦ v ])) e

  -- where a list is given it is compiled, and both are not given
  pub record Listed (c d : Dict (Value Carrier)) : Type 0 where
    pub exclusive :
        (has_true w (codes "metrics_whitelist") c && has_true w (codes "metrics_blacklist") c)
        ≡ false
    pub whitelist :
        has_true w (codes "metrics_whitelist") c ≡ true
        → (p : Str) × (lookup (codes "metrics_whitelist") d ≡ some (pattern p))
    pub blacklist :
        has_true w (codes "metrics_blacklist") c ≡ true
        → (p : Str) × (lookup (codes "metrics_blacklist") d ≡ some (pattern p))

  -- a key that `has_true` finds is there
  has_true-some :
      (key : Str) (c : Dict (Value Carrier))
      → has_true w key c ≡ true
      → (u : Value Carrier) × (lookup key c ≡ some u)
  has_true-some key c h = elim (Option-cases (lookup key c)) [
    | inl absent ↦ ground arith
    | inr (u, present) ↦ (u, present)
  ]

  -- Converting a key that is there gives the key a converted value.
  convert_key-some :
      (key : Str) (c d : Dict (Value Carrier))
      → convert_key key (compile w) c ≡ ok d
      → has_true w key c ≡ true
      → (p : Str) × (lookup key d ≡ some (pattern p))
  unfolding convert_key
  convert_key-some key c d h given =
      let (u, present) = has_true-some key c given in
      elim (Result-cases (compile w u)) [
        | inl (x, e) ↦
            let (p, q) = compile-pattern w u x e in
            (p, ground (arith, q, present, lookup-insert key key x c, str_eq_refl key))
        | inr (x, e) ↦ ground (arith, present)
      ]

  compile_lists-Listed : (c d : Dict (Value Carrier)) → compile_lists w c ≡ ok d → Listed c d
  unfolding compile_lists
  compile_lists-Listed c d h = record {
    exclusive = ground arith;
    whitelist = λ given. convert_key-some (codes "metrics_whitelist") c d (ground arith) given;
    blacklist = λ given. convert_key-some (codes "metrics_blacklist") c d (ground arith) given;
  }

  list-kept_last :
      (key : Str) (c d : Dict (Value Carrier)) (s : Steps c d)
      → str_eq (codes "max_buffer_size") key ≡ false
      → lookup key d ≡ lookup key s.c4
  list-kept_last key c d s m =
      convert_key-lookup (codes "max_buffer_size") key (to_int w) s.c4 d s.size m

  -- If `process_config` raises nothing, the two lists were not both given, and the one that was
  -- given is a compiled pattern now.
  pub process_config-Listed : (c d : Dict (Value Carrier)) → process_config w c ≡ ok d → Listed c d
  process_config-Listed c d h =
      let s = process_config-Steps c d h in
      let listed = compile_lists-Listed s.c3 s.c4 s.lists in
      let white =
        has_true-lookup (codes "metrics_whitelist") s.c3 c
          (list-kept (codes "metrics_whitelist") c d s refl refl refl) in
      let black =
        has_true-lookup (codes "metrics_blacklist") s.c3 c
          (list-kept (codes "metrics_blacklist") c d s refl refl refl) in
      record {
        exclusive = rw (← white, ← black) listed.exclusive;
        whitelist = λ given.
            rw (list-kept_last (codes "metrics_whitelist") c d s refl)
              (listed.whitelist (white ∙ given));
        blacklist = λ given.
            rw (list-kept_last (codes "metrics_blacklist") c d s refl)
              (listed.blacklist (black ∙ given));
      }

  -- If `process_config` raises nothing, `max_buffer_size` is a whole number where it is given.
  pub process_config-max_buffer_size :
      (c d : Dict (Value Carrier)) (v : Value Carrier)
      → process_config w c ≡ ok d
      → lookup (codes "max_buffer_size") d ≡ some v
      → (n : ℤ) × (v ≡ num (int n))
  process_config-max_buffer_size c d v h found =
      let s = process_config-Steps c d h in
      let (u, present, e) =
        convert_key-converted (codes "max_buffer_size") (to_int w) s.c4 d v s.size found in
      to_int-int u v e
