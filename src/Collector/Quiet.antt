-- ===== src/Collector/Quiet.antt =====
-- The error reports of src/diamond/collector.py, as long as the buffer has room.
use fullerite.Base.{
  ℕ, suc, ◌+◌, ◌≤◌, ◌<◌, ◌≡◌, ◌⊎◌, refl, inl, inr, false, Option, none, some, [], ◌∷◌, ◌++◌, length,
  length-append, arith,
}
use fullerite.Base.Int.{pos}
use fullerite.Base.Text.{Str, codes}
use fullerite.Base.Dict.{Dict, lookup}
use fullerite.Base.Result.{Result-cases, Result, ok, err, recursion_limit, Error}
use fullerite.Base.Exec.{Exec, ◌>>=◌}
use fullerite.Python.{int, num, nil, Value}
use fullerite.Python.Convert.{value_float}
use fullerite.Metric
use fullerite.Metric.{Dimensions, no_dimensions, dict, Metric, new_metric}
use fullerite.Collector.State.{World, Collector, Action}
use fullerite.Collector.Path.{get_metric_path}
use fullerite.Collector.Publish.{
  error_sample, make_payload, is_allowed, config_float, has_full_buffer, publish_metric_with,
  create_metric, publish_allowed, publish_with,
}

-- The call did not meet the recursion limit.
abbrev pub Total : {A : Type 0} → Result A → Type 0
Total (ok a) = Unit
Total (err recursion_limit) = ⊥
Total (err e) = Unit

err-Total : (A B : Type 0) (e : Error) → Total {A = A} (err e) → Total {A = B} (err e)
err-Total A B recursion_limit h = h
err-Total A B e h = tt

module _ {F : Type 0} where
  -- What is left as it was: the connection, the configuration, and what was sent.
  pub record Quiet (b c : Collector F) : Type 0 where
    pub sends : c.sends ≡ b.sends
    pub sent : c.sent ≡ b.sent
    pub connects : c.connects ≡ b.connects
    pub connected : c.connected ≡ b.connected
    pub reconnect : c.reconnect ≡ b.reconnect
    pub config : c.config ≡ b.config
    pub room : length c.payload ≤ suc (length b.payload)

  -- The call was quiet, and did not meet the recursion limit.
  abbrev pub Tame : {A : Type 0} → Collector F → Result A × Collector F → Type 0
  Tame b p = Quiet b p.1 × Total p.0

  -- The call changes nothing, and does not meet the recursion limit.
  abbrev pub Reads : {A : Type 0} → Collector F → Result A × Collector F → Type 0
  Reads b p = (p.1 ≡ b) × Total p.0

  pub Quiet-refl : (c : Collector F) → Quiet c c
  Quiet-refl c = ground arith

  -- A read in front of a tame action.
  pub after_read :
      {A B : Type 0} {b c : Collector F} (m : Exec (Collector F) A) (f : A → Exec (Collector F) B)
      → Reads c (m c)
      → Quiet b c
      → ((a : A) → Tame {A = B} b (f a c))
      → Tame {A = B} b ((m >>= f) c)
  after_read {A} {B} {b} {c} m f (same, total) q h = go (m c).0 (m c).1 same total
    where
      go :
          (r : Result A) (d : Collector F)
          → d ≡ c
          → Total r
          → Tame {A = B} b (elim r [ ok a ↦ f a d | err e ↦ (err e, d) ])
      go (ok a) d e t = rw e (h a)
      go (err x) d e t = (rw e q, err-Total A B x t)

  -- A read either gives a value or raises.
  pub read_cases :
      {A : Type 0} {c : Collector F} (p : Result A × Collector F)
      → Reads c p
      → ((a : A) × (p ≡ (ok a, c)))
        ⊎ ((e : Error) × (p ≡ (err e, c)) × Total {A = Unit {0}} (err e))
  read_cases (ok a, d) (same, t) = inl (a, rw same)
  read_cases {A} (err e, d) (same, t) = inr (e, rw same, err-Total A Unit e t)

module _ (w : World) where
  open w use {float, float.{Carrier, mul}}

  is_allowed-Reads : (name : Str) (c : Collector Carrier) → Reads c (is_allowed w name c)
  unfolding is_allowed
  is_allowed-Reads name c = ground arith

  config_float-Reads : (key : Str) (c : Collector Carrier) → Reads c (config_float w key c)
  unfolding value_float
  config_float-Reads key c = ground arith

  get_metric_path-Total :
      (c : Collector Carrier) (name : Str) (i : Option Str)
      → Total (get_metric_path w.float_zero c name i)
  unfolding get_metric_path
  get_metric_path-Total c name i = ground arith

  make_payload-Total : (c : Collector Carrier) (m : Metric Carrier) → Total (make_payload c m)
  unfolding make_payload
  make_payload-Total c m = ground arith

  pub new_metric_error :
      (path : Str) (ttl : Option Carrier) (d : Dict (Value Carrier))
      → (m : Metric Carrier) × (Metric.new_metric float w.now
            (some path)
            (num (int (pos 1)))
            nil
            nil
            0
            (codes "GAUGE")
            ttl
            (dict d)
          ≡ ok m)
  unfolding Metric.new_metric
  new_metric_error path ttl d = (
    record {
      path = path;
      value = num (int (pos 1));
      raw_value = nil;
      timestamp = w.now;
      precision = 0;
      metric_type = codes "GAUGE";
      ttl = ttl;
      dimensions = some (Metric.filter_dimensions float d);
    },
    refl,
  )

  -- An error sample always makes a metric, if the configuration lets it be made at all.
  create_metric_error :
      (d : Dict (Value Carrier)) (c : Collector Carrier)
      → ((m : Metric Carrier) × (create_metric w error_sample (dict d) c ≡ (ok (ok m), c)))
        ⊎ ((e : Error) × (create_metric w error_sample (dict d) c ≡ (err e, c))
            × Total {A = Unit {0}} (err e))
  unfolding create_metric
  create_metric_error d c =
      let name = codes "fullerite.collector_errors" in
      let found : Result Str × Collector Carrier = (get_metric_path w.float_zero c name none, c) in
      elim (read_cases found (refl, get_metric_path-Total c name none)) [
        | inr (x, e, t) ↦ inr (x, ground arith, t)
        | inl (path, e) ↦ elim (read_cases _ (config_float-Reads (codes "interval") c)) [
          | inr (x, e1, t) ↦ inr (x, ground arith, t)
          | inl (i, e1) ↦ elim (read_cases _ (config_float-Reads (codes "ttl_multiplier") c)) [
            | inr (x, e2, t) ↦ inr (x, ground arith, t)
            | inl (k, e2) ↦
                let (m, made) = new_metric_error path (some (mul i k)) d in inl (m, ground arith)
          ]
        ]
      ]

  -- The buffer's limit is the plain integer n.
  abbrev pub HasLimit : ℕ → Collector Carrier → Type 0
  HasLimit n c = lookup (codes "max_buffer_size") c.config ≡ some (num (int (pos n)))

  has_full_buffer_below :
      (n : ℕ) (c : Collector Carrier)
      → HasLimit n c
      → length c.payload < n
      → has_full_buffer w c ≡ false
  unfolding has_full_buffer
  has_full_buffer_below n c h lt = ground arith

  module _ (report : Option Str → Action w Unit) (n : ℕ) where
    publish_metric-Tame :
        (m : Metric Carrier) (c : Collector Carrier)
        → HasLimit n c
        → length c.payload + 1 < n
        → Tame c (publish_metric_with w report m c)
    unfolding publish_metric_with
    publish_metric-Tame m c h lt = elim (Result-cases (make_payload c m)) [
      | inl (p, e) ↦
          let longer : length (c.payload ++ p ∷ []) ≡ length c.payload + 1 =
            length-append c.payload (p ∷ []) in
          let below =
            has_full_buffer_below n (record c { payload = c.payload ++ p ∷ [] }) h (rw longer lt) in
          rw (e, below) (ground arith, tt)
      | inr (x, e) ↦ let t = make_payload-Total c m in ground (arith)
    ]

    -- No second error is logged.
    publish_allowed-Tame :
        (d : Dict (Value Carrier)) (c : Collector Carrier)
        → HasLimit n c
        → length c.payload + 1 < n
        → Tame c (publish_allowed w report error_sample (dict d) c)
    unfolding publish_allowed
    publish_allowed-Tame d c h lt = elim (create_metric_error d c) [
      | inl (m, e) ↦ ground (arith, publish_metric-Tame m c h lt)
      | inr (x, e, t) ↦ ground (arith, Quiet-refl c)
    ]

    pub publish-Tame :
        (d : Dict (Value Carrier)) (c : Collector Carrier)
        → c.dimensions ≡ dict d
        → HasLimit n c
        → length c.payload + 1 < n
        → Tame c (publish_with w report error_sample c)
    unfolding publish_with
    publish-Tame d c e h lt =
        let name = codes "fullerite.collector_errors" in
        let taken = record c { dimensions = no_dimensions } in
        elim (read_cases _ (is_allowed-Reads name taken)) [
          | inl (b, p) ↦ ground (arith, publish_allowed-Tame d taken h lt)
          | inr (x, p, t) ↦ ground arith
        ]
