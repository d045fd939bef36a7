-- ===== src/Collector/Names.antt =====
-- The path that `get_metric_path` of src/diamond/collector.py builds, and the parts of it that
-- `publish_metric` reads.
use fullerite.Base.{Bool, ◌≡◌, ◌≢◌, refl, sym, ap, ◌∙◌, false, none, some, List, [], ◌∷◌, arith}
use mathlib.Core.List.{append_assoc}
use fullerite.Base.Text.{Str, codes, str_eq, Lacks, split, join, split-append, join-split}
use fullerite.Base.Dict.{lookup}
use fullerite.Base.Result.{ok, ok-injective}
use fullerite.Python.{Value, str}
use fullerite.Metric
use fullerite.Metric.{Metric}
use fullerite.Collector.State.{Collector}
use fullerite.Collector.Path.{get_metric_path}
use fullerite.Collector.Publish.{make_payload, payload_dimensions, raw_or}

module _ {F : Type 0} where
  -- The configuration's prefix, suffix and path of the collector.
  pub record Named (prefix path : Str) (suffix : Value F) (c : Collector F) : Type 0 where
    pub has_prefix : lookup (codes "path_prefix") c.config ≡ some (str prefix)
    pub has_path : lookup (codes "path") c.config ≡ some (str path)
    pub has_path_suffix : lookup (codes "path_suffix") c.config ≡ some suffix
    pub prefix_word : Lacks b'.' prefix
    pub path_word : Lacks b'.' path
    pub path_some : path ≢ []

not_dot : (path : Str) → Lacks b'.' path → str_eq path (codes ".") ≡ false
not_dot [] h = refl
not_dot (c ∷ []) h = ground arith
not_dot (c ∷ d ∷ s) h = ground arith

-- A path whose first two parts have no dot splits into those and the parts of the rest.
split_three :
    (a b s : Str)
    → Lacks b'.' a
    → Lacks b'.' b
    → split b'.' (join b'.' (a ∷ b ∷ s ∷ [])) ≡ a ∷ b ∷ split b'.' s
split_three a b s ha hb =
    split-append b'.' a (join b'.' (b ∷ s ∷ [])) ha
    ∙ ap (λ (t : List Str). a ∷ t) (split-append b'.' b s hb)

-- So its prefix is the first part, its collector the second, and its metric path is the rest.
read_path :
    (a b s : Str)
    → Lacks b'.' a
    → Lacks b'.' b
    → let path = join b'.' (a ∷ b ∷ s ∷ []) in
      (Metric.get_path_prefix path ≡ ok a)
      × (Metric.get_collector_path path ≡ ok b)
      × (Metric.get_metric_path path ≡ s)
unfolding Metric.get_path_prefix Metric.get_collector_path Metric.get_metric_path
read_path a b s ha hb = let e = split_three a b s ha hb in (rw e, rw e, rw e (join-split b'.' s))

module _ {F : Type 0} (float_zero : F → Bool) where
  -- Without a suffix a metric's path is the prefix, the collector's path and its name.
  pub metric_path_plain :
      (prefix path name : Str) (c : Collector F)
      → Named prefix path (str []) c
      → get_metric_path float_zero c name none ≡ ok (join b'.' (prefix ∷ path ∷ name ∷ []))
  unfolding get_metric_path
  metric_path_plain prefix path name c h = ground (arith, not_dot path h.path_word)

  -- A suffix stands behind the prefix.
  metric_path_suffix :
      (prefix suffix path name : Str) (c : Collector F)
      → Named prefix path (str suffix) c
      → suffix ≢ []
      → get_metric_path float_zero c name none
        ≡ ok (join b'.' (prefix ∷ suffix ∷ join b'.' (path ∷ name ∷ []) ∷ []))
  unfolding get_metric_path
  metric_path_suffix prefix [] path name c h some_suffix = absurd (some_suffix refl)
  metric_path_suffix prefix (d ∷ suffix) path name c h some_suffix = ground (
    arith,
    not_dot path h.path_word,
    append_assoc prefix (b'.' ∷ d ∷ suffix) (b'.' ∷ join b'.' (path ∷ name ∷ [])),
  )

  -- Without a path suffix, and with a prefix and a non-empty collector path that have no dots, a
  -- metric made under `get_metric_path` is published with the name that the collector gave it,
  -- whatever dots that holds, and with the prefix and the collector's path as dimensions.
  pub make_payload-get_metric_path :
      (prefix path name : Str) (c : Collector F) (m : Metric F)
      → Named prefix path (str []) c
      → get_metric_path float_zero c name none ≡ ok m.path
      → make_payload c m
        ≡ ok (record {
          name = name;
          value = raw_or m.raw_value m.value;
          type = m.metric_type;
          dimensions = payload_dimensions prefix path c.name c.default_dimensions m.dimensions;
        })
  unfolding make_payload
  make_payload-get_metric_path prefix path name c m h e =
      let (p, q, r) = read_path prefix path name h.prefix_word h.path_word in
      let same : join b'.' (prefix ∷ path ∷ name ∷ []) ≡ m.path =
        ok-injective (sym (metric_path_plain prefix path name c h) ∙ e) in
      rw (← same, p, q, r)

  -- With a non-empty path suffix, and a suffix, a prefix and a non-empty collector path that have
  -- no dots, a metric made under `get_metric_path` is published with the suffix as its collector,
  -- and with the collector's path in front of its name.
  pub make_payload_suffix :
      (prefix suffix path name : Str) (c : Collector F) (m : Metric F)
      → Named prefix path (str suffix) c
      → suffix ≢ []
      → Lacks b'.' suffix
      → get_metric_path float_zero c name none ≡ ok m.path
      → make_payload c m
        ≡ ok (record {
          name = join b'.' (path ∷ name ∷ []);
          value = raw_or m.raw_value m.value;
          type = m.metric_type;
          dimensions = payload_dimensions prefix suffix c.name c.default_dimensions m.dimensions;
        })
  unfolding make_payload
  make_payload_suffix prefix suffix path name c m h some_suffix word e =
      let rest = join b'.' (path ∷ name ∷ []) in
      let (p, q, r) = read_path prefix suffix rest h.prefix_word word in
      let same : join b'.' (prefix ∷ suffix ∷ rest ∷ []) ≡ m.path =
        ok-injective (sym (metric_path_suffix prefix suffix path name c h some_suffix) ∙ e) in
      rw (← same, p, q, r)
