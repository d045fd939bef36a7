-- ===== src/Elastic/Indices.antt =====
-- `_index_metrics` and `_build_index_to_aliases_map` of
-- src/diamond/collectors/elasticsearch/elasticsearch.py. The map of the aliases is passed on, since
-- the list that is taken out of it is appended to in place.
use fullerite.Base.{
  ℕ, Bool, true, false, ◌&&◌, ◌||◌, ◌==◌, leb, Option, none, some, List, [], ◌∷◌, ◌++◌, map,
  if◌then◌else◌,
}
use fullerite.Base.Int.{pos}
use fullerite.Base.Text.{Str, codes, ends_with}
use fullerite.Base.Dict.{Dict, lookup, insert}
use fullerite.Base.Result.{Result, ok, bind}
use fullerite.Python.{Float, int}
use fullerite.Json.{Json, number, Fields, no_fields, field, field_names, fields_of, get, index}
use fullerite.Elastic.{Metrics, set_or_sum, copy_two_level, add_metric}

abbrev pub is_digit : ℕ → Bool
is_digit c = leb b'0' c && leb c b'9'

-- A date `-YYYY.MM.DD` to the end of the text.
abbrev pub is_date : Str → Bool
is_date (d ∷ y1 ∷ y2 ∷ y3 ∷ y4 ∷ p ∷ m1 ∷ m2 ∷ q ∷ d1 ∷ d2 ∷ []) =
    (d == b'-')
    && is_digit y1
    && is_digit y2
    && is_digit y3
    && is_digit y4
    && (p == b'.')
    && is_digit m1
    && is_digit m2
    && (q == b'.')
    && is_digit d1
    && is_digit d2
is_date s = false

-- The first group of `RE_LOGSTASH_INDEX`, for a text without a line break.
unfoldable pub logstash_group : Str → Option Str
logstash_group [] = none
logstash_group (c ∷ s) =
    let rest = logstash_group s in
    if is_date (c ∷ s) then some [] else elim rest [ none ↦ none | some g ↦ some (c ∷ g) ]

-- `index_to_aliases_map`, which may be None
abbrev pub Aliases : Type 0
Aliases = Option (Dict (List Str))

-- The names to publish an index under, and the map with the list that they were appended to.
unfoldable pub names_of : Str → Aliases → List Str × Aliases
unfolding lookup insert
names_of prefix none = (prefix ∷ [], none)
names_of prefix (some d) = elim (lookup prefix d) [
  | none ↦ (prefix ∷ [], some d)
  | some names ↦ (names ++ prefix ∷ [], some (insert prefix (names ++ prefix ∷ []) d))
]

abbrev pub indices_name : Str → Str
indices_name name = codes "indices." ++ name

module _ (fl : Float) where
  open fl use {Carrier}

  abbrev pub is_counted : Str → Bool
  is_counted key = ends_with key (codes "total") || ends_with key (codes "time_in_millis")

  -- the metrics of an index under one name
  unfoldable pub name_metrics : Str → Json Carrier → Metrics fl → Result (Metrics fl)
  unfolding add_metric copy_two_level
  name_metrics prefix index m =
      bind
        (add_metric fl (prefix ++ codes ".docs.count") index (codes "docs" ∷ codes "count" ∷ []) m)
        λ m1.
          bind
            (add_metric fl (prefix ++ codes ".docs.deleted") index
              (codes "docs" ∷ codes "deleted" ∷ []) m1)
            λ m2.
              bind
                (add_metric fl (prefix ++ codes ".datastore.size") index
                  (codes "store" ∷ codes "size_in_bytes" ∷ []) m2)
                λ m3. copy_two_level fl is_counted prefix index m3

  unfoldable pub names_metrics : List Str → Json Carrier → Metrics fl → Result (Metrics fl)
  unfolding name_metrics
  names_metrics [] index m = ok m
  names_metrics (prefix ∷ names) index m =
      bind (name_metrics prefix index m) λ n. names_metrics names index n

  -- The prefix without the date, and the count of the indices that share it.
  unfoldable pub grouped : Bool → Str → Metrics fl → Result (Str × Metrics fl)
  unfolding logstash_group set_or_sum
  grouped false prefix m = ok (prefix, m)
  grouped true prefix m = elim (logstash_group prefix) [
    | none ↦ ok (prefix, m)
    | some g ↦
        bind (set_or_sum fl (g ++ codes ".indexes_in_group") (number (int (pos 1))) m)
          λ n. ok (g, n)
  ]

  -- `_index_metrics`
  unfoldable pub index_metrics :
      Bool → Str → Json Carrier → Metrics fl → Aliases → Result (Metrics fl × Aliases)
  unfolding grouped names_of names_metrics
  index_metrics logstash prefix index m aliases = bind (grouped logstash prefix m) λ g.
      let (names, kept) = names_of g.0 aliases in
      bind (names_metrics names index g.1) λ n. ok (n, kept)

  -- the loop over the indices
  unfoldable pub indices_metrics :
      Bool → Fields Carrier → Metrics fl → Aliases → Result (Metrics fl)
  unfolding index_metrics index
  indices_metrics logstash no_fields m aliases = ok m
  indices_metrics logstash (field name d more) m aliases = bind (index d (codes "primaries")) λ p.
      bind (index_metrics logstash (indices_name name) p m aliases)
        λ r. indices_metrics logstash more r.0 r.1

  -- `list(aliases_dict.get('aliases', {}).keys())`
  abbrev pub alias_names : Json Carrier → Result (List Str)
  unfolding get
  alias_names d =
      bind (get d (codes "aliases"))
        λ found. elim found [ none ↦ ok [] | some a ↦ bind (fields_of a) λ fs. ok (field_names fs) ]

  -- `_build_index_to_aliases_map`
  unfoldable pub build_aliases : Fields Carrier → Dict (List Str) → Result (Dict (List Str))
  unfolding alias_names insert
  build_aliases no_fields d = ok d
  build_aliases (field name a more) d =
      bind (alias_names a)
        λ names. build_aliases more (insert (indices_name name) (map indices_name names) d)
