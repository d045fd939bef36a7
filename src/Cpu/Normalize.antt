-- ===== src/Cpu/Normalize.antt =====
-- `normalize` in src/diamond/collectors/cpu/cpu.py.
use fullerite.Base.{
  ℕ, ◌≡◌, refl, Bool, true, false, Bool-cases, inl, inr, List, [], ◌∷◌, ◌++◌, All, arith,
}
use mathlib.Core.Path.{subst}
use mathlib.Core.List.{reverse_aux}
use fullerite.Base.Int.{ℤ, pos, negsuc, ◌+ℤ◌}
use fullerite.Base.Text.{Str, codes, str_eq, starts_with, words, words_from, is_space}
use fullerite.Base.Dict.{Dict, insert}
use fullerite.Base.Result.{Result-cases, ok}
use fullerite.Python.{Value}
use fullerite.Python.Convert.{value_int}
use fullerite.Collector.State.{World}
use fullerite.Collector.Config.{str_to_bool}
use fullerite.Collector.Publish.{is_true}
use fullerite.Cpu.{
  Stats, add_line, read_lines, line_stats, metric_value, stats_metrics, cpu_metrics,
}

true_not_false : ¬ (false ≡ true)
true_not_false h = ground (arith, h)

-- The word that is being read comes first.
words_from-append :
    (d : ℕ) (word s : Str)
    → (t : Str) × (vs : List Str) × (words_from (d ∷ word) s ≡ reverse_aux (d ∷ word) t ∷ vs)
words_from-append d word [] = ([], [], refl)
words_from-append d word (c ∷ s) = elim (Bool-cases (is_space c)) [
  | inl space ↦ ([], words_from [] s, ground (arith, space))
  | inr other ↦
      let (t, vs, e) = words_from-append c (d ∷ word) s in (c ∷ t, vs, ground (arith, other, e))
]

module _ (w : World) where
  open w use {float, float.{Carrier}}

  stats_metrics_off :
      (b : Bool) (cpu : Str) (count : ℤ) (stats : Stats w) (m : Dict ℤ)
      → str_eq cpu (codes "total") ≡ false
      → stats_metrics w b cpu count stats m ≡ stats_metrics w false cpu count stats m
  unfolding stats_metrics metric_value
  stats_metrics_off false cpu count stats m h = refl
  stats_metrics_off true cpu count [] m h = refl
  stats_metrics_off true cpu count ((name, v) ∷ stats) m h =
      elim (Result-cases (value_int float v)) [
        | inl (n, e) ↦
            ground
              (arith, e, stats_metrics_off true cpu count stats (insert (cpu ++ b'.' ∷ name) n m) h)
        | inr (x, e) ↦ ground (arith, e)
      ]

  -- The keys begin with `cpu`.
  abbrev Cpus : Dict (Stats w) → Type 0
  Cpus = All λ e. starts_with e.0 (codes "cpu") ≡ true

  cpu_not_total :
      (cpu : Str) → starts_with cpu (codes "cpu") ≡ true → str_eq cpu (codes "total") ≡ false
  cpu_not_total [] h = refl
  cpu_not_total (c ∷ s) h = ground arith

  cpu_metrics-Cpus :
      (b : Bool) (count : ℤ) (results : Dict (Stats w)) (m : Dict ℤ)
      → Cpus results
      → cpu_metrics w b count results m ≡ cpu_metrics w false count results m
  unfolding cpu_metrics
  cpu_metrics-Cpus b count [] m h = refl
  cpu_metrics-Cpus b count ((cpu, stats) ∷ results) m h =
      elim (Result-cases (stats_metrics w false cpu count stats m)) [
        | inl (n, e) ↦ ground (
          arith,
          e,
          stats_metrics_off b cpu count stats m (cpu_not_total cpu h.0),
          cpu_metrics-Cpus b count results n h.1,
        )
        | inr (x, e) ↦
            ground (arith, e, stats_metrics_off b cpu count stats m (cpu_not_total cpu h.0))
      ]

  insert-Cpus :
      (cpu : Str) (stats : Stats w) (results : Dict (Stats w))
      → starts_with cpu (codes "cpu") ≡ true
      → Cpus results
      → Cpus (insert cpu stats results)
  unfolding insert
  insert-Cpus cpu stats [] p h = (p, tt)
  insert-Cpus cpu stats ((k, v) ∷ results) p h = elim (Bool-cases (str_eq k cpu)) [
    | inl same ↦ rw same (h.0, h.1)
    | inr other ↦ rw other (h.0, insert-Cpus cpu stats results p h.1)
  ]

  -- A line that begins with `cpu` has a word that does.
  words-cpu :
      (l : Str)
      → starts_with l (codes "cpu") ≡ true
      → (n : Str) × (vs : List Str) × (words l ≡ n ∷ vs) × (starts_with n (codes "cpu") ≡ true)
  words-cpu [] h = elim (true_not_false h) [ ]
  words-cpu (c ∷ []) h = elim (true_not_false (ground (arith, h))) [ ]
  words-cpu (c ∷ p ∷ []) h = elim (true_not_false (ground (arith, h))) [ ]
  words-cpu (c ∷ p ∷ u ∷ s) h =
      let (t, vs, e) = words_from-append u (p ∷ c ∷ []) s in
      (c ∷ p ∷ u ∷ t, vs, ground (arith, e), ground (arith, h))

  add_line-Cpus :
      (percore : Value Carrier) (name : Str) (values : List Str) (results after : Dict (Stats w))
      → starts_with name (codes "cpu") ≡ true
      → Cpus results
      → add_line w percore (name ∷ values) results ≡ ok after
      → Cpus after
  unfolding add_line
  add_line-Cpus percore name values results after p h e =
      elim (Result-cases (line_stats w values)) [
        | inr (x, raised) ↦ elim (Bool-cases (str_eq name (codes "cpu"))) [
          | inl total ↦ ground (arith, raised)
          | inr single ↦ elim (Result-cases (str_to_bool percore)) [
            | inr (y, f) ↦ ground (arith, raised, f)
            | inl (b, f) ↦ elim (Bool-cases (is_true w b)) [
              | inl on ↦ ground (arith, raised, f, on)
              | inr off ↦
                  let same : results ≡ after = ground (arith, raised, f, off) in subst Cpus same h
            ]
          ]
        ]
        | inl (stats, made) ↦ elim (Bool-cases (str_eq name (codes "cpu"))) [
          | inl total ↦
              let same : insert (codes "cpu.total") stats results ≡ after =
                ground (arith, made, total) in
              subst Cpus same (insert-Cpus (codes "cpu.total") stats results refl h)
          | inr single ↦ elim (Result-cases (str_to_bool percore)) [
            | inr (y, f) ↦ ground (arith, made, f)
            | inl (b, f) ↦ elim (Bool-cases (is_true w b)) [
              | inl on ↦
                  let same : insert name stats results ≡ after =
                    ground (arith, made, f, on, single) in
                  subst Cpus same (insert-Cpus name stats results p h)
              | inr off ↦
                  let same : results ≡ after = ground (arith, made, f, off) in subst Cpus same h
            ]
          ]
        ]
      ]

  read_lines-Cpus :
      (percore : Value Carrier) (ls : List Str) (count total : ℤ) (results after : Dict (Stats w))
      → Cpus results
      → read_lines w percore ls count results ≡ ok (after, total)
      → Cpus after
  unfolding read_lines
  read_lines-Cpus percore [] count total results after h e =
      let same : results ≡ after = ground (arith) in subst Cpus same h
  read_lines-Cpus percore (l ∷ ls) count total results after h e =
      elim (Bool-cases (starts_with l (codes "cpu"))) [
        | inr other ↦ read_lines-Cpus percore ls count total results after h (ground (arith, other))
        | inl cpu ↦
            let (n, vs, split_line, p) = words-cpu l cpu in
            elim (Result-cases (add_line w percore (n ∷ vs) results)) [
              | inl (r, added) ↦
                  read_lines-Cpus percore ls (count +ℤ pos 1) total r after
                    (add_line-Cpus percore n vs results r p h added)
                    (ground (arith, cpu, split_line, added))
              | inr (x, raised) ↦ ground (arith, cpu, split_line, raised)
            ]
      ]

  -- The option `normalize` makes no difference: for what is read from any lines, the table of
  -- metrics is the same with it as without it.
  pub cpu_metrics-normalize :
      (b : Bool) (percore : Value Carrier) (lines : List Str) (count : ℤ) (results : Dict (Stats w))
      (m : Dict ℤ)
      → read_lines w percore lines (negsuc 0) [] ≡ ok (results, count)
      → cpu_metrics w b count results m ≡ cpu_metrics w false count results m
  cpu_metrics-normalize b percore lines count results m e =
      cpu_metrics-Cpus b count results m
        (read_lines-Cpus percore lines (negsuc 0) count [] results tt e)
