-- ===== src/Memcached/Pid.antt =====
-- The process id that `get_stats` of src/diamond/collectors/memcached/memcached.py looks for.
use fullerite.Base.{
  ◌≡◌, sym, ap, ◌∙◌, true, Bool-cases, inl, inr, Option, none, List, [], ◌∷◌, arith,
}
use fullerite.Base.Text.{Str, codes, str_eq, str_eq→eq, str_mem, split}
use fullerite.Base.Dict.{Dict}
use fullerite.Base.Result.{Result-cases, ok}
use fullerite.Python.{Value}
use fullerite.Collector.State.{World}
use fullerite.Memcached.{ignored, stat_value, read_stat, read_stats, get_stats}

module _ (w : World) where
  open w use {float, float.{Carrier}}

  read_stat-pid :
      (pieces : List Str) (stats : Dict (Value Carrier)) (pid : Option Str)
      (after : Dict (Value Carrier) × Option Str)
      → read_stat w pieces (stats, pid) ≡ ok after
      → after.1 ≡ pid
  unfolding read_stat
  read_stat-pid [] stats pid after h = ground arith
  read_stat-pid (kind ∷ []) stats pid after h = ground arith
  read_stat-pid (kind ∷ name ∷ []) stats pid after h = ground arith
  read_stat-pid (kind ∷ name ∷ text ∷ more) stats pid after h =
      elim (Bool-cases (str_eq name (codes "pid"))) [
        | inl same ↦
            let there : str_mem name ignored ≡ true =
              ap (λ (s : Str). str_mem s ignored) (str_eq→eq name (codes "pid") same) in
            ground (arith, there)
        | inr other ↦ elim (Result-cases (stat_value w text)) [
          | inl (v, e) ↦ ground (arith, other, e)
          | inr (x, e) ↦ ground (arith, other, e)
        ]
      ]

  read_stats-pid :
      (lines : List Str) (stats : Dict (Value Carrier)) (pid : Option Str)
      (after : Dict (Value Carrier) × Option Str)
      → read_stats w lines (stats, pid) ≡ ok after
      → after.1 ≡ pid
  unfolding read_stats
  read_stats-pid [] stats pid after h = ground arith
  read_stats-pid (l ∷ ls) stats pid after h =
      elim (Result-cases (read_stat w (split b' ' l) (stats, pid))) [
        | inl (next, e) ↦
            read_stats-pid ls next.0 next.1 after (ground (arith, e))
            ∙ read_stat-pid (split b' ' l) stats pid next e
        | inr (x, e) ↦ ground (arith, e)
      ]

  -- The connection limit of the server's process is never found: two ways to look up the limit of
  -- a process, which agree where the process is unknown, give the same statistics, whatever
  -- process id the server sends.
  pub get_stats-pid :
      (limit other : Option Str → Option Str) (lines : List Str)
      → limit none ≡ other none
      → get_stats w limit lines ≡ get_stats w other lines
  unfolding get_stats
  get_stats-pid limit other lines h = elim (Result-cases (read_stats w lines ([], none))) [
    | inl (found, e) ↦
        let unknown : found.1 ≡ none = read_stats-pid lines [] none found e in
        let same : limit found.1 ≡ other found.1 = ap limit unknown ∙ h ∙ sym (ap other unknown) in
        ground (arith, e, same)
    | inr (x, e) ↦ ground (arith, e)
  ]
