-- ===== src/Icinga/Run.antt =====
-- `collect`, `get_default_config` and the rest of the methods that `collect` calls in
-- src/diamond/collectors/icinga_stats/icinga_stats.py.
use fullerite.Base.{ℕ, Option, none, some, List, [], ◌∷◌}
use fullerite.Base.Int.{ℤ, pos}
use fullerite.Base.Text.{Str, codes}
use fullerite.Base.Dict.{Dict, lookup, update}
use fullerite.Base.Result.{Result, ok, ◌>>=◌}
use fullerite.Base.Exec.{pure, lift, Exec}
use fullerite.Base.Exec as Exec
use fullerite.Python.{Value, int, num, str}
use fullerite.Collector.State.{World, Action}
use fullerite.Collector.Config.{get_default_config}
use fullerite.Collector.Publish.{publish}
use fullerite.Collector.Run.{sample}
use fullerite.Icinga.Parse.{Entity, parse_stats_file}
use fullerite.Icinga.Entities.{no_tally, count_hosts, count_svcs, host_metrics, svc_metrics}
use fullerite.Icinga.Program.{get_icinga_stats}

-- `get_default_config`
abbrev pub icinga_default : {F : Type 0} → Dict (Value F)
icinga_default = update get_default_config (
    (codes "path", str (codes "icinga_stats"))
    ∷ (codes "status_path", str (codes "/var/lib/icinga/status.dat"))
    ∷ [])

abbrev pub as_ints : Dict ℕ → Dict ℤ
as_ints [] = []
as_ints ((k, n) ∷ d) = (k, pos n) ∷ as_ints d

module _ (w : World) (depth : ℕ) where
  open w use {float, now}

  -- `get_host_stats`
  unfoldable pub get_host_stats : List Entity → Result (Dict ℤ)
  unfolding count_hosts host_metrics
  get_host_stats hosts = do
    (t, h) ← count_hosts float hosts no_tally (record { up = 0; down = 0; unreachable = 0 })
    ok (as_ints (host_metrics t h))

  -- `get_svc_stats`
  unfoldable pub get_svc_stats : List Entity → Result (Dict ℤ)
  unfolding count_svcs svc_metrics
  get_svc_stats svcs = do
    (t, h) ←
        count_svcs float svcs no_tally (record { fine = 0; warning = 0; critical = 0; unknown = 0 })
    ok (as_ints (svc_metrics t h))

  -- `dict(metrics.items() + stats.items())`, for the entities of one type if there are any
  abbrev pub add_stats :
      (List Entity → Result (Dict ℤ)) → Option (List Entity) → Dict ℤ → Result (Dict ℤ)
  unfolding update
  add_stats get none metrics = ok metrics
  add_stats get (some entities) metrics = do stats ← get entities; ok (update metrics stats)

  -- the metrics of a file that has the program's status
  unfoldable pub all_metrics : Entity → Dict (List Entity) → Result (Dict ℤ)
  unfolding get_icinga_stats get_host_stats get_svc_stats lookup
  all_metrics program others = do
    metrics ← get_icinga_stats float now program
    with_hosts ← add_stats get_host_stats (lookup (codes "hoststatus") others) metrics
    add_stats get_svc_stats (lookup (codes "servicestatus") others) with_hosts

  unfoldable pub publish_metrics : Dict ℤ → Action w Unit
  publish_metrics [] = pure tt
  publish_metrics ((metric, n) ∷ more) =
      Exec.◌>>◌ (publish w depth (sample metric (num (int n)) (codes "GAUGE")))
        (publish_metrics more)

  -- the two early returns
  abbrev pub collect_stats : Option Entity → Option Entity → Dict (List Entity) → Action w Unit
  unfolding all_metrics publish_metrics
  collect_stats none program others = pure tt
  collect_stats (some info) none others = pure tt
  collect_stats (some info) (some program) others =
      Exec.◌>>=◌ (lift (all_metrics program others)) publish_metrics

  -- `collect`
  unfoldable pub collect_icinga : Option (List Str) → Action w Unit
  unfolding parse_stats_file
  collect_icinga file =
      let s = parse_stats_file file in collect_stats s.info s.programstatus s.others
