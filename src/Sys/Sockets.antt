-- ===== src/Sys/Sockets.antt =====
-- sockstat/sockstat.py, vmstat/vmstat.py and loadavg/loadavg.py of src/diamond/collectors, for
-- what their patterns find in a line.
use fullerite.Base.{ℕ, Option, none, some, List, [], ◌∷◌, ◌++◌, if◌then◌else◌}
use fullerite.Base.Int.{ℤ, pos, ◌+ℤ◌}
use fullerite.Base.Text.{Str, codes}
use fullerite.Base.Dict.{Dict, lookup, insert}
use fullerite.Base.Result.{Result, ok, value_error, or_raise, bind}
use fullerite.Base.Exec.{pure, lift, ◌>>=◌, ◌>>◌}
use fullerite.Python.{Float, Num, int, flt, Value, num}
use fullerite.Collector.State.{World, Action, config_get}
use fullerite.Collector.Config.{str_to_bool}
use fullerite.Collector.Derivative.{default_counting, derivative}
use fullerite.Collector.Publish.{is_true, publish}
use fullerite.Collector.Run.{sample, publish_gauge}

-- `data[key]` of a `defaultdict(int)`
abbrev pub count_of : Option ℤ → ℤ
count_of none = pos 0
count_of (some n) = n

module _ (fl : Float) where
  open fl use {parse_int}

  -- The items of a match; a group that takes no part, or is empty, is passed over.
  unfoldable pub add_groups : List (Str × Option Str) → Dict ℤ → Result (Dict ℤ)
  unfolding lookup insert ◌+ℤ◌
  add_groups [] counts = ok counts
  add_groups ((key, none) ∷ groups) counts = add_groups groups counts
  add_groups ((key, some []) ∷ groups) counts = add_groups groups counts
  add_groups ((key, some (c ∷ s)) ∷ groups) counts =
      bind (or_raise (parse_int (c ∷ s)) value_error)
        λ n. add_groups groups (insert key (count_of (lookup key counts) +ℤ n) counts)

  -- the groups of a line, if it matches
  unfoldable pub add_match : Option (List (Str × Option Str)) → Dict ℤ → Result (Dict ℤ)
  unfolding add_groups
  add_match none counts = ok counts
  add_match (some groups) counts = add_groups groups counts

  -- `collect_stat`
  unfoldable pub collect_stat :
      (Str → Option (List (Str × Option Str))) → List Str → Dict ℤ → Result (Dict ℤ)
  unfolding add_match
  collect_stat match [] counts = ok counts
  collect_stat match (l ∷ ls) counts =
      bind (add_match (match l) counts) λ more. collect_stat match ls more

  -- the files that can be read
  unfoldable pub collect_files :
      (Str → Option (List (Str × Option Str))) → List (Option (List Str)) → Dict ℤ → Result (Dict ℤ)
  unfolding collect_stat
  collect_files match [] counts = ok counts
  collect_files match (none ∷ files) counts = collect_files match files counts
  collect_files match (some lines ∷ files) counts =
      bind (collect_stat match lines counts) λ more. collect_files match files more

module _ (w : World) (depth : ℕ) where
  open w use {float, float.{Carrier, parse_int}}

  unfoldable pub publish_counts : Dict ℤ → Action w Unit
  publish_counts [] = pure tt
  publish_counts ((key, n) ∷ more) = do
    publish w depth (sample key (num (int n)) (codes "GAUGE"))
    publish_counts more

  -- `collect` of sockstat
  unfoldable pub collect_sockstat :
      (Str → Option (List (Str × Option Str))) → List (Option (List Str)) → Action w Unit
  unfolding collect_files publish_counts
  collect_sockstat match files = do
    counts ← lift (collect_files float match files [])
    publish_counts counts

  -- the rates of the lines that match, for the largest counter
  unfoldable pub read_rates :
      Num Carrier
      → (Str → Option (Str × Str))
      → List Str
      → Dict (Num Carrier)
      → Action w (Dict (Num Carrier))
  unfolding insert
  read_rates counter match [] results = pure results
  read_rates counter match (l ∷ ls) results = elim (match l) [
    | none ↦ read_rates counter match ls results
    | some (name, text) ↦ (do
      n ← lift (or_raise (parse_int text) value_error)
      rate ← derivative w name (int n) (record default_counting { max_value = counter })
      read_rates counter match ls (insert name rate results))
  ]

  unfoldable pub publish_rates : Dict (Num Carrier) → Action w Unit
  publish_rates [] = pure tt
  publish_rates ((name, rate) ∷ more) = do
    publish w depth
        (record (sample (codes "vm." ++ name) (num rate) (codes "GAUGE")) { precision = 2 })
    publish_rates more

  -- `collect` of vmstat; none is a file that cannot be read
  unfoldable pub collect_vmstat :
      Num Carrier → (Str → Option (Str × Str)) → Option (List Str) → Action w Unit
  unfolding read_rates publish_rates
  collect_vmstat counter match none = pure tt
  collect_vmstat counter match (some lines) = do
    results ← read_rates counter match lines []
    publish_rates results

  abbrev pub load : Str → Carrier → Action w Unit
  load name x = publish_gauge w depth (codes "loadavg." ++ name) (num (flt x)) 2 none

  abbrev pub processes : Str → Str → Action w Unit
  processes name text = do
    n ← lift (or_raise (parse_int text) value_error)
    publish_gauge w depth (codes "loadavg.processes_" ++ name) (num (int n)) 0 none

  -- the process counters of the lines that match
  unfoldable pub publish_processes : (Str → Option (Str × Str)) → List Str → Action w Unit
  publish_processes match [] = pure tt
  publish_processes match (l ∷ ls) = elim (match l) [
    | none ↦ publish_processes match ls
    | some (running, total) ↦ (do
      processes (codes "running") running
      processes (codes "total") total
      publish_processes match ls)
  ]

  abbrev pub lines_of : Option (List Str) → List Str
  lines_of none = []
  lines_of (some lines) = lines

  abbrev pub longer_loads : Value Carrier → Carrier → Carrier → Action w Unit
  longer_loads simple x05 x15 =
      if is_true w simple then pure tt else (do load (codes "05") x05; load (codes "15") x15)

  -- `collect` of loadavg, for what `os.getloadavg` returns
  unfoldable pub collect_loadavg :
      Carrier × Carrier × Carrier → (Str → Option (Str × Str)) → Option (List Str) → Action w Unit
  unfolding str_to_bool publish_processes
  collect_loadavg (x01, x05, x15) match file = do
    v ← config_get (codes "simple")
    simple ← lift (str_to_bool v)
    load (codes "01") x01
    longer_loads simple x05 x15
    publish_processes match (lines_of file)
