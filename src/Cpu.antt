-- ===== src/Cpu.antt =====
-- src/diamond/collectors/cpu/cpu.py, for the lines of /proc/stat and what psutil reports.
pub mod Normalize
pub mod Usage
use fullerite.Base.{
  ℕ, Bool, true, false, ◌&&◌, ◌||◌, not, Option, none, some, List, [], ◌∷◌, ◌++◌, map,
  if◌then◌else◌,
}
use fullerite.Base.Int.{ℤ, pos, negsuc, floor_div, ltb_ℤ, ◌+ℤ◌}
use fullerite.Base.Text.{Str, codes, str_eq, starts_with, contains, words, split, join}
use fullerite.Base.Dict.{Dict, lookup, insert}
use fullerite.Base.Result.{Result, ok, err, key_error, value_error, or_raise, bind}
use fullerite.Base.Exec.{pure, lift, modify, ◌>>=◌, ◌>>◌}
use fullerite.Python.{Float, Num, long, flt, Value, bool, num, str}
use fullerite.Python.Convert.{value_float, value_int}
use fullerite.Metric.{dict}
use fullerite.Collector.State.{World, Action, config_get}
use fullerite.Collector.Config.{str_to_bool}
use fullerite.Collector.Publish.{is_true}
use fullerite.Collector.Run.{publish_cumulative_counter}

-- the columns of a line, behind its name
abbrev pub columns : List Str
columns = map codes (
    "user" ∷ "nice" ∷ "system" ∷ "idle" ∷ "iowait" ∷ "irq" ∷ "softirq" ∷ "steal" ∷ "guest"
    ∷ "guest_nice" ∷ [])

-- The columns that a line has.
unfoldable pub fill_columns : {F : Type 0} → List Str → List Str → Dict (Value F)
fill_columns [] values = []
fill_columns (name ∷ names) [] = []
fill_columns (name ∷ names) (v ∷ values) = (name, str v) ∷ fill_columns names values

-- `cpu` or `cpu.total`
abbrev pub cpu_key : Str → Str
cpu_key name = if str_eq name (codes "cpu") then codes "cpu.total" else name

module _ (w : World) where
  open w use {float, float.{Carrier, add}}

  abbrev pub Stats : Type 0
  Stats = Dict (Value Carrier)

  -- `stats[sum] = float(stats[a]) + float(stats[b])`
  unfoldable pub add_sum : Str → Str → Str → Stats → Result Stats
  unfolding lookup insert value_float
  add_sum total a b stats = bind (or_raise (lookup a stats) key_error) λ u.
      bind (or_raise (lookup b stats) key_error) λ v.
        bind (value_float float u)
          λ x. bind (value_float float v) λ y. ok (insert total (num (flt (add x y))) stats)

  -- the values of a line
  unfoldable pub line_stats : List Str → Result Stats
  unfolding fill_columns add_sum
  line_stats values =
      bind (add_sum (codes "user_mode") (codes "user") (codes "nice") (fill_columns columns values))
        λ stats. add_sum (codes "irq_softirq") (codes "irq") (codes "softirq") stats

  -- A line of a processor: the one of all is always taken, the others by `percore`. (A line that
  -- begins with `cpu` has a word.)
  unfoldable pub add_line : Value Carrier → List Str → Dict Stats → Result (Dict Stats)
  unfolding line_stats insert
  add_line percore [] results = ok results
  add_line percore (name ∷ values) results =
      let added = bind (line_stats values) λ stats. ok (insert (cpu_key name) stats results) in
      if str_eq name (codes "cpu")
      then added
      else bind (str_to_bool percore) (λ b. if is_true w b then added else ok results)

  -- The results of the lines, and how many lines there were after the first.
  unfoldable pub read_lines : Value Carrier → List Str → ℤ → Dict Stats → Result (Dict Stats × ℤ)
  unfolding add_line
  read_lines percore [] count results = ok (results, count)
  read_lines percore (l ∷ ls) count results =
      let skipped = read_lines percore ls count results in
      if starts_with l (codes "cpu")
      then bind (add_line percore (words l) results) (λ r. read_lines percore ls (count +ℤ pos 1) r)
      else skipped

  -- `n / k` for a positive k
  abbrev pub shared : ℤ → ℤ → ℤ
  shared n (pos k) = floor_div n k
  shared n (negsuc k) = n

  -- `long(v)`, divided by the number of processors where `normalize` asks for it
  unfoldable pub metric_value : Bool → Str → ℤ → Value Carrier → Result ℤ
  unfolding value_int floor_div
  metric_value normalize cpu count v = bind (value_int float v) λ n.
      if normalize && str_eq cpu (codes "total") && ltb_ℤ (pos 0) count
      then ok (shared n count)
      else ok n

  unfoldable pub stats_metrics : Bool → Str → ℤ → Stats → Dict ℤ → Result (Dict ℤ)
  unfolding metric_value insert
  stats_metrics normalize cpu count [] m = ok m
  stats_metrics normalize cpu count ((name, v) ∷ stats) m =
      bind (metric_value normalize cpu count v)
        λ n. stats_metrics normalize cpu count stats (insert (cpu ++ b'.' ∷ name) n m)

  -- the table of the metrics
  unfoldable pub cpu_metrics : Bool → ℤ → Dict Stats → Dict ℤ → Result (Dict ℤ)
  unfolding stats_metrics
  cpu_metrics normalize count [] m = ok m
  cpu_metrics normalize count ((cpu, stats) ∷ results) m =
      bind (stats_metrics normalize cpu count stats m) λ n. cpu_metrics normalize count results n

  -- a dict of the collector's own dimensions
  abbrev pub set_core : Str → Action w Unit
  set_core core = modify (λ c. record c { dimensions = dict ((codes "core", str core) ∷ []) })

  -- `name[3:]`
  abbrev pub behind_cpu : Str → Str
  behind_cpu (a ∷ b ∷ c ∷ s) = s
  behind_cpu s = []

  -- `str_to_bool(...) is False`
  abbrev pub is_false : Value Carrier → Bool
  is_false (bool b) = not b
  is_false v = false

  abbrev pub is_aggregate : Str → Bool
  is_aggregate name = contains name (codes "user_mode") || contains name (codes "irq_softirq")

  module _ (depth : ℕ) where
    abbrev pub publish_count : Str → Num Carrier → Action w Unit
    publish_count name n = publish_cumulative_counter w depth name (num n) 0 none

    -- the metric of one processor
    abbrev publish_core : List Str → ℤ → Action w Unit
    publish_core (cpu ∷ stat ∷ []) n = do
      set_core (behind_cpu cpu)
      publish_count (join b'.' (codes "cpu" ∷ stat ∷ [])) (long n)
    publish_core parts n = lift (err value_error)

    abbrev publish_kept : Str → ℤ → Action w Unit
    unfolding split
    publish_kept name n =
        if contains name (codes "cpu.total")
        then publish_count name (long n)
        else publish_core (split b'.' name) n

    unfoldable pub publish_cpu : Dict ℤ → Action w Unit
    unfolding publish_kept str_to_bool
    publish_cpu [] = pure tt
    publish_cpu ((name, n) ∷ m) = do
      v ← config_get (codes "enableAggregation")
      b ← lift (str_to_bool v)
      if is_false b && is_aggregate name then pure tt else publish_kept name n
      publish_cpu m

    abbrev publish_results : ℤ → Dict Stats → Action w Unit
    unfolding publish_cpu cpu_metrics str_to_bool
    publish_results count [] = pure tt
    publish_results count (e ∷ results) = do
      v ← config_get (codes "normalize")
      b ← lift (str_to_bool v)
      m ← lift (cpu_metrics (is_true w b) count (e ∷ results) [])
      publish_cpu m

    -- the part of `collect` that reads the file
    unfoldable pub collect_lines : List Str → Action w Unit
    unfolding read_lines publish_results
    collect_lines lines = do
      percore ← config_get (codes "percore")
      (results, count) ← lift (read_lines percore lines (negsuc 0) [])
      publish_results count results
