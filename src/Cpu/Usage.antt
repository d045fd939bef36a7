-- ===== src/Cpu/Usage.antt =====
-- `collect` of src/diamond/collectors/cpu/cpu.py: the simple mode, psutil, and the choice between
-- them. `'%.4f' % x` is a parameter.
use fullerite.Base.{ℕ, suc, Option, none, some, List, [], ◌∷◌, ◌++◌, length, if◌then◌else◌}
use fullerite.Base.Int.{ℤ, pos, ◌+ℤ◌, ◌-ℤ◌}
use fullerite.Base.Text.{Str, codes, decimal, split}
use fullerite.Base.Result.{
  Result, ok, err, index_error, value_error, overflow_error, zero_division, attribute_error,
  or_raise, bind,
}
use fullerite.Base.Exec.{pure, lift, ◌>>=◌, ◌>>◌}
use fullerite.Python.{flt, str}
use fullerite.Collector.State.{World, Action, config_get}
use fullerite.Collector.Config.{str_to_bool}
use fullerite.Collector.Publish.{is_true, publish, report_error}
use fullerite.Collector.Run.{sample}
use fullerite.Cpu.{set_core, publish_count, collect_lines}

-- A reading of psutil's times.
pub record Times (F : Type 0) : Type 0 where
  pub user : F
  pub nice : Option F
  pub system : F
  pub idle : F

-- What psutil reports: the times of each processor, and those of all.
pub record Report (F : Type 0) : Type 0 where
  pub single : List (Times F)
  pub total : Times F

-- `l[2:6]`
abbrev pub take_four : List Str → List Str
take_four (a ∷ b ∷ c ∷ d ∷ l) = a ∷ b ∷ c ∷ d ∷ []
take_four l = l

abbrev pub from_third : List Str → List Str
from_third (a ∷ b ∷ l) = take_four l
from_third l = []

abbrev pub sum : List ℤ → ℤ
sum [] = pos 0
sum (n ∷ ns) = n +ℤ sum ns

-- `dt[len(dt) - 1]`
abbrev pub last : List ℤ → Result ℤ
last [] = err index_error
last (n ∷ []) = ok n
last (n ∷ m ∷ ns) = last (m ∷ ns)

-- `post_check[i] -= pre_check[i]`
abbrev pub differences : List ℤ → List ℤ → Result (List ℤ)
differences [] post = ok post
differences (a ∷ pre) [] = err index_error
differences (a ∷ pre) (b ∷ post) = bind (differences pre post) λ ds. ok ((b -ℤ a) ∷ ds)

module _ (w : World) (depth : ℕ) (fixed4 : w.float.Carrier → Str) where
  open w use {float, float.{Carrier, of_int, add, sub, mul, div, parse_int}}

  abbrev pub ints : List Str → Result (List ℤ)
  ints [] = ok []
  ints (s ∷ ss) = bind (or_raise (parse_int s) value_error) λ n. bind (ints ss) λ ns. ok (n ∷ ns)

  -- `cpu_time_list`, for the first line of the file
  abbrev pub cpu_time_list : Str → Result (List ℤ)
  unfolding split
  cpu_time_list line = ints (from_third (split b' ' line))

  abbrev pub float_of : ℤ → Result Carrier
  float_of n = or_raise (of_int n) overflow_error

  -- `100 - (dt[len(dt) - 1] * 100.00 / sum(dt))`
  unfoldable pub cpu_percent : Str → Str → Result Carrier
  unfolding cpu_time_list
  cpu_percent before after = bind (cpu_time_list before) λ pre. bind (cpu_time_list after) λ post.
      bind (differences pre post) λ dt. bind (last dt) λ idle. bind (float_of idle) λ x.
        bind (float_of (pos 100)) λ hundred. bind (float_of (sum dt)) λ all.
          bind (or_raise (div (mul x hundred) all) zero_division) λ share. ok (sub hundred share)

  unfoldable pub collect_simple : Str → Str → Action w Unit
  unfolding cpu_percent
  collect_simple before after = do
    x ← lift (cpu_percent before after)
    publish w depth (sample (codes "percent") (str (fixed4 x)) (codes "GAUGE"))

  abbrev pub count_core : ℕ → Str → Carrier → Action w Unit
  count_core i stat x = do
    set_core w (decimal i)
    publish_count w depth (codes "cpu" ++ stat) (flt x)

  -- an action on the nice time, where there is one
  abbrev pub on_nice : (Carrier → Action w Unit) → Times Carrier → Action w Unit
  on_nice f t = elim t.nice [ none ↦ pure tt | some x ↦ f x ]

  -- `if (str_to_bool(self.config['enableAggregation']))`
  abbrev pub if_aggregated : Action w Unit → Action w Unit
  unfolding str_to_bool
  if_aggregated m = do
    v ← config_get (codes "enableAggregation")
    b ← lift (str_to_bool v)
    if is_true w b then m else pure tt

  -- The dimensions are not set again for the sum, and without a nice time it raises.
  unfoldable pub publish_times : ℕ → Times Carrier → Action w Unit
  unfolding count_core if_aggregated
  publish_times i t = do
    count_core i (codes ".user") t.user
    on_nice (count_core i (codes ".nice")) t
    count_core i (codes ".system") t.system
    count_core i (codes ".idle") t.idle
    if_aggregated (do
      x ← lift (or_raise t.nice attribute_error)
      publish_count w depth (codes "cpu.user_mode") (flt (add t.user x)))

  unfoldable pub publish_each : ℕ → List (Times Carrier) → Action w Unit
  unfolding publish_times
  publish_each i [] = pure tt
  publish_each i (t ∷ ts) = do publish_times i t; publish_each (suc i) ts

  -- `x / cpu_count`
  abbrev pub mean : ℕ → Carrier → Result Carrier
  mean n x = bind (float_of (pos n)) λ k. or_raise (div x k) zero_division

  abbrev pub count_total : ℕ → Str → Carrier → Action w Unit
  count_total n stat x = do
    y ← lift (mean n x)
    publish_count w depth (codes "cpu.total" ++ stat) (flt y)

  -- the nice time of all, with the sum of the means
  abbrev pub total_nice : ℕ → Carrier → Carrier → Action w Unit
  unfolding count_total if_aggregated
  total_nice n user nice = do
    count_total n (codes ".nice") nice
    if_aggregated (do
      x ← lift (mean n user)
      y ← lift (mean n nice)
      publish_count w depth (codes "cpu.total.user_mode") (flt (add x y)))

  unfoldable pub publish_total : ℕ → Times Carrier → Action w Unit
  unfolding count_total total_nice
  publish_total n t = do
    count_total n (codes ".user") t.user
    on_nice (total_nice n t.user) t
    count_total n (codes ".system") t.system
    count_total n (codes ".idle") t.idle

  unfoldable pub collect_report : Option (Report Carrier) → Action w Unit
  unfolding publish_each publish_total
  collect_report none = do report_error w depth none; report_error w depth none
  collect_report (some r) = do publish_each 0 r.single; publish_total (length r.single) r.total

  -- `collect`, for the lines of the file in two readings, if it can be read, and psutil's report, if
  -- that is installed
  unfoldable pub collect_cpu :
      Option (List Str × Str × Str) → Option (Report Carrier) → Action w Unit
  unfolding collect_simple collect_lines collect_report str_to_bool
  collect_cpu none report = collect_report report
  collect_cpu (some (lines, before, after)) report = do
    v ← config_get (codes "simple")
    b ← lift (str_to_bool v)
    if is_true w b then collect_simple before after else collect_lines w depth lines
