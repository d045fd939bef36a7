-- ===== src/Kernel.antt =====
-- Collectors that read one file of /proc: memory/memory.py, interrupt/soft.py, proc/proc.py and
-- slabinfo/slabinfo.py of src/diamond/collectors.
pub mod Memory
pub mod Units
use fullerite.Base.{
  ℕ, zero, suc, ◌+◌, String, Bool, true, false, ◌&&◌, ◌||◌, ◌==◌, Option, none, some, List, [], ◌∷◌,
  ◌++◌, map, if◌then◌else◌,
}
use fullerite.Base.Int.{ℤ, pos}
use fullerite.Base.Text.{Str, codes, str_eq, str_mem, starts_with, words, decimal, join}
use fullerite.Base.Result.{
  Result, ok, err, index_error, value_error, unbound_local_error, or_raise, bind,
}
use fullerite.Base.Exec.{pure, lift, ◌>>=◌, ◌>>◌}
use fullerite.Python.{Num, int, long, num}
use fullerite.Python.Convert.{value_int}
use fullerite.Collector.State.{World, Collector, Action}
use fullerite.Collector.Derivative.{default_counting, derivative}
use fullerite.Collector.Publish.{publish}
use fullerite.Collector.Run.{sample}

-- `l[i]`
abbrev pub item : ℕ → List Str → Result Str
item i [] = err index_error
item zero (s ∷ ss) = ok s
item (suc i) (s ∷ ss) = item i ss

-- `l[1:]`
abbrev pub drop_first : List Str → List Str
drop_first [] = []
drop_first (s ∷ ss) = ss

-- `l.index(s)`
abbrev pub index_of : Str → List Str → Result ℕ
index_of s [] = err value_error
index_of s (t ∷ ts) =
    let rest = index_of s ts in if str_eq s t then ok 0 else bind rest λ i. ok (suc i)

-- `key.replace('<', '').replace('>', '')`
abbrev pub bare : Str → Str
bare [] = []
bare (c ∷ s) = let rest = bare s in if (c == b'<') || (c == b'>') then rest else c ∷ rest

-- the slab columns, by what is put between the slab's name and theirs
abbrev pub slab_columns : List (Str × List Str)
slab_columns =
    (
      codes ".",
      map codes
          ("<active_objs>" ∷ "<num_objs>" ∷ "<objsize>" ∷ "<objperslab>" ∷ "<pagesperslab>" ∷ []),
    )
    ∷ (codes ".tunables.", map codes ("<limit>" ∷ "<batchcount>" ∷ "<sharedfactor>" ∷ []))
    ∷ (codes ".slabdata.", map codes ("<active_slabs>" ∷ "<num_slabs>" ∷ "<sharedavail>" ∷ []))
    ∷ []

-- For a world, the depth of error reports, and the largest value of a counter, which depends on the
-- machine.
module _ (w : World) (depth : ℕ) (counter : ℤ) where
  open w use {float, float.{Carrier, parse_int}}

  -- `int(text)`
  abbrev pub parse : Str → Result ℤ
  parse s = or_raise (parse_int s) value_error

  -- `self.publish(name, n)` of an integer
  unfoldable pub publish_int : Str → ℤ → Action w Unit
  publish_int name n = publish w depth (sample name (num (int n)) (codes "GAUGE"))

  -- a counter's rate as an integer, published under the counter's name
  unfoldable pub publish_rate : Str → Str → Action w Unit
  publish_rate name text = do
    n ← lift (parse text)
    rate ← derivative w name (long n) (record default_counting { max_value = long counter })
    whole ← lift (value_int float (num rate))
    publish_int name whole

  -- the values of the single interrupts, from an index on
  unfoldable pub publish_each : ℕ → List Str → Action w Unit
  publish_each i [] = pure tt
  publish_each i (text ∷ texts) = do publish_rate (decimal i) text; publish_each (suc i) texts

  abbrev pub publish_total : List Str → Action w Unit
  publish_total [] = lift (err index_error)
  publish_total (kind ∷ []) = lift (err index_error)
  publish_total (kind ∷ total ∷ texts) = do publish_rate (codes "total") total; publish_each 0 texts

  -- the loop over the lines, for the action on one line
  unfoldable pub each_line : (Str → Action w Unit) → List Str → Action w Unit
  each_line f [] = pure tt
  each_line f (l ∷ ls) = do f l; each_line f ls

  -- `if not os.access(...): return False`, and otherwise the lines of the file
  abbrev pub with_lines : (List Str → Action w Unit) → Option (List Str) → Action w Unit
  with_lines f none = pure tt
  with_lines f (some lines) = f lines

  abbrev pub softirq_line : Str → Action w Unit
  softirq_line l = if starts_with l (codes "softirq") then publish_total (words l) else pure tt

  unfoldable pub collect_softirq : Option (List Str) → Action w Unit
  collect_softirq file = with_lines (each_line softirq_line) file

  -- `data[0]` and `data[1]`, given to an action
  abbrev pub on_pair : (Str → Str → Action w Unit) → List Str → Action w Unit
  on_pair f [] = lift (err index_error)
  on_pair f (name ∷ []) = lift (err index_error)
  on_pair f (name ∷ text ∷ rest) = f name text

  abbrev pub publish_plain : Str → Str → Action w Unit
  publish_plain name text = do n ← lift (parse text); publish_int name n

  -- an action under a condition
  abbrev pub on : Bool → Action w Unit → Action w Unit
  on true m = m
  on false m = pure tt

  unfoldable pub stat_line : Str → Action w Unit
  stat_line l = do
    on (starts_with l (codes "ctxt") || starts_with l (codes "processes"))
        (on_pair publish_rate (words l))
    on (starts_with l (codes "procs_") || starts_with l (codes "btime"))
        (on_pair publish_plain (words l))

  unfoldable pub collect_stat : Option (List Str) → Action w Unit
  collect_stat file = with_lines (each_line stat_line) file

  -- one column of a slab's line
  abbrev pub publish_column : List Str → List Str → Str → Str → Action w Unit
  publish_column keys values between key = do
    i ← lift (index_of key keys)
    slab ← lift (item 0 values)
    text ← lift (item i values)
    n ← lift (parse text)
    publish_int (slab ++ between ++ bare key) n

  unfoldable pub publish_columns : List Str → List Str → Str → List Str → Action w Unit
  publish_columns keys values between [] = pure tt
  publish_columns keys values between (key ∷ more) = do
    publish_column keys values between key
    publish_columns keys values between more

  unfoldable pub publish_groups : List Str → List Str → List (Str × List Str) → Action w Unit
  publish_groups keys values [] = pure tt
  publish_groups keys values ((between, names) ∷ groups) = do
    publish_columns keys values between names
    publish_groups keys values groups

  -- The lines; the keys are unbound until a line begins with a hash mark.
  unfoldable pub slab_lines : Option (List Str) → List Str → Action w Unit
  slab_lines keys [] = pure tt
  slab_lines keys (l ∷ ls) =
      let same = slab_lines keys ls in
      let read = slab_lines (some (drop_first (words l))) ls in
      if starts_with l (codes "slabinfo")
      then same
      else if starts_with l (codes "#")
      then read
      else (do
        bound ← lift (or_raise keys unbound_local_error)
        publish_groups bound (words l) slab_columns
        same)

  unfoldable pub collect_slab : Option (List Str) → Action w Unit
  collect_slab file = with_lines (slab_lines none) file
