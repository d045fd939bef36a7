-- ===== src/Sys/Interrupt.antt =====
-- src/diamond/collectors/interrupt/interrupt.py, for the lines of /proc/interrupts.
use fullerite.Base.{
  ℕ, zero, suc, ◌+◌, ◌==◌, not, Option, none, some, List, [], ◌∷◌, ◌++◌, length, if◌then◌else◌,
}
use mathlib.Core.List.{reverse}
use fullerite.Base.Int.{ℤ, pos, ◌+ℤ◌}
use fullerite.Base.Text.{Str, codes, lstrip, strip, span, is_space, words, decimal, replace_char}
use fullerite.Base.Result.{Result, ok, err, index_error, value_error, or_raise}
use fullerite.Base.Exec.{pure, lift, ◌>>=◌, ◌>>◌}
use fullerite.Python.{long, num}
use fullerite.Python.Convert.{value_int}
use fullerite.Collector.State.{World, Action}
use fullerite.Collector.Derivative.{default_counting, derivative}
use fullerite.Collector.Publish.{publish}
use fullerite.Collector.Run.{sample}
use fullerite.Disk.{replace_from, replace}
use fullerite.Kernel.{publish_int}

-- `s.split(None, n)`, of a text without white space at its end: at most n words and the rest
unfoldable pub split_max : ℕ → Str → List Str
split_max zero s = elim (lstrip s) [ [] ↦ [] | c ∷ t ↦ (c ∷ t) ∷ [] ]
split_max (suc n) s =
    let (word, rest) = span (λ c. not (is_space c)) (lstrip s) in
    let more = split_max n rest in elim word [ [] ↦ [] | c ∷ t ↦ (c ∷ t) ∷ more ]

-- `s.replace(':', '')`
abbrev pub without_colons : Str → Str
without_colons [] = []
without_colons (c ∷ s) = let rest = without_colons s in if c == b':' then rest else c ∷ rest

abbrev pub underscored : Str → Str
underscored = replace_char b' ' b'_'

-- `data[-1]` and `data[-2]`
abbrev pub last_two : List Str → Result (Str × Str)
last_two (b ∷ a ∷ rest) = ok (a, b)
last_two l = err index_error

-- The prefix of an interrupt's metrics, for the number of processors. What is compared with that
-- number is the length of the interrupt's name.
unfoldable pub interrupt_name : ℕ → Str → List Str → Result Str
unfolding replace_from
interrupt_name cpus name fields =
    if length name == cpus + 1 then ok (name ++ codes ".") else elim (last_two (reverse fields)) [
      | err e ↦ err e
      | ok (a, b) ↦
          if length name == 3
          then ok (underscored (a ++ b' ' ∷ b) ++ codes ".")
          else (let dashed = underscored (replace (codes ", ") (codes "-") b) in
              ok (underscored a ++ b'.' ∷ (dashed ++ b'.' ∷ (name ++ codes "."))))
    ]

module _ (w : World) (depth : ℕ) (counter : ℤ) where
  open w use {float, float.{Carrier, parse_int}}

  -- the rate of one processor, as an integer, which is published
  abbrev pub publish_cpu : Str → ℕ → Str → Action w ℤ
  unfolding value_int
  publish_cpu prefix i text = do
    n ← lift (or_raise (parse_int text) value_error)
    let name = prefix ++ codes "CPU" ++ decimal i
    rate ← derivative w name (long n) (record default_counting { max_value = long counter })
    value ← lift (value_int float (num rate))
    publish_int w depth counter name value
    pure value

  -- The processors' columns, at most as many as there are processors; the result is the total.
  unfoldable pub publish_cpus : Str → ℕ → ℕ → List Str → ℤ → Action w ℤ
  unfolding ◌+ℤ◌ value_int
  publish_cpus prefix zero i texts total = pure total
  publish_cpus prefix (suc left) i [] total = pure total
  publish_cpus prefix (suc left) i (text ∷ texts) total = do
    value ← publish_cpu prefix i text
    publish_cpus prefix left (i + 1) texts (total +ℤ value)

  abbrev pub publish_single : Str → Str → Action w Unit
  publish_single name text = do
    n ← lift (or_raise (parse_int text) value_error)
    rate ← derivative w name (long n) (record default_counting { max_value = long counter })
    publish w depth (sample name (num rate) (codes "GAUGE"))

  abbrev pub publish_many : ℕ → Str → List Str → Action w Unit
  unfolding interrupt_name publish_cpus
  publish_many cpus name fields = do
    prefix ← lift (interrupt_name cpus name (name ∷ fields))
    total ← publish_cpus prefix cpus 0 fields (pos 0)
    publish_int w depth counter (prefix ++ codes "total") total

  -- an interrupt's line, by its words
  unfoldable pub interrupt_line : ℕ → List Str → Action w Unit
  unfolding interrupt_name publish_cpus
  interrupt_line cpus [] = lift (err index_error)
  interrupt_line cpus (first ∷ text ∷ []) = publish_single (without_colons first) text
  interrupt_line cpus (first ∷ fields) = publish_many cpus (without_colons first) fields

  -- The lines, where the first that has words says how many processors there are.
  unfoldable pub interrupt_lines : ℕ → List Str → Action w Unit
  unfolding interrupt_line split_max
  interrupt_lines cpus [] = pure tt
  interrupt_lines zero (l ∷ ls) = interrupt_lines (length (words l)) ls
  interrupt_lines (suc n) (l ∷ ls) = do
    interrupt_line (suc n) (split_max (suc n + 2) (strip l))
    interrupt_lines (suc n) ls

  -- `collect`; none is a file that cannot be read
  unfoldable pub collect_interrupts : Option (List Str) → Action w Unit
  unfolding interrupt_lines
  collect_interrupts none = pure tt
  collect_interrupts (some lines) = interrupt_lines 0 lines
