-- ===== src/Kernel/Memory.antt =====
-- src/diamond/collectors/memory/memory.py.
use fullerite.Base.{ℕ, ◌||◌, ◌==◌, Option, none, some, List, [], ◌∷◌, map, if◌then◌else◌}
use mathlib.Core.List.{reverse}
use fullerite.Base.Int.{ℤ}
use fullerite.Base.Text.{Str, codes, str_mem, words}
use fullerite.Base.Dict.{has_key}
use fullerite.Base.Result.{Result, ok, err, type_error, value_error, or_raise, bind}
use fullerite.Base.Exec.{pure, lift, gets, ◌>>=◌, ◌>>◌}
use fullerite.Python.{int, flt, Value, nil, num, str, strs}
use fullerite.Convertor.Binary.{convert}
use fullerite.Collector.State.{World, Action, config_get}
use fullerite.Collector.Publish.{Sample, publish, report_error}
use fullerite.Collector.Run.{sample}

abbrev pub key_mapping : List Str
key_mapping = map codes (
    "MemAvailable" ∷ "MemTotal" ∷ "MemFree" ∷ "Buffers" ∷ "Cached" ∷ "Active" ∷ "Dirty" ∷ "Inactive"
    ∷ "Shmem" ∷ "SwapTotal" ∷ "SwapFree" ∷ "SwapCached" ∷ "VmallocTotal" ∷ "VmallocUsed"
    ∷ "VmallocChunk" ∷ "Committed_AS" ∷ "Mapped" ∷ "Mlocked" ∷ [])

-- `name.rstrip(':')`, from the end of the name
abbrev pub drop_colons : Str → Str
drop_colons [] = []
drop_colons (c ∷ s) = let rest = drop_colons s in if c == b':' then rest else c ∷ s

abbrev pub strip_colons : Str → Str
strip_colons s = reverse (drop_colons (reverse s))

-- `name, value, units = line.split()`
abbrev pub three : List Str → Result (Str × Str × Str)
three (a ∷ b ∷ c ∷ []) = ok (a, b, c)
three l = err value_error

-- What psutil reports: the total, the available and the free memory, and the total and free swap.
pub record Usage : Type 0 where
  pub total : ℤ
  pub available : ℤ
  pub free : ℤ
  pub swap_total : ℤ
  pub swap_free : ℤ

module _ {F : Type 0} where
  -- the units that `for unit in self.config['byte_unit']` goes through
  abbrev pub units_of : Value F → Result (List Str)
  units_of (strs l) = ok l
  units_of (str s) = ok (map (λ c. c ∷ []) s)
  units_of v = err type_error

  -- a converted value, as it is published
  abbrev pub converted : Option F → Value F
  converted none = nil
  converted (some x) = num (flt x)

module _ (w : World) (depth : ℕ) where
  open w use {float, float.{Carrier, parse_int}}

  -- the value in the unit that is asked for
  unfoldable pub memory_sample : Str → ℤ → Str → Str → Result (Sample Carrier)
  unfolding convert
  memory_sample name value units unit =
      bind (convert float (some (int value)) (some units) (some unit))
        λ x. ok (sample name (converted x) (codes "GAUGE"))

  unfoldable pub publish_memory : Str → ℤ → Str → Str → Action w Unit
  publish_memory name value units unit = do
    s ← lift (memory_sample name value units unit)
    publish w depth s

  -- The loop over the units ends after the first.
  abbrev pub in_first_unit : (Str → Action w Unit) → List Str → Action w Unit
  in_first_unit f [] = pure tt
  in_first_unit f (unit ∷ units) = f unit

  abbrev pub for_unit : (Str → Action w Unit) → Action w Unit
  for_unit f = do
    v ← config_get (codes "byte_unit")
    units ← lift (units_of v)
    in_first_unit f units

  -- the body of the `try`
  unfoldable pub memory_line : Str → Action w Unit
  unfolding has_key
  memory_line line = do
    (name, text, units) ← lift (three (words line))
    value ← lift (or_raise (parse_int text) value_error)
    detailed ← gets (λ c. has_key (codes "detailed") c.config)
    let wanted = str_mem (strip_colons name) key_mapping || detailed
    if wanted then for_unit (publish_memory (strip_colons name) value units) else pure tt

  -- `except ValueError: continue`
  abbrev pub pass_value_error : Result (Unit {0}) → Result (Unit {0})
  pass_value_error (err value_error) = ok tt
  pass_value_error r = r

  abbrev pub try_line : Str → Action w Unit
  try_line line c = let (r, d) = memory_line line c in (pass_value_error r, d)

  unfoldable pub memory_lines : List Str → Action w Unit
  memory_lines [] = pure tt
  memory_lines (l ∷ ls) = do try_line l; memory_lines ls

  unfoldable pub publish_usage : Usage → Str → Action w Unit
  publish_usage u unit = do
    publish_memory (codes "MemTotal") u.total (codes "B") unit
    publish_memory (codes "MemAvailable") u.available (codes "B") unit
    publish_memory (codes "MemFree") u.free (codes "B") unit
    publish_memory (codes "SwapTotal") u.swap_total (codes "B") unit
    publish_memory (codes "SwapFree") u.swap_free (codes "B") unit

  -- Without the file, psutil is asked, if it could be imported.
  abbrev pub collect_usage : Option Usage → Action w Unit
  collect_usage none = do report_error w depth none; report_error w depth none
  collect_usage (some u) = for_unit (publish_usage u)

  unfoldable pub collect_memory : Option (List Str) → Option Usage → Action w Unit
  collect_memory none usage = collect_usage usage
  collect_memory (some lines) usage = memory_lines lines
