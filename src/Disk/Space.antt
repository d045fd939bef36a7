-- ===== src/Disk/Space.antt =====
-- The metrics of a file system, on a POSIX system: `collect` of
-- src/diamond/collectors/diskspace/diskspace.py.
use fullerite.Base.{ℕ, ◌==◌, Option, none, some, List, [], ◌∷◌, ◌++◌, if◌then◌else◌}
use fullerite.Base.Int.{ℤ, pos, ◌+ℤ◌, ◌-ℤ◌}
use fullerite.Base.Text.{Str, codes, str_eq, replace_char}
use fullerite.Base.Dict.{Dict, lookup}
use fullerite.Base.Result.{Result, ok, err, zero_division, or_raise}
use fullerite.Base.Result as Result
use fullerite.Base.Exec.{pure, lift, ◌>>=◌, ◌>>◌}
use fullerite.Python.{int, flt, Value, num}
use fullerite.Python.Arith.{to_float}
use fullerite.Convertor.Binary.{convert}
use fullerite.Collector.State.{World, Action, config_get}
use fullerite.Collector.Publish.{report_error}
use fullerite.Collector.Run.{publish_gauge}
use fullerite.Kernel.Memory.{units_of, converted}

-- What `os.statvfs` returns.
pub record Statvfs : Type 0 where
  pub f_bsize : ℤ
  pub f_blocks : ℤ
  pub f_bfree : ℤ
  pub f_bavail : ℤ
  pub f_files : ℤ
  pub f_ffree : ℤ
  pub f_favail : ℤ

-- `s.replace('\\', '')`
abbrev pub without_backslash : Str → Str
without_backslash [] = []
without_backslash (c ∷ s) = let rest = without_backslash s in if c == b'\\' then rest else c ∷ rest

abbrev pub root_name : Str → Str
root_name name = if str_eq name (codes "_") then codes "root" else name

-- The label of the device, or a name made of the mount point.
unfoldable pub file_system_name : Dict Str → Str → Str → Str
unfolding lookup
file_system_name labels device mount_point = elim (lookup device labels) [
  | some label ↦ label
  | none ↦
      root_name (without_backslash (replace_char b'.' b'_' (replace_char b'/' b'_' mount_point)))
]

module _ (w : World) (depth : ℕ) where
  open w use {float, float.{Carrier, mul, div, lt_int, int_lt}}

  abbrev pub float_of : ℤ → Result Carrier
  unfolding to_float
  float_of n = to_float float (int n)

  -- `float(part) / float(whole) * 100`
  unfoldable pub percent : ℤ → ℤ → Result (Value Carrier)
  unfolding to_float
  percent part whole = Result.bind (float_of part) λ x. Result.bind (float_of whole) λ y.
      Result.bind (or_raise (div x y) zero_division)
        λ q. Result.bind (float_of (pos 100)) λ h. ok (num (flt (mul q h)))

  -- `float(block_size) * float(blocks)` in a unit
  unfoldable pub size_in : ℤ → ℤ → Str → Result (Value Carrier)
  unfolding to_float convert
  size_in block_size blocks unit = Result.bind (float_of block_size) λ x.
      Result.bind (float_of blocks) λ y.
        Result.bind (convert float (some (flt (mul x y))) (some (codes "byte")) (some unit))
          λ v. ok (converted v)

  abbrev pub gauge_2 : Str → Result (Value Carrier) → Action w Unit
  gauge_2 name r = do v ← lift r; publish_gauge w depth name v 2 none

  -- what is used, free and available, in a unit
  unfoldable pub publish_sizes : Str → Statvfs → Str → Action w Unit
  unfolding size_in ◌-ℤ◌
  publish_sizes name s unit = do
    let prefix = name ++ b'.' ∷ unit
    gauge_2 (prefix ++ codes "_used") (size_in s.f_bsize (s.f_blocks -ℤ s.f_bfree) unit)
    gauge_2 (prefix ++ codes "_free") (size_in s.f_bsize s.f_bfree unit)
    gauge_2 (prefix ++ codes "_avail") (size_in s.f_bsize s.f_bavail unit)

  -- the four metrics of a unit
  unfoldable pub publish_unit : Str → Statvfs → Str → Action w Unit
  unfolding percent publish_sizes ◌+ℤ◌ ◌-ℤ◌
  publish_unit name s unit = do
    let whole = s.f_bfree +ℤ (s.f_blocks -ℤ s.f_bfree)
    gauge_2 (name ++ b'.' ∷ unit ++ codes "_percentfree") (percent s.f_bfree whole)
    publish_sizes name s unit

  unfoldable pub publish_units : Str → Statvfs → List Str → Action w Unit
  unfolding publish_unit
  publish_units name s [] = pure tt
  publish_units name s (unit ∷ units) = do publish_unit name s unit; publish_units name s units

  abbrev pub gauge : Str → Value Carrier → Action w Unit
  gauge name v = publish_gauge w depth name v 0 none

  -- `if float(inodes_total) > 0`, where a float is compared with the integer 0
  abbrev pub publish_inodes_free : Str → Statvfs → Action w Unit
  unfolding percent
  publish_inodes_free name s = do
    total ← lift (float_of s.f_files)
    if int_lt (pos 0) total
        then (do
          v ← lift (percent s.f_ffree s.f_files)
          gauge (name ++ codes ".inodes_percentfree") v)
        else pure tt

  unfoldable pub publish_inodes : Str → Statvfs → Action w Unit
  unfolding percent ◌-ℤ◌
  publish_inodes name s = do
    publish_inodes_free name s
    gauge (name ++ codes ".inodes_used") (num (int (s.f_files -ℤ s.f_ffree)))
    gauge (name ++ codes ".inodes_free") (num (int s.f_ffree))
    gauge (name ++ codes ".inodes_avail") (num (int s.f_favail))

  -- a file system by its name; none is the OSError of `os.statvfs`, which is logged
  unfoldable pub publish_space : Str → Option Statvfs → Action w Unit
  unfolding publish_units publish_inodes
  publish_space name none = report_error w depth (some (codes "OSError"))
  publish_space name (some s) = do
    v ← config_get (codes "byte_unit")
    units ← lift (units_of v)
    publish_units name s units
    publish_inodes name s
