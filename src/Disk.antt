-- ===== src/Disk.antt =====
-- src/diamond/collectors/diskspace/diskspace.py: the configuration, the labels and the file systems.
pub mod Space
pub mod Run
pub mod Found
pub mod Blocks
use fullerite.Base.{
  ℕ, zero, suc, ◌-◌, Bool, true, false, ◌&&◌, ◌||◌, ◌==◌, not, Option, none, some, List, [], ◌∷◌,
  ◌++◌, map, length, if◌then◌else◌,
}
use fullerite.Base.Int.{ℤ, pos, leb_ℤ}
use fullerite.Base.Text.{
  Str, codes, str_eq, str_mem, starts_with, contains, join, split, strip, words,
}
use fullerite.Base.Dict.{Dict, insert, update}
use fullerite.Base.Result.{Result, ok, err, type_error}
use fullerite.Python.{Value, str, strs}
use fullerite.Collector.Config.{get_default_config}

-- The numbers of a device, `(major, minor)`.
abbrev pub Device : Type 0
Device = ℕ × ℕ

pub record FileSystem : Type 0 where
  pub device : Str
  pub mount_point : Str
  pub fs_type : Str

-- What the operating system and the `re` library answer: the device of a path, or none for an
-- OSError; the path without links; whether an exclusion pattern is found in a path.
pub record System : Type 0 where
  pub stat : Str → Option Device
  pub realpath : Str → Str
  pub search : Str → Str → Bool

-- `get_default_config`
abbrev pub diskspace_default : {F : Type 0} → Dict (Value F)
diskspace_default = update get_default_config (
    (codes "path", str (codes "diskspace"))
    ∷ (
      codes "filesystems",
      str (
          codes "ext2, ext3, ext4, xfs, glusterfs, nfs, ntfs, hfs,"
          ++ codes " fat32, fat16, btrfs"),
    )
    ∷ (codes "exclude_filters", strs (codes "^/export/home" ∷ []))
    ∷ (codes "byte_unit", strs (codes "byte" ∷ []))
    ∷ [])

-- The pattern that `process_config` compiles.
unfoldable pub exclude_pattern : {F : Type 0} → Value F → Result Str
exclude_pattern (str s) = ok s
exclude_pattern (strs l) = ok (join b'|' l)
exclude_pattern v = err type_error

-- The types of file system; any other value leaves the list empty.
unfoldable pub file_system_types : {F : Type 0} → Value F → List Str
unfolding split
file_system_types (str s) = map strip (split b',' s)
file_system_types (strs l) = l
file_system_types v = []

-- `s.replace(old, new)`, for an `old` that is not empty; the number of characters still to be
-- skipped is that of an occurrence just replaced.
unfoldable pub replace_from : Str → Str → ℕ → Str → Str
replace_from old new skip [] = []
replace_from old new (suc skip) (c ∷ s) = replace_from old new skip s
replace_from old new zero (c ∷ s) =
    let hit = new ++ replace_from old new (length old - 1) s in
    let missed = c ∷ replace_from old new zero s in if starts_with (c ∷ s) old then hit else missed

abbrev pub replace : Str → Str → Str → Str
unfolding replace_from
replace old new = replace_from old new 0

-- `get_disk_labels`, for the names in the directory; none is no directory. The path is made of the
-- label after the replacement.
unfoldable pub read_labels : System → List Str → Dict Str → Dict Str
unfolding insert replace_from
read_labels y [] labels = labels
read_labels y (name ∷ names) labels =
    let label = replace (codes "\\x2f") (codes "/") name in
    let device = System.realpath y (codes "/dev/disk/by-label/" ++ b'/' ∷ label) in
    read_labels y names (insert device label labels)

unfoldable pub get_disk_labels : System → Option (List Str) → Dict Str
unfolding read_labels
get_disk_labels y none = []
get_disk_labels y (some names) = read_labels y names []

abbrev pub device_eq : Device → Device → Bool
device_eq (a, b) (c, d) = (a == c) && (b == d)

abbrev pub has_device : Device → List (Device × FileSystem) → Bool
has_device d [] = false
has_device d ((e, f) ∷ found) = device_eq d e || has_device d found

-- The tests on a line's three words that have to be passed before the mount point is looked at.
unfoldable pub is_wanted : System → Str → List Str → FileSystem → Bool
is_wanted y exclude types f =
    str_mem f.fs_type types
    && (not (System.search y exclude f.mount_point)
        && (not (
              starts_with f.mount_point (codes "/dev")
              || (starts_with f.mount_point (codes "/proc")
                  || starts_with f.mount_point (codes "/sys")))
            && ((contains f.device (codes "/") || str_eq f.device (codes "tmpfs"))
                && starts_with f.mount_point (codes "/"))))

-- a file system whose device is known, unless there is one with this device already
unfoldable pub add_device :
    System → FileSystem → Option Device → List (Device × FileSystem) → List (Device × FileSystem)
add_device y f none found = found
add_device y f (some d) found =
    if has_device d found
    then found
    else found ++ (d, record f { device = System.realpath y f.device }) ∷ []

abbrev pub mount_of : List Str → Option FileSystem
mount_of (d ∷ m ∷ t ∷ rest) = some (record { device = d; mount_point = m; fs_type = t })
mount_of l = none

unfoldable pub add_mount :
    System
    → Str
    → List Str
    → Option FileSystem
    → List (Device × FileSystem)
    → List (Device × FileSystem)
unfolding is_wanted add_device
add_mount y exclude types none found = found
add_mount y exclude types (some f) found =
    if is_wanted y exclude types f
    then add_device y f (System.stat y f.mount_point) found
    else found

-- the loop over the lines of /proc/mounts
unfoldable pub read_mounts :
    System → Str → List Str → List Str → List (Device × FileSystem) → List (Device × FileSystem)
unfolding add_mount
read_mounts y exclude types [] found = found
read_mounts y exclude types (l ∷ ls) found =
    read_mounts y exclude types ls (add_mount y exclude types (mount_of (words l)) found)

-- the partitions that psutil lists, numbered
unfoldable pub read_partitions :
    System → List FileSystem → List (Device × FileSystem) → List (Device × FileSystem)
read_partitions y [] found = found
read_partitions y (p ∷ ps) found =
    read_partitions y ps
      (found ++ ((0, length found), record p { device = System.realpath y p.device }) ∷ [])

-- `get_file_systems`, for the lines of a readable /proc/mounts, and psutil's partitions if it could
-- be imported; none is the error that is logged where neither is there.
unfoldable pub get_file_systems :
    System
    → Str
    → List Str
    → Option (List Str)
    → Option (List FileSystem)
    → Option (List (Device × FileSystem))
unfolding read_mounts read_partitions
get_file_systems y exclude types (some lines) partitions =
    some (read_mounts y exclude types lines [])
get_file_systems y exclude types none (some partitions) = some (read_partitions y partitions [])
get_file_systems y exclude types none none = none
