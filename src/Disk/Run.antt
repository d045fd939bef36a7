-- ===== src/Disk/Run.antt =====
-- `collect` of src/diamond/collectors/diskspace/diskspace.py, over the file systems found.
use fullerite.Base.{ℕ, Option, none, some, List, [], ◌∷◌}
use fullerite.Base.Text.{Str}
use fullerite.Base.Dict.{Dict}
use fullerite.Base.Exec.{pure, ◌>>◌}
use fullerite.Collector.State.{World, Action}
use fullerite.Collector.Publish.{report_error}
use fullerite.Disk.{Device, FileSystem, System, get_disk_labels, get_file_systems}
use fullerite.Disk.Space.{Statvfs, file_system_name, publish_space}

module _ (w : World) (depth : ℕ) where
  -- the loop over the file systems
  unfoldable pub publish_spaces :
      (Str → Option Statvfs) → Dict Str → List (Device × FileSystem) → Action w Unit
  unfolding publish_space file_system_name
  publish_spaces statvfs labels [] = pure tt
  publish_spaces statvfs labels ((d, f) ∷ found) = do
    publish_space w depth (file_system_name labels f.device f.mount_point) (statvfs f.mount_point)
    publish_spaces statvfs labels found

  -- `if not results: self.log.error(...)`
  abbrev pub publish_found :
      (Str → Option Statvfs) → Dict Str → List (Device × FileSystem) → Action w Unit
  unfolding publish_spaces
  publish_found statvfs labels [] = report_error w depth none
  publish_found statvfs labels (e ∷ found) = publish_spaces statvfs labels (e ∷ found)

  -- `collect`, for the pattern and the types of the configuration, the names of the labels, the
  -- lines of /proc/mounts and psutil's partitions
  unfoldable pub collect_diskspace :
      System
      → (Str → Option Statvfs)
      → Str
      → List Str
      → Option (List Str)
      → Option (List Str)
      → Option (List FileSystem)
      → Action w Unit
  unfolding get_file_systems get_disk_labels publish_spaces
  collect_diskspace y statvfs exclude types names lines partitions =
      elim (get_file_systems y exclude types lines partitions) [
        | none ↦ (do report_error w depth none; report_error w depth none)
        | some found ↦ publish_found statvfs (get_disk_labels y names) found
      ]
