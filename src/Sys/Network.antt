-- ===== src/Sys/Network.antt =====
-- src/diamond/collectors/network/network.py, for what its pattern finds in a line.
use fullerite.Base.{ℕ, ◌||◌, Option, none, some, List, [], ◌∷◌, ◌++◌, map, if◌then◌else◌}
use fullerite.Base.Int.{ℤ}
use fullerite.Base.Text.{Str, codes, str_eq}
use fullerite.Base.Dict.{Dict, insert, update}
use fullerite.Base.Exec.{pure, lift, modify, ◌>>=◌, ◌>>◌}
use fullerite.Python.{int, long, Value, num, str, strs}
use fullerite.Python.Convert.{value_int}
use fullerite.Convertor.Binary.{convert}
use fullerite.Metric.{dict}
use fullerite.Collector.State.{World, Action, config_get}
use fullerite.Collector.Config.{get_default_config}
use fullerite.Collector.Publish.{report_error}
use fullerite.Collector.Run.{publish_cumulative_counter}
use fullerite.Kernel.Memory.{units_of, converted}
use fullerite.Disk.{replace_from, replace}

-- `get_default_config`
abbrev pub network_default : {F : Type 0} → Dict (Value F)
network_default = update get_default_config (
    (codes "path", str (codes "network"))
    ∷ (codes "interfaces", strs (map codes ("eth" ∷ "bond" ∷ "em" ∷ "p1p" ∷ "tun" ∷ [])))
    ∷ (codes "byte_unit", strs (map codes ("bit" ∷ "byte" ∷ [])))
    ∷ (codes "greedy", str (codes "true"))
    ∷ [])

-- What psutil counts for a device.
pub record Counters : Type 0 where
  pub bytes_recv : ℤ
  pub bytes_sent : ℤ
  pub packets_recv : ℤ
  pub packets_sent : ℤ

module _ {F : Type 0} where
  -- the device and the groups, which are texts, of the lines that the pattern matches
  unfoldable pub read_devices :
      (Str → Option (Str × Dict (Value F)))
      → List Str
      → Dict (Dict (Value F))
      → Dict (Dict (Value F))
  unfolding insert
  read_devices find [] results = results
  read_devices find (l ∷ ls) results = elim (find l) [
    | none ↦ read_devices find ls results
    | some (device, groups) ↦ read_devices find ls (insert device groups results)
  ]

  -- the counters of psutil, under the names of the groups
  unfoldable pub device_counters :
      List (Str × Counters) → Dict (Dict (Value F)) → Dict (Dict (Value F))
  unfolding insert
  device_counters [] results = results
  device_counters ((device, n) ∷ more) results = device_counters more (
      insert device
        ((codes "rx_bytes", num (int n.bytes_recv))
          ∷ (codes "tx_bytes", num (int n.bytes_sent))
          ∷ (codes "rx_packets", num (int n.packets_recv))
          ∷ (codes "tx_packets", num (int n.packets_sent))
          ∷ [])
        results)

module _ (w : World) (depth : ℕ) where
  open w use {float, float.{Carrier}}

  abbrev pub set_iface : Str → Action w Unit
  set_iface device = modify (λ c. record c { dimensions = dict ((codes "iface", str device) ∷ []) })

  -- a number of bytes in each unit
  unfoldable pub publish_bytes : Str → Str → ℤ → List Str → Action w Unit
  unfolding convert replace_from
  publish_bytes device name n [] = pure tt
  publish_bytes device name n (unit ∷ units) = do
    set_iface device
    x ← lift (convert float (some (long n)) (some (codes "byte")) (some unit))
    publish_cumulative_counter w depth (replace (codes "bytes") unit name) (converted x) 2 none
    publish_bytes device name n units

  abbrev pub publish_converted : Str → Str → ℤ → Action w Unit
  unfolding publish_bytes
  publish_converted device name n = do
    v ← config_get (codes "byte_unit")
    units ← lift (units_of v)
    publish_bytes device name n units

  abbrev pub publish_count : Str → Str → ℤ → Action w Unit
  publish_count device name n = do
    set_iface device
    publish_cumulative_counter w depth name (num (long n)) 0 none

  -- one counter of a device
  unfoldable pub publish_stat : Str → Str → Value Carrier → Action w Unit
  unfolding publish_bytes value_int
  publish_stat device s v = do
    n ← lift (value_int float v)
    let name = codes "net." ++ s
    if str_eq s (codes "rx_bytes") || str_eq s (codes "tx_bytes")
        then publish_converted device name n
        else publish_count device name n

  unfoldable pub publish_stats : Str → Dict (Value Carrier) → Action w Unit
  unfolding publish_stat
  publish_stats device [] = pure tt
  publish_stats device ((s, v) ∷ more) = do publish_stat device s v; publish_stats device more

  unfoldable pub publish_devices : Dict (Dict (Value Carrier)) → Action w Unit
  unfolding publish_stats
  publish_devices [] = pure tt
  publish_devices ((device, stats) ∷ more) = do publish_stats device stats; publish_devices more

  -- without psutil, two errors are logged
  abbrev pub collect_counters : Option (List (Str × Counters)) → Action w Unit
  unfolding device_counters publish_devices
  collect_counters none = do report_error w depth none; report_error w depth none
  collect_counters (some devices) = publish_devices (device_counters devices [])

  -- `collect`, for the lines of a readable /proc/net/dev, or else psutil's counters
  unfoldable pub collect_network :
      (Str → Option (Str × Dict (Value Carrier)))
      → Option (List Str)
      → Option (List (Str × Counters))
      → Action w Unit
  unfolding read_devices publish_devices device_counters
  collect_network find (some lines) devices = publish_devices (read_devices find lines [])
  collect_network find none devices = collect_counters devices
