-- ===== src/Sensor/CacheGroups.antt =====
-- `buildCacheGroups` and `DiscoverTopology` of internal/sensor/proprioception.go.
pub mod Distinct
use hosa.Prelude.{
  ℕ, ◌+◌, ◌==◌, Bool, true, false, ◌&&◌, ◌||◌, not, Option, none, some, List, [], ◌∷◌, ◌++◌, map,
  Bytes, codes, bytes_eq, if◌then◌else◌,
}
use hosa.Strings.{trim_space}
use hosa.Sensor.CpuList.{parse_cpu_list}
use hosa.Sensor.Topology.{Topology}
use hosa.Prelude.Int.{ℤ, pos}
use hosa.Sensor.Discovery.{
  CacheIndex, CpuEntry, Machine, is_numbered, is_level3, read_mem_total_bytes, logical_cores,
  read_physical_cores, count_numa_nodes, read_l3_cache_size,
}
use hosa.Sensor.Hypervisor.{detect_vm}

-- The text of the first index of level 3 whose list can be read.
unfoldable pub l3_list : List CacheIndex → Option Bytes
l3_list [] = none
l3_list (i ∷ is) =
    let rest = l3_list is in
    if is_level3 i
    then elim i.shared_cpu_list [ none ↦ rest | some text ↦ some (trim_space text) ]
    else rest

unfoldable pub list_of : CpuEntry → Option Bytes
unfolding l3_list
list_of e =
    if is_numbered (codes "cpu") e.name
    then elim e.cache [ none ↦ none | some is ↦ l3_list is ]
    else none

unfoldable pub is_seen : Bytes → List Bytes → Bool
is_seen key [] = false
is_seen key (k ∷ ks) = bytes_eq k key || is_seen key ks

-- `order` with the list of one more CPU, unless it is there.
unfoldable pub note_list : Option Bytes → List Bytes → List Bytes
unfolding is_seen
note_list none order = order
note_list (some key) order = if is_seen key order then order else order ++ key ∷ []

-- The slice `order`, to which each list of CPUs is appended once.
unfoldable pub canonical_lists : List CpuEntry → List Bytes → List Bytes
unfolding note_list list_of
canonical_lists [] order = order
canonical_lists (e ∷ es) order = canonical_lists es (note_list (list_of e) order)

abbrev cons_group : Option (List ℕ) → Option (List (List ℕ)) → Option (List (List ℕ))
cons_group (some g) (some gs) = some (g ∷ gs)
cons_group _ _ = none

-- Every list is parsed; `none` if one of the calls never returns.
unfoldable pub parse_groups : List Bytes → Option (List (List ℕ))
parse_groups [] = some []
parse_groups (text ∷ texts) = cons_group (parse_cpu_list text) (parse_groups texts)

unfoldable pub build_cache_groups : Option (List CpuEntry) → Option (List (List ℕ))
unfolding canonical_lists parse_groups
build_cache_groups none = some []
build_cache_groups (some es) = parse_groups (canonical_lists es [])

abbrev pub or_if_zero : ℤ → ℕ → ℤ
or_if_zero d n = if n == 0 then d else pos n

abbrev pub vendor_text : Option Bytes → Bytes
vendor_text none = []
vendor_text (some v) = v

abbrev pub found_vm : Option Bytes → Bool
found_vm none = false
found_vm (some v) = true

abbrev pub topology : Machine → ℕ → List (List ℕ) → Topology
topology m mem_total groups =
    let logical = logical_cores m.present m.cpus in
    let vm = detect_vm m in
    record {
      physical_cores = or_if_zero logical (read_physical_cores m.cpus);
      logical_cores = logical;
      numa_nodes = or_if_zero (pos 1) (count_numa_nodes m.nodes);
      memory_total_bytes = mem_total;
      cache_size_l3_bytes = read_l3_cache_size m.cpu0_cache;
      is_vm = found_vm vm;
      hypervisor_vendor = vendor_text vm;
      cache_groups = groups;
    }

abbrev with_groups : Machine → ℕ → Option (List (List ℕ)) → Option (Option Topology)
with_groups m total none = none
with_groups m total (some groups) = some (some (topology m total groups))

-- `some none` is an error, and `none` a call that never returns.
unfoldable pub discover_topology : Machine → Option (Option Topology)
unfolding build_cache_groups
discover_topology m = elim (read_mem_total_bytes m.meminfo) [
  | none ↦ some none
  | some total ↦ with_groups m total (build_cache_groups m.cpus)
]
