-- ===== src/Sensor/Discovery.antt =====
-- `DiscoverTopology` of internal/sensor/proprioception.go. What the files and directories of /proc and
-- /sys hold is an argument: `none` is a path that cannot be read. The entries of a directory come in
-- the order of `os.ReadDir`, and the three DMI files in the order in which the map is visited.
use hosa.Prelude.{
  ℕ, suc, ◌*◌, ◌%◌, ◌^◌, Bool, true, false, ◌&&◌, ◌||◌, not, Option, none, some, List, [], ◌∷◌,
  ◌++◌, map, Bytes, codes, ltb, ◌==◌, if◌then◌else◌, length, drop,
}
use hosa.Prelude.Int.{ℤ, pos, negsuc, eqb_ℤ}
use hosa.Strings.{parse_uint, atoi, trim_space, split, has_prefix, index_of, fields}
use hosa.Sensor.CpuList.{parse_cpu_range}

-- The directory of a cache index, "index0", "index1", …
pub record CacheIndex : Type 0 where
  pub name : Bytes
  pub level : Option Bytes
  pub size : Option Bytes
  pub shared_cpu_list : Option Bytes

-- An entry of /sys/devices/system/cpu.
pub record CpuEntry : Type 0 where
  pub name : Bytes
  pub core_id : Option Bytes
  pub physical_package_id : Option Bytes
  pub cache : Option (List CacheIndex)

pub record Machine : Type 0 where
  pub meminfo : Option Bytes
  pub present : Option Bytes
  pub cpus : Option (List CpuEntry)
  pub cpu0_cache : Option (List CacheIndex)
  pub nodes : Option (List Bytes)
  pub hypervisor_type : Option Bytes
  pub cpuinfo : Option Bytes
  pub dmi : List (Option Bytes)

abbrev pub int_or_minus_one : Option ℤ → ℤ
int_or_minus_one none = negsuc 0
int_or_minus_one (some n) = n

abbrev pub read_int_file : Option Bytes → ℤ
read_int_file none = negsuc 0
read_int_file (some text) = int_or_minus_one (atoi (trim_space text))

abbrev pub is_some {ℓ} : {A : Type ℓ} → Option A → Bool
is_some none = false
is_some (some a) = true

-- A name that is the prefix with a number behind it.
abbrev pub is_numbered : Bytes → Bytes → Bool
is_numbered prefix name =
    ltb (length prefix) (length name)
    && has_prefix name prefix
    && is_some (atoi (drop (length prefix) name))

-- strings.Contains, of a pattern that is not empty.
abbrev pub contains : Bytes → Bytes → Bool
contains pat s = is_some (index_of pat s)

abbrev pub kilobytes : Option ℕ → Option ℕ
kilobytes none = none
kilobytes (some kb) = some ((kb * 1024) % 2 ^ 64)

-- The lines of /proc/meminfo; an error is `none`.
unfoldable pub find_mem_total : List Bytes → Option ℕ
find_mem_total [] = none
find_mem_total (line ∷ lines) =
    let rest = find_mem_total lines in
    if not (has_prefix line (codes "MemTotal:"))
    then rest
    else elim (fields line) [ [] ↦ rest | f ∷ [] ↦ rest | f ∷ kb ∷ fs ↦ kilobytes (parse_uint kb) ]

unfoldable pub read_mem_total_bytes : Option Bytes → Option ℕ
unfolding find_mem_total
read_mem_total_bytes none = none
read_mem_total_bytes (some text) = find_mem_total (split b'\n' text)

unfoldable pub count_numbered : Bytes → List Bytes → ℕ
count_numbered prefix [] = 0
count_numbered prefix (name ∷ names) =
    let rest = count_numbered prefix names in if is_numbered prefix name then suc rest else rest

unfoldable pub count_cpu_dirs : Option (List CpuEntry) → ℕ
unfolding count_numbered
count_cpu_dirs none = 1
count_cpu_dirs (some es) =
    let count = count_numbered (codes "cpu") (map (λ e. e.name) es) in
    if count == 0 then 1 else count

unfoldable pub count_numa_nodes : Option (List Bytes) → ℕ
unfolding count_numbered
count_numa_nodes none = 0
count_numa_nodes (some names) = count_numbered (codes "node") names

abbrev pub logical_cores : Option Bytes → Option (List CpuEntry) → ℤ
logical_cores none cpus = pos (count_cpu_dirs cpus)
logical_cores (some text) cpus = parse_cpu_range (trim_space text)

unfoldable pub seen_core : ℤ × ℤ → List (ℤ × ℤ) → Bool
seen_core key [] = false
seen_core (s, c) ((s', c') ∷ seen) = (eqb_ℤ s s' && eqb_ℤ c c') || seen_core (s, c) seen

-- The keys of the map `seen` of `readPhysicalCores`.
unfoldable pub cores_of : List CpuEntry → List (ℤ × ℤ) → List (ℤ × ℤ)
unfolding seen_core
cores_of [] seen = seen
cores_of (e ∷ es) seen =
    let key : ℤ × ℤ = (read_int_file e.physical_package_id, read_int_file e.core_id) in
    let skipped = cores_of es seen in
    let added = cores_of es (key ∷ seen) in
    if is_numbered (codes "cpu") e.name && not (seen_core key seen) then added else skipped

unfoldable pub read_physical_cores : Option (List CpuEntry) → ℕ
unfolding cores_of
read_physical_cores none = 0
read_physical_cores (some es) = length (cores_of es [])

-- The multiplier of the last byte, if it is a unit.
abbrev pub unit_of : ℕ → Option ℕ
unit_of c =
    if c == b'K' || c == b'k'
    then some (2 ^ 10)
    else if c == b'M' || c == b'm'
    then some (2 ^ 20)
    else if c == b'G' || c == b'g'
    then some (2 ^ 30)
    else none

abbrev pub scaled : ℕ → Option ℕ → ℕ
scaled multiplier none = 0
scaled multiplier (some n) = (n * multiplier) % 2 ^ 64

-- `parseMemSize` of a text, split before its last byte.
abbrev pub size_of : Bytes → ℕ → Option ℕ → ℕ
size_of init c none = scaled 1 (parse_uint (init ++ c ∷ []))
size_of init c (some multiplier) = scaled multiplier (parse_uint init)

unfoldable pub mem_size_from : Bytes → Bytes → ℕ
mem_size_from init [] = 0
mem_size_from init (c ∷ []) = size_of init c (unit_of c)
mem_size_from init (c ∷ d ∷ s) = mem_size_from (init ++ c ∷ []) (d ∷ s)

unfoldable pub parse_mem_size : Bytes → ℕ
unfolding mem_size_from
parse_mem_size s = mem_size_from [] s

abbrev pub is_level3 : CacheIndex → Bool
is_level3 i = has_prefix i.name (codes "index") && eqb_ℤ (read_int_file i.level) (pos 3)

unfoldable pub l3_size : List CacheIndex → ℕ
unfolding parse_mem_size
l3_size [] = 0
l3_size (i ∷ is) =
    let rest = l3_size is in
    if is_level3 i
    then elim i.size [ none ↦ rest | some text ↦ parse_mem_size (trim_space text) ]
    else rest

unfoldable pub read_l3_cache_size : Option (List CacheIndex) → ℕ
unfolding l3_size
read_l3_cache_size none = 0
read_l3_cache_size (some is) = l3_size is
