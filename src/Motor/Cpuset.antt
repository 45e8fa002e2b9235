-- ===== src/Motor/Cpuset.antt =====
-- internal/motor/cpuset.go: the text of a set of CPUs, and the cgroup controls of phase 2. A CPU id is
-- a natural number.
pub mod RoundTrip
pub mod Clamps
use hosa.Prelude.Int.{ℤ, pos, negsuc, ltb_ℤ, eqb_ℤ}
use hosa.Syscgroup.{
  Kernel, WriteError, write_control, cpuset_cpus, cpu_weight, memory_swappiness, memory_swap_max,
}
use hosa.Prelude.{
  ℕ, suc, ◌+◌, List, [], ◌∷◌, ◌++◌, Bytes, codes, is_empty, ltb, leb, ◌==◌, if◌then◌else◌, Option,
  none, some,
}
use hosa.Strings.{format_uint, format_int, atoi, trim_space, after_last}

abbrev pub CpuSet : Type 0
CpuSet = List ℕ

unfoldable pub insert_sorted : ℕ → List ℕ → List ℕ
insert_sorted x [] = x ∷ []
insert_sorted x (y ∷ ys) = let rest = insert_sorted x ys in if leb x y then x ∷ y ∷ ys else y ∷ rest

-- sort.Ints
unfoldable pub sort : List ℕ → List ℕ
unfolding insert_sorted
sort [] = []
sort (x ∷ xs) = insert_sorted x (sort xs)

abbrev pub range_text : ℕ → ℕ → Bytes
range_text start end =
    if start == end then format_uint start else format_uint start ++ b'-' ∷ format_uint end

-- The closure `flush`, on the text built so far.
abbrev pub flush : ℕ → ℕ → Bytes → Bytes
flush start end [] = range_text start end
flush start end (c ∷ sb) = (c ∷ sb) ++ b',' ∷ range_text start end

-- The loop over `sorted[1:]`, and the last `flush`.
unfoldable pub ranges : ℕ → ℕ → Bytes → List ℕ → Bytes
ranges start end sb [] = flush start end sb
ranges start end sb (cpu ∷ cpus) =
    let longer = ranges start cpu sb cpus in
    let next = ranges cpu cpu (flush start end sb) cpus in if cpu == end + 1 then longer else next

unfoldable pub ranges_of : List ℕ → Bytes
unfolding ranges
ranges_of [] = []
ranges_of (x ∷ xs) = ranges x x [] xs

-- `CPUSet.String`
unfoldable pub to_string : CpuSet → Bytes
unfolding ranges_of sort
to_string cs = ranges_of (sort cs)

abbrev pub int_or : (otherwise : ℤ) → Option ℤ → ℤ
int_or otherwise none = otherwise
int_or otherwise (some n) = n

abbrev pub last_int : ℕ → Bytes → Option ℤ
last_int b s = elim (after_last b s) [ none ↦ none | some t ↦ atoi t ]

-- `maxCPUID`, on the content of /sys/devices/system/cpu/present.
unfoldable pub max_cpu_id : Option Bytes → ℤ
max_cpu_id none = pos 0
max_cpu_id (some text) =
    let s = trim_space text in int_or (int_or (pos 0) (last_int b',' s)) (last_int b'-' s)

unfoldable pub set_cgroup_cpu_set :
    Option Bytes → Bytes → CpuSet → Kernel → Kernel × Option WriteError
unfolding to_string max_cpu_id write_control
set_cgroup_cpu_set present path cpus k =
    let value = to_string cpus in
    let value' = if is_empty value then codes "0-" ++ format_int (max_cpu_id present) else value in
    write_control path cpuset_cpus value' k

-- The range of cpu.weight is 1 to 10000.
abbrev pub clamp_weight : ℕ → ℕ
clamp_weight weight = let w = if ltb weight 1 then 1 else weight in if ltb 10000 w then 10000 else w

unfoldable pub set_cgroup_cpu_weight : Bytes → ℕ → Kernel → Kernel × Option WriteError
unfolding write_control
set_cgroup_cpu_weight path weight k =
    write_control path cpu_weight (format_uint (clamp_weight weight)) k

-- The range of memory.swappiness is 0 to 200.
abbrev pub clamp_swappiness : ℤ → ℤ
clamp_swappiness value =
    let v = if ltb_ℤ value (pos 0) then pos 0 else value in if ltb_ℤ (pos 200) v then pos 200 else v

unfoldable pub set_cgroup_swappiness : Bytes → ℤ → Kernel → Kernel × Option WriteError
unfolding write_control
set_cgroup_swappiness path value k =
    write_control path memory_swappiness (format_int (clamp_swappiness value)) k

abbrev pub swap_text : ℤ → Bytes
swap_text bytes =
    if eqb_ℤ bytes (pos 0)
    then codes "0"
    else if ltb_ℤ (pos 0) bytes
    then format_int bytes
    else codes "max"

unfoldable pub set_cgroup_swap_max : Bytes → ℤ → Kernel → Kernel × Option WriteError
unfolding write_control
set_cgroup_swap_max path bytes k = write_control path memory_swap_max (swap_text bytes) k

unfoldable pub reset_cgroup_cpu_weight : Bytes → Kernel → Kernel × Option WriteError
unfolding set_cgroup_cpu_weight
reset_cgroup_cpu_weight path k = set_cgroup_cpu_weight path 100 k
