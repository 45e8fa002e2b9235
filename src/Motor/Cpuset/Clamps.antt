-- ===== src/Motor/Cpuset/Clamps.antt =====
-- The ranges that the kernel documents for cpu.weight and memory.swappiness.
use hosa.Prelude.{ℕ, ◌≤◌, ◌≡◌, arith, some, Bytes, Option, none, refl}
use hosa.Prelude.Int.{ℤ, pos, negsuc}
use hosa.Strings.{parse_uint, format_uint, format_int}
use hosa.Strings.Decimal.{parse_uint-format_uint}
use hosa.Syscgroup.{Kernel, content, cpu_weight, memory_swappiness}
use hosa.Syscgroup.Files.{AcceptsAll, newest_same}
use hosa.Motor.Cpuset.{clamp_weight, clamp_swappiness, set_cgroup_cpu_weight, set_cgroup_swappiness}

-- The text reads as a number from `lo` to `hi`.
abbrev pub ReadsWithin : ℕ → ℕ → Option Bytes → Type 0
ReadsWithin lo hi none = ⊥
ReadsWithin lo hi (some text) = (n : ℕ) × (parse_uint text ≡ some n) × (lo ≤ n) × (n ≤ hi)

clamp_weight_bounds : (w : ℕ) → (1 ≤ clamp_weight w) × (clamp_weight w ≤ 10000)
clamp_weight_bounds w = ground arith

-- The number that memory.swappiness gets.
abbrev swappiness_of : ℤ → ℕ
swappiness_of (pos n) = n
swappiness_of (negsuc n) = 0

clamp_swappiness_pos :
    (v : ℤ)
    → (clamp_swappiness v ≡ pos (swappiness_of (clamp_swappiness v)))
      × (swappiness_of (clamp_swappiness v) ≤ 200)
clamp_swappiness_pos v = ground arith

weight_text : (w : ℕ) → ReadsWithin 1 10000 (some (format_uint (clamp_weight w)))
weight_text w =
    let (lo, hi) = clamp_weight_bounds w in
    (clamp_weight w, parse_uint-format_uint (clamp_weight w) (omega arith), lo, hi)

format_int-pos : (n : ℕ) → format_int (pos n) ≡ format_uint n
unfolding format_int
format_int-pos n = refl

swappiness_text : (v : ℤ) → ReadsWithin 0 200 (some (format_int (clamp_swappiness v)))
swappiness_text v =
    let (e, hi) = clamp_swappiness_pos v in
    let n = swappiness_of (clamp_swappiness v) in
    (n, rw (e, format_int-pos n) (parse_uint-format_uint n (omega arith)), omega arith, hi)

-- Whatever weight and swappiness are asked for, also negative or huge ones, an accepted write
-- leaves in cpu.weight a number from 1 to 10000 and in memory.swappiness a number from 0 to 200.
pub written_within :
    (path : Bytes) (w : ℕ) (v : ℤ) (k : Kernel)
    → AcceptsAll k
    → ReadsWithin 1 10000 (content (set_cgroup_cpu_weight path w k).0 path cpu_weight)
      × ReadsWithin 0 200 (content (set_cgroup_swappiness path v k).0 path memory_swappiness)
unfolding set_cgroup_cpu_weight set_cgroup_swappiness
written_within path w v k all = (
  rw (all k.tried, newest_same) (weight_text w),
  rw (all k.tried, newest_same) (swappiness_text v),
)
