-- ===== src/Tests/MotorTests.antt =====
-- internal/motor and internal/syscgroup on concrete calls.
use hosa.Prelude.{ℕ, ◌≡◌, ◌≢◌, refl, true, false, none, some, [], ◌∷◌, codes, arith, length, ap}
use hosa.Prelude.Int.{pos}
use hosa.Float.Fixed.{fixed_float}
use hosa.Strings.{format_uint, format_int, trim_space}
use hosa.Sensor.CpuList.{parse_cpu_list}
use hosa.Syscgroup.{
  Kernel, content, limit_text, memory_high, memory_max, cpu_weight, memory_swappiness,
  memory_swap_max,
}
use hosa.Motor.Cpuset.{sort, to_string}
use hosa.Motor.Cpuset.RoundTrip.{parse_cpu_list-to_string}
use hosa.Motor.Cgroups.{apply}
use hosa.Motor.Cgroups.Limits.{apply-limits, high_limit, max_text}
use hosa.Motor.Cgroups.Retry.{apply-apply}
use hosa.Outcome.{Outcome, err, panic, call_failed}
use hosa.Outcome.Partly.{ReturnsOr}
use hosa.Motor.Survival.{
  SurvivalMotor, sched_ext_failed, wants_sched_ext, engage, release, survival_action_summary,
}
use hosa.Motor.Survival.Restore.{Applied, release_restores, engage_applies}
use hosa.Motor.Vital.{ParentFiles, ensured, enable, ensure_vital_cgroup}
use hosa.Motor.Vital.Controllers.{ensure_vital_cgroup-cpuset}
use hosa.Prelude.{Option, Bytes, bytes_eq, ◌++◌, if◌then◌else◌}
use hosa.Strings.Path.{clean, path_join}
use hosa.Strings.{split, has_prefix, trim_space}
use hosa.Syscgroup.Reads.{cgroup_root, proc_file, cgroup_path, found}
use hosa.Syscgroup.Reads.Located.{lines_before}
use hosa.Tests.Data.{kernel, kernel-AcceptsAll, motor_at, survival_motor, active_motor}

parse_cpu_list-to_string_example :
    parse_cpu_list (to_string (3 ∷ 0 ∷ 1 ∷ [])) ≡ some (sort (3 ∷ 0 ∷ 1 ∷ []))
parse_cpu_list-to_string_example =
    parse_cpu_list-to_string (3 ∷ 0 ∷ 1 ∷ []) (λ e. cc)
      (omega arith, (omega arith, (omega arith, tt)))

to_string_ranges : to_string (3 ∷ 0 ∷ 1 ∷ []) ≡ codes "0-1,3"
unfolding to_string format_uint
to_string_ranges = refl

apply-limits_example :
    let m = motor_at 0 in
    let r = apply m 3 1000 kernel in
    (r.changed ≡ true)
    × (r.error ≡ none)
    × (r.motor.last_level ≡ 3)
    × (content r.kernel m.cg_path memory_high ≡ some (limit_text (high_limit m.cfg 3 1000)))
    × (content r.kernel m.cg_path memory_max ≡ max_text m.cfg 3 1000 none)
apply-limits_example =
    apply-limits (motor_at 0) 3 1000 kernel kernel-AcceptsAll (omega arith) (omega arith)

-- A kernel that refuses every write.
abbrev refusing : Kernel
refusing = record { accepts = λ _. false; tried = 0; writes = [] }

apply-apply_example :
    let m' = (apply (motor_at 0) 3 1000 refusing).motor in
    apply m' 3 1000 kernel ≡ record { motor = m'; kernel = kernel; changed = false; error = none }
apply-apply_example = apply-apply (motor_at 0) 3 1000 1000 refusing kernel

unlike_lengths : (a b : ℕ) → a ≡ 6 → b ≡ 12 → a ≢ b
unlike_lengths a b h k = omega arith

cgroups_differ : codes "/batch" ≢ codes "/vital.slice"
cgroups_differ e =
    unlike_lengths (length (codes "/batch")) (length (codes "/vital.slice")) refl refl (ap length e)

release_restores_example :
    let k' = (release active_motor true kernel).kernel in
    (content k' (codes "/batch") cpu_weight ≡ some (format_uint 100))
    × (content k' (codes "/batch") memory_swappiness ≡ some (format_int (pos 60)))
    × (content k' (codes "/vital.slice") memory_swap_max ≡ some (codes "max"))
    × (content k' (codes "/vital.slice") memory_swappiness ≡ some (format_int (pos 60)))
release_restores_example =
    release_restores active_motor true kernel refl refl refl cgroups_differ kernel-AcceptsAll

cleaned_cgroups_differ : clean (codes "/batch") ≢ clean (codes "/vital.slice")
unfolding clean
cleaned_cgroups_differ e =
    unlike_lengths (length (clean (codes "/batch"))) (length (clean (codes "/vital.slice"))) refl
      refl (ap length e)

abbrev failing_load : Outcome ℕ
failing_load = err call_failed

abbrev loading_motor : SurvivalMotor
loading_motor = record survival_motor { sched_ext_avail = true }

-- The load of the scheduler is called, and fails.
engage_applies_example :
    ReturnsOr
      (Applied loading_motor (sched_ext_failed ∷ []))
      ((wants_sched_ext loading_motor ≡ true) × (failing_load ≡ panic))
      (engage loading_motor none failing_load kernel)
engage_applies_example =
    engage_applies loading_motor none failing_load kernel refl refl refl cleaned_cgroups_differ
      kernel-AcceptsAll

-- The parent offers three controllers and delegates one of them.
abbrev parent_files : ParentFiles
parent_files = record {
  controllers = some (codes "cpuset cpu memory");
  subtree = some (codes "cpuset");
}

parent_files_subtree : trim_space (codes "cpuset") ≡ codes "cpuset"
unfolding trim_space
parent_files_subtree = refl

ensure_vital_cgroup-cpuset_example :
    ensure_vital_cgroup true parent_files (codes "/sys/vital") kernel
    ≡ ensured (
        enable
          (codes "/sys")
          (trim_space (codes "cpuset cpu memory"))
          (trim_space (codes "cpuset"))
          (codes "memory")
          kernel)
ensure_vital_cgroup-cpuset_example =
    ensure_vital_cgroup-cpuset parent_files (codes "/sys") (codes "vital")
      (codes "cpuset cpu memory") [] [] kernel
      (omega arith, (omega arith, (omega arith, (omega arith, (omega arith, tt))))) refl
      parent_files_subtree

survival_action_summary_text :
    survival_action_summary
      record {
        sched_ext_bpf_object = [];
        offender_cgroup_path = [];
        vital_cgroup_path = [];
        cpu_weight_starve = 1;
        swappiness_offender = pos 200;
        swappiness_vital = pos 0;
      }
      none
      false
    ≡ codes "cpu.weight=1 swappiness_offender=200 swap.max_vital=0 sched_ext=unavailable(fallback)"
unfolding survival_action_summary format_uint format_int
survival_action_summary_text = refl

-- A path with `..` at its start leaves the cgroup file system.
left_root : path_join cgroup_root (codes "/../batch") ≡ codes "/sys/fs/batch"
unfolding path_join split has_prefix bytes_eq
left_root = refl

abbrev proc_files : Bytes → Option Bytes
proc_files path =
    if bytes_eq path (proc_file (pos 7))
    then some (lines_before (codes "1:cpu:/x" ∷ []) (codes "0::/hosa.slice" ++ b'\n' ∷ []))
    else none

located : cgroup_path proc_files (pos 7) ≡ found (codes "/sys/fs/cgroup/hosa.slice")
unfolding cgroup_path path_join split has_prefix bytes_eq trim_space
located = refl
