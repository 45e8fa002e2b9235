-- ===== src/Tests/Data.antt =====
-- The inputs that several tests share.
use hosa.Prelude.{ℕ, true, false, none, [], ◌∷◌, codes, refl}
use hosa.Prelude.Int.{pos, negsuc}
use hosa.Float.{lit}
use hosa.Float.Fixed.{Fixed, fixed_float}
use hosa.Syscgroup.{Kernel}
use hosa.Syscgroup.Files.{AcceptsAll}
use hosa.Brain.Cortex.{PredictiveCortex, default_config}
use hosa.Motor.Cgroups.{CgroupMotor, default_motor_config}
use hosa.Motor.Survival.{SurvivalMotor}

abbrev pub tenths : ℕ → Fixed
tenths n = lit n 1

abbrev pub kernel : Kernel
kernel = record { accepts = λ _. true; tried = 0; writes = [] }

pub kernel-AcceptsAll : AcceptsAll kernel
kernel-AcceptsAll n = refl

-- The default thresholds, at a level, with no calm cycle counted.
abbrev pub cortex_at : ℕ → PredictiveCortex Fixed
cortex_at level = record {
  config = default_config;
  welford = record { n = 0; p = 1; mean = tenths 0 ∷ []; m2 = tenths 0 ∷ [] };
  ewma_value = tenths 0;
  ewma_ready = false;
  prev = none;
  current_level = level;
  below_count = 0;
}

abbrev pub motor_at : ℕ → CgroupMotor Fixed
motor_at level = record {
  cg_path = codes "/sys/fs/cgroup/hosa";
  cfg = default_motor_config;
  last_level = level;
}

abbrev pub survival_motor : SurvivalMotor
survival_motor = record {
  cfg = record {
    sched_ext_bpf_object = codes "survival.bpf.o";
    offender_cgroup_path = codes "/batch";
    vital_cgroup_path = codes "/vital.slice";
    cpu_weight_starve = 1;
    swappiness_offender = pos 100;
    swappiness_vital = pos 0;
  };
  topo = none;
  sched_ext_fd = negsuc 0;
  active = false;
  sched_ext_avail = false;
}

abbrev pub active_motor : SurvivalMotor
active_motor = record survival_motor { active = true }
