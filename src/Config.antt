-- ===== src/Config.antt =====
-- internal/config/config.go: the configuration, its defaults, and what each layer overrides.
pub mod Toml
pub mod Summary
pub mod Load
pub mod Flags
pub mod Validate
use hosa.Prelude.{ℕ, ◌+◌, ◌-◌, ◌*◌, ◌%◌, ◌^◌, Bool, true, false, Bytes, codes, ltb, if◌then◌else◌}
use hosa.Prelude.Int.{of_residue, ℤ, pos, negsuc, sub_ℕ}
use hosa.Float.{Float, lit, nought}

pub record AlphaPerProbeConfig (F : Type 0) : Type 0 where
  pub cpu_run_queue : F
  pub mem_brk_calls : F
  pub mem_page_faults : F
  pub io_block_ops : F

pub record DetectionConfig (F : Type 0) : Type 0 where
  pub threshold_vigilance : F
  pub threshold_containment : F
  pub threshold_protection : F
  pub alpha_ewma : F
  pub alpha_per_probe : AlphaPerProbeConfig F
  pub min_samples : ℤ
  pub threshold_derivative_escalate : F
  pub threshold_derivative_relax : F
  pub hysteresis_down : ℤ

pub record SamplingConfig : Type 0 where
  pub normal_interval_ms : ℤ
  pub vigilance_interval_ms : ℤ

pub record MotorConfig (F : Type 0) : Type 0 where
  pub cgroup_path : Bytes
  pub containment_fraction : F
  pub protection_high_frac : F
  pub protection_max_frac : F

pub record ThalamicConfig : Type 0 where
  pub heartbeat_interval_s : ℤ

pub record SurvivalConfig (F : Type 0) : Type 0 where
  pub enabled : Bool
  pub threshold_survival : F
  pub sched_ext_bpf_object : Bytes
  pub offender_cgroup_path : Bytes
  pub vital_cgroup_path : Bytes
  pub cpu_weight_starve : ℤ
  pub swappiness_offender : ℤ
  pub swappiness_vital : ℤ
  pub frag_entropy_threshold : F
  pub compaction_trough_cpu_pct : F

pub record TelemetryConfig (F : Type 0) : Type 0 where
  pub metrics_addr : Bytes
  pub webhook_url : Bytes
  pub webhook_dm_dot_threshold : F

pub record Config (F : Type 0) : Type 0 where
  pub detection : DetectionConfig F
  pub sampling : SamplingConfig
  pub motor : MotorConfig F
  pub thalamus : ThalamicConfig
  pub survival : SurvivalConfig F
  pub telemetry : TelemetryConfig F

abbrev pub wrap_int64 : ℤ → ℤ
wrap_int64 (pos n) = of_residue (n % 2 ^ 64)
wrap_int64 (negsuc n) = of_residue (2 ^ 64 - 1 - n % 2 ^ 64)

abbrev pub scale : ℤ → ℕ → ℤ
scale (pos n) k = pos (n * k)
scale (negsuc n) k = sub_ℕ 0 ((n + 1) * k)

-- `time.Duration`, in nanoseconds.
unfoldable pub heartbeat_interval : ThalamicConfig → ℤ
heartbeat_interval t = wrap_int64 (scale t.heartbeat_interval_s (10 ^ 9))

unfoldable pub normal_interval : SamplingConfig → ℤ
normal_interval s = wrap_int64 (scale s.normal_interval_ms (10 ^ 6))

unfoldable pub vigilance_interval : SamplingConfig → ℤ
vigilance_interval s = wrap_int64 (scale s.vigilance_interval_ms (10 ^ 6))

module _ {F : Type 0} ⦃fl : Float F⦄ where
  unfoldable pub default : Config F
  default = record {
    detection = record {
      threshold_vigilance = lit 35 1;
      threshold_containment = lit 55 1;
      threshold_protection = lit 80 1;
      alpha_ewma = lit 2 1;
      alpha_per_probe = record {
        cpu_run_queue = lit 3 1;
        mem_brk_calls = lit 2 1;
        mem_page_faults = lit 2 1;
        io_block_ops = lit 15 2;
      };
      min_samples = pos 30;
      threshold_derivative_escalate = lit 20 1;
      threshold_derivative_relax = lit 5 1;
      hysteresis_down = pos 5;
    };
    sampling = record { normal_interval_ms = pos 1000; vigilance_interval_ms = pos 100 };
    motor = record {
      cgroup_path = codes "/sys/fs/cgroup/hosa";
      containment_fraction = lit 75 2;
      protection_high_frac = lit 50 2;
      protection_max_frac = lit 90 2;
    };
    thalamus = record { heartbeat_interval_s = pos 30 };
    survival = record {
      enabled = false;
      threshold_survival = lit 120 1;
      sched_ext_bpf_object = codes "";
      offender_cgroup_path = codes "/sys/fs/cgroup/hosa";
      vital_cgroup_path = codes "/sys/fs/cgroup/hosa/vital";
      cpu_weight_starve = pos 1;
      swappiness_offender = pos 200;
      swappiness_vital = pos 0;
      frag_entropy_threshold = lit 78 2;
      compaction_trough_cpu_pct = lit 10 2;
    };
    telemetry = record {
      metrics_addr = codes ":9090";
      webhook_url = codes "";
      webhook_dm_dot_threshold = lit 20 1;
    };
  }
