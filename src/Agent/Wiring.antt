-- ===== src/Agent/Wiring.antt =====
-- The configuration that `main` hands to each part.
pub mod Thresholds
use hosa.Prelude.{ℕ, ◌-◌, ◌%◌, ◌^◌}
use hosa.Prelude.Int.{ℤ, pos, negsuc}
use hosa.Float.{Float, nought}
use hosa.Brain.Cortex.{PredictorConfig}
use hosa.Brain.Thalamus.{ThalamicConfig}
use hosa.Motor.Cgroups.{MotorConfig}
use hosa.Motor.Survival.{SurvivalConfig}
use hosa.Sensor.Fragmentation.{FragConfig}
use hosa.Config.{Config, heartbeat_interval}

-- The conversion `uint32(x)` of an `int`.
abbrev pub to_uint32 : ℤ → ℕ
to_uint32 (pos n) = n % 2 ^ 32
to_uint32 (negsuc n) = 2 ^ 32 - 1 - n % 2 ^ 32

module _ {F : Type 0} ⦃fl : Float F⦄ where
  -- The literal of `main` names no `ThresholdSurvival`, which is then 0.
  unfoldable pub predictor_config : Config F → PredictorConfig F
  predictor_config cfg = record {
    min_samples = cfg.detection.min_samples;
    alpha = cfg.detection.alpha_ewma;
    threshold_vigilance = cfg.detection.threshold_vigilance;
    threshold_containment = cfg.detection.threshold_containment;
    threshold_protection = cfg.detection.threshold_protection;
    threshold_survival = nought;
    threshold_derivative_escalate = cfg.detection.threshold_derivative_escalate;
    threshold_derivative_relax = cfg.detection.threshold_derivative_relax;
    hysteresis_down = cfg.detection.hysteresis_down;
  }

module _ {F : Type 0} where
  unfoldable pub thalamic_config : Config F → ThalamicConfig
  unfolding heartbeat_interval
  thalamic_config cfg = record { heartbeat_interval = heartbeat_interval cfg.thalamus }

  unfoldable pub motor_config : Config F → MotorConfig F
  motor_config cfg = record {
    containment_fraction = cfg.motor.containment_fraction;
    protection_high_frac = cfg.motor.protection_high_frac;
    protection_max_frac = cfg.motor.protection_max_frac;
  }

  unfoldable pub survival_config : Config F → SurvivalConfig
  survival_config cfg = record {
    sched_ext_bpf_object = cfg.survival.sched_ext_bpf_object;
    offender_cgroup_path = cfg.survival.offender_cgroup_path;
    vital_cgroup_path = cfg.survival.vital_cgroup_path;
    cpu_weight_starve = to_uint32 cfg.survival.cpu_weight_starve;
    swappiness_offender = cfg.survival.swappiness_offender;
    swappiness_vital = cfg.survival.swappiness_vital;
  }

  unfoldable pub frag_config : Config F → FragConfig F
  frag_config cfg = record {
    threshold = cfg.survival.frag_entropy_threshold;
    cpu_trough_threshold = cfg.survival.compaction_trough_cpu_pct;
  }
