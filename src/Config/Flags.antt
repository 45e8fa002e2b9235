-- ===== src/Config/Flags.antt =====
-- `LoadWithFlags` of internal/config/config.go: the flags of the command line over the file. The
-- flags that were given are a list, in the order in which `flag.Visit` takes them; `--config` is the
-- choice of the file.
pub mod Precedence
use hosa.Prelude.{ℕ, Bool, Bytes, List, [], ◌∷◌, ◌==◌, if◌then◌else◌}
use hosa.Prelude.Int.{ℤ}
use hosa.Float.{Float}
use hosa.Config.{Config}
use hosa.Config.Load.{ConfigFile, Loaded, config, load_error, load}

-- A flag that was given, with its value.
pub data Flag (F : Type 0) : Type 0 where
  threshold_vigilance_flag : F → Flag F
  threshold_containment_flag : F → Flag F
  threshold_protection_flag : F → Flag F
  alpha_flag : F → Flag F
  min_samples_flag : ℤ → Flag F
  hysteresis_flag : ℤ → Flag F
  normal_interval_ms_flag : ℤ → Flag F
  vigilance_interval_ms_flag : ℤ → Flag F
  cgroup_path_flag : Bytes → Flag F
  heartbeat_interval_s_flag : ℤ → Flag F
  survival_enabled_flag : Bool → Flag F
  threshold_survival_flag : F → Flag F
  frag_entropy_threshold_flag : F → Flag F
  metrics_addr_flag : Bytes → Flag F
  webhook_url_flag : Bytes → Flag F

module _ {F : Type 0} where
  -- The function that `flag.Visit` calls.
  unfoldable pub apply_flag : Flag F → Config F → Config F
  apply_flag (threshold_vigilance_flag v) c = record c {
    detection = record (c.detection) { threshold_vigilance = v };
  }
  apply_flag (threshold_containment_flag v) c = record c {
    detection = record (c.detection) { threshold_containment = v };
  }
  apply_flag (threshold_protection_flag v) c = record c {
    detection = record (c.detection) { threshold_protection = v };
  }
  apply_flag (alpha_flag v) c = record c { detection = record (c.detection) { alpha_ewma = v } }
  apply_flag (min_samples_flag v) c = record c {
    detection = record (c.detection) { min_samples = v };
  }
  apply_flag (hysteresis_flag v) c = record c {
    detection = record (c.detection) { hysteresis_down = v };
  }
  apply_flag (normal_interval_ms_flag v) c = record c {
    sampling = record (c.sampling) { normal_interval_ms = v };
  }
  apply_flag (vigilance_interval_ms_flag v) c = record c {
    sampling = record (c.sampling) { vigilance_interval_ms = v };
  }
  apply_flag (cgroup_path_flag v) c = record c { motor = record (c.motor) { cgroup_path = v } }
  apply_flag (heartbeat_interval_s_flag v) c = record c {
    thalamus = record (c.thalamus) { heartbeat_interval_s = v };
  }
  apply_flag (survival_enabled_flag v) c = record c {
    survival = record (c.survival) { enabled = v };
  }
  apply_flag (threshold_survival_flag v) c = record c {
    survival = record (c.survival) { threshold_survival = v };
  }
  apply_flag (frag_entropy_threshold_flag v) c = record c {
    survival = record (c.survival) { frag_entropy_threshold = v };
  }
  apply_flag (metrics_addr_flag v) c = record c {
    telemetry = record (c.telemetry) { metrics_addr = v };
  }
  apply_flag (webhook_url_flag v) c = record c {
    telemetry = record (c.telemetry) { webhook_url = v };
  }

  unfoldable pub apply_flags : List (Flag F) → Config F → Config F
  apply_flags [] c = c
  apply_flags (f ∷ fs) c = apply_flags fs (apply_flag f c)

  abbrev pub with_flags : List (Flag F) → Loaded F → Loaded F
  unfolding apply_flags
  with_flags fs (config c) = config (apply_flags fs c)
  with_flags fs (load_error e) = load_error e

module _ {F : Type 0} ⦃fl : Float F⦄ where
  unfoldable pub load_with_flags : ConfigFile → List (Flag F) → Loaded F
  unfolding with_flags
  load_with_flags file fs = with_flags fs (load file)
