-- ===== src/Config/Load.antt =====
-- `Load` of internal/config/config.go: the file over the defaults.
use hosa.Prelude.{Bytes, codes}
use hosa.Float.{Float}
use hosa.Config.{Config, default}
use hosa.Config.Toml.{
  Table, TomlError, Parsed, table, toml_error, get_string, get_float, get_int, get_bool,
  parse_toml_bytes,
}

-- What `os.Stat` and `os.ReadFile` find at the path.
pub data ConfigFile : Type 0 where
  missing unreadable : ConfigFile
  text : Bytes → ConfigFile

pub data LoadError : Type 0 where
  cannot_read : LoadError
  cannot_parse : TomlError → LoadError

pub data Loaded (F : Type 0) : Type 0 where
  config : Config F → Loaded F
  load_error : LoadError → Loaded F

module _ {F : Type 0} ⦃fl : Float F⦄ where
  -- Each key of the table overrides its field.
  unfoldable pub merge : Config F → Table → Config F
  unfolding get_string get_float get_int get_bool
  merge c t = record {
    detection = record {
      threshold_vigilance =
          get_float t (codes "detection.threshold_vigilance") c.detection.threshold_vigilance;
      threshold_containment =
          get_float t (codes "detection.threshold_containment") c.detection.threshold_containment;
      threshold_protection =
          get_float t (codes "detection.threshold_protection") c.detection.threshold_protection;
      alpha_ewma = get_float t (codes "detection.alpha_ewma") c.detection.alpha_ewma;
      min_samples = get_int t (codes "detection.min_samples") c.detection.min_samples;
      threshold_derivative_escalate =
          get_float t (codes "detection.threshold_derivative_escalate")
            c.detection.threshold_derivative_escalate;
      threshold_derivative_relax =
          get_float t (codes "detection.threshold_derivative_relax")
            c.detection.threshold_derivative_relax;
      hysteresis_down = get_int t (codes "detection.hysteresis_down") c.detection.hysteresis_down;
      alpha_per_probe = record {
        cpu_run_queue =
            get_float t (codes "detection.alpha_per_probe.cpu_run_queue")
              c.detection.alpha_per_probe.cpu_run_queue;
        mem_brk_calls =
            get_float t (codes "detection.alpha_per_probe.mem_brk_calls")
              c.detection.alpha_per_probe.mem_brk_calls;
        mem_page_faults =
            get_float t (codes "detection.alpha_per_probe.mem_page_faults")
              c.detection.alpha_per_probe.mem_page_faults;
        io_block_ops =
            get_float t (codes "detection.alpha_per_probe.io_block_ops")
              c.detection.alpha_per_probe.io_block_ops;
      };
    };
    sampling = record {
      normal_interval_ms =
          get_int t (codes "sampling.normal_interval_ms") c.sampling.normal_interval_ms;
      vigilance_interval_ms =
          get_int t (codes "sampling.vigilance_interval_ms") c.sampling.vigilance_interval_ms;
    };
    motor = record {
      cgroup_path = get_string t (codes "motor.cgroup_path") c.motor.cgroup_path;
      containment_fraction =
          get_float t (codes "motor.containment_fraction") c.motor.containment_fraction;
      protection_high_frac =
          get_float t (codes "motor.protection_high_frac") c.motor.protection_high_frac;
      protection_max_frac =
          get_float t (codes "motor.protection_max_frac") c.motor.protection_max_frac;
    };
    thalamus = record {
      heartbeat_interval_s =
          get_int t (codes "thalamus.heartbeat_interval_s") c.thalamus.heartbeat_interval_s;
    };
    survival = record {
      enabled = get_bool t (codes "survival.enabled") c.survival.enabled;
      threshold_survival =
          get_float t (codes "survival.threshold_survival") c.survival.threshold_survival;
      sched_ext_bpf_object =
          get_string t (codes "survival.sched_ext_bpf_object") c.survival.sched_ext_bpf_object;
      offender_cgroup_path =
          get_string t (codes "survival.offender_cgroup_path") c.survival.offender_cgroup_path;
      vital_cgroup_path =
          get_string t (codes "survival.vital_cgroup_path") c.survival.vital_cgroup_path;
      cpu_weight_starve =
          get_int t (codes "survival.cpu_weight_starve") c.survival.cpu_weight_starve;
      swappiness_offender =
          get_int t (codes "survival.swappiness_offender") c.survival.swappiness_offender;
      swappiness_vital = get_int t (codes "survival.swappiness_vital") c.survival.swappiness_vital;
      frag_entropy_threshold =
          get_float t (codes "survival.frag_entropy_threshold") c.survival.frag_entropy_threshold;
      compaction_trough_cpu_pct =
          get_float t (codes "survival.compaction_trough_cpu_pct")
            c.survival.compaction_trough_cpu_pct;
    };
    telemetry = record {
      metrics_addr = get_string t (codes "telemetry.metrics_addr") c.telemetry.metrics_addr;
      webhook_url = get_string t (codes "telemetry.webhook_url") c.telemetry.webhook_url;
      webhook_dm_dot_threshold =
          get_float t (codes "telemetry.webhook_dm_dot_threshold")
            c.telemetry.webhook_dm_dot_threshold;
    };
  }

  abbrev pub merged : Parsed → Loaded F
  unfolding merge default
  merged (table t) = config (merge default t)
  merged (toml_error e) = load_error (cannot_parse e)

  unfoldable pub load : ConfigFile → Loaded F
  unfolding merged default
  load missing = config default
  load unreadable = load_error cannot_read
  load (text s) = merged (parse_toml_bytes s)
