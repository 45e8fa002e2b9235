-- ===== src/Config/Summary.antt =====
-- internal/config/config.go: `Summary`, the line that is logged at boot. The text of a float64 with a
-- number of decimals, `%.1f` and `%.2f` of package fmt, is an argument.
use hosa.Prelude.{ℕ, Bytes, codes, is_empty, ◌++◌, if◌then◌else◌}
use hosa.Strings.{format_int}
use hosa.Config.{Config}

module _ {F : Type 0} (decimals : ℕ → F → Bytes) where
  abbrev phase2_text : Config F → Bytes
  phase2_text cfg =
      if cfg.survival.enabled
      then codes "enabled(th="
        ++ decimals 1 cfg.survival.threshold_survival
        ++ codes " h_frag="
        ++ decimals 2 cfg.survival.frag_entropy_threshold
        ++ codes ")"
      else codes "disabled"

  abbrev metrics_text : Config F → Bytes
  metrics_text cfg =
      if is_empty cfg.telemetry.metrics_addr then codes "disabled" else cfg.telemetry.metrics_addr

  abbrev webhook_text : Config F → Bytes
  webhook_text cfg =
      if is_empty cfg.telemetry.webhook_url then codes "disabled" else codes "enabled"

  unfoldable pub summary : Config F → Bytes
  unfolding format_int
  summary cfg =
      codes "thresholds=["
      ++ decimals 1 cfg.detection.threshold_vigilance
      ++ codes "/"
      ++ decimals 1 cfg.detection.threshold_containment
      ++ codes "/"
      ++ decimals 1 cfg.detection.threshold_protection
      ++ codes "/"
      ++ decimals 1 cfg.survival.threshold_survival
      ++ codes "] alpha="
      ++ decimals 2 cfg.detection.alpha_ewma
      ++ codes " min_samples="
      ++ format_int cfg.detection.min_samples
      ++ codes " normal="
      ++ format_int cfg.sampling.normal_interval_ms
      ++ codes "ms vigilance="
      ++ format_int cfg.sampling.vigilance_interval_ms
      ++ codes "ms heartbeat="
      ++ format_int cfg.thalamus.heartbeat_interval_s
      ++ codes "s phase2="
      ++ phase2_text cfg
      ++ codes " metrics="
      ++ metrics_text cfg
      ++ codes " webhook="
      ++ webhook_text cfg
