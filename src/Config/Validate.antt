-- ===== src/Config/Validate.antt =====
-- `Validate` of internal/config/config.go.
pub mod Ordering
use hosa.Prelude.{Bool, true, false, ◌||◌, Option, none, some, if◌then◌else◌}
use hosa.Prelude.Int.{ℤ, pos, ltb_ℤ, leb_ℤ}
use hosa.Float.{Float, ◌<?◌, ◌≤?◌, nought}
use hosa.Config.{Config}

-- The errors, in the order of the checks.
pub data ConfigError : Type 0 where
  bad_threshold_vigilance bad_threshold_containment bad_threshold_protection : ConfigError
  bad_alpha bad_min_samples bad_normal_interval bad_vigilance_interval : ConfigError
  bad_containment_fraction bad_protection_high_frac : ConfigError
  bad_threshold_survival bad_frag_entropy_threshold bad_cpu_weight_starve : ConfigError

module _ {F : Type 0} ⦃fl : Float F⦄ where
  -- The checks of phase 2, which are made if it is enabled.
  unfoldable pub validate_survival : Config F → Option ConfigError
  validate_survival cfg =
      let sv = cfg.survival in
      if sv.threshold_survival ≤? cfg.detection.threshold_protection
      then some bad_threshold_survival
      else if sv.frag_entropy_threshold ≤? nought || fl.of_ℕ 1 <? sv.frag_entropy_threshold
      then some bad_frag_entropy_threshold
      else if ltb_ℤ sv.cpu_weight_starve (pos 1) || ltb_ℤ (pos 10000) sv.cpu_weight_starve
      then some bad_cpu_weight_starve
      else none

  unfoldable pub validate : Config F → Option ConfigError
  unfolding validate_survival
  validate cfg =
      let d = cfg.detection in
      let s = cfg.sampling in
      let m = cfg.motor in
      if d.threshold_vigilance ≤? nought
      then some bad_threshold_vigilance
      else if d.threshold_containment ≤? d.threshold_vigilance
      then some bad_threshold_containment
      else if d.threshold_protection ≤? d.threshold_containment
      then some bad_threshold_protection
      else if d.alpha_ewma ≤? nought || fl.of_ℕ 1 <? d.alpha_ewma
      then some bad_alpha
      else if ltb_ℤ d.min_samples (pos 2)
      then some bad_min_samples
      else if leb_ℤ s.normal_interval_ms (pos 0)
      then some bad_normal_interval
      else if leb_ℤ s.vigilance_interval_ms (pos 0)
          || ltb_ℤ s.normal_interval_ms s.vigilance_interval_ms
      then some bad_vigilance_interval
      else if m.containment_fraction ≤? nought || fl.of_ℕ 1 ≤? m.containment_fraction
      then some bad_containment_fraction
      else if m.containment_fraction ≤? m.protection_high_frac
      then some bad_protection_high_frac
      else if cfg.survival.enabled
      then validate_survival cfg
      else none
