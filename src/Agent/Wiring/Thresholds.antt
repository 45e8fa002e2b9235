-- ===== src/Agent/Wiring/Thresholds.antt =====
-- The thresholds that the running cortex applies, against those of the configuration.
use hosa.Prelude.{◌≡◌, true, none, arith, if◌then◌else◌, refl}
use hosa.Float.{Float, IsOrdered, IsNumber, ◌<?◌, ◌≤?◌, nought, lit}
use hosa.Brain.Level.{survival, protection, containment, vigilance, homeostasis}
use hosa.Brain.Cortex.{base_level, candidate_level, or_default}
use hosa.Config.{Config, SurvivalConfig}
use hosa.Config.Validate.{validate}
use hosa.Config.Validate.Ordering.{HasNumbers, validate_iff}
use hosa.Agent.Wiring.{predictor_config}

module _ {F : Type 0} ⦃fl : Float F⦄ where
  -- The whole survival section of the configuration, its threshold included, does not change the
  -- level that any reading asks for: `main` does not pass that threshold on.
  pub predictor_config-survival :
      (cfg : Config F) (sv : SurvivalConfig F) (dm dm_dot : F)
      → candidate_level (predictor_config (record cfg { survival = sv })) dm dm_dot
        ≡ candidate_level (predictor_config cfg) dm dm_dot
  unfolding predictor_config
  predictor_config-survival cfg sv dm dm_dot = refl

module _ {F : Type 0} ⦃fl : Float F⦄ (o : IsOrdered F) where
  open o use {le_trans, le_of_lt, lt_of_lt_of_le, lt-eq-not-le, numbers_of_le}

  keeps : (x d : F) → (nought <? x) ≡ true → or_default x d ≡ x
  keeps x d h =
      let (nz, nx) = numbers_of_le nought x (le_of_lt nought x h) in
      ground (arith, lt-eq-not-le nought x nz nx)

  zero_default : (d : F) → IsNumber {F = F} nought → or_default nought d ≡ d
  zero_default d n = ground arith

  -- With an accepted configuration without NaN, the cortex that `main` builds maps a distance to a
  -- level by the configured thresholds of vigilance, containment and protection, and by the
  -- constant 12.0 for survival.
  pub base_level-validated :
      (cfg : Config F) (dm : F)
      → HasNumbers cfg
      → validate cfg ≡ none
      → base_level (predictor_config cfg) dm ≡ (
          if lit 120 1 ≤? dm
          then survival
          else if cfg.detection.threshold_protection ≤? dm
          then protection
          else if cfg.detection.threshold_containment ≤? dm
          then containment
          else if cfg.detection.threshold_vigilance ≤? dm
          then vigilance
          else homeostasis)
  unfolding base_level predictor_config
  base_level-validated cfg dm n v =
      let c = (validate_iff o cfg n).0 v in
      let d = cfg.detection in
      let pos_containment =
        lt_of_lt_of_le nought d.threshold_vigilance d.threshold_containment c.vigilance_pos
          (le_of_lt d.threshold_vigilance d.threshold_containment c.containment_above) in
      let pos_protection =
        lt_of_lt_of_le nought d.threshold_containment d.threshold_protection pos_containment
          (le_of_lt d.threshold_containment d.threshold_protection c.protection_above) in
      rw (
        zero_default (lit 120 1) n.zero,
        keeps d.threshold_vigilance (lit 35 1) c.vigilance_pos,
        keeps d.threshold_containment (lit 55 1) pos_containment,
        keeps d.threshold_protection (lit 80 1) pos_protection,
      )
