-- ===== src/Brain/Cortex/Candidate.antt =====
-- Steps 1 and 2 of `classify` in internal/brain/predictor.go, against what it reports.
use hosa.Prelude.{◌≤◌, ◌≡◌, true, ◌⊎◌, arith}
use hosa.Float.{Float, IsOrdered, ◌≤?◌}
use hosa.Brain.Cortex.{
  PredictorConfig, PredictiveCortex, default_config, or_default, base_level, candidate_level,
  classify,
}

module _ {F : Type 0} ⦃fl : Float F⦄ where
  base_level-le : (cfg : PredictorConfig F) (dm : F) → base_level cfg dm ≤ 4
  unfolding base_level
  base_level-le cfg dm = ground arith

  pub candidate_level-le :
      (cfg : PredictorConfig F) (dm dm_dot : F) → candidate_level cfg dm dm_dot ≤ 4
  unfolding candidate_level
  candidate_level-le cfg dm dm_dot = ground arith

  -- Every reported level is at least the level that the reading asks for, and is that level or the
  -- level held before: a reading is never answered with less than it asks for.
  pub classify-ge-candidate :
      (pc : PredictiveCortex F) (dm dm_dot : F)
      → let level = (classify pc dm dm_dot).current_level in
        let candidate = candidate_level pc.config dm dm_dot in
        (candidate ≤ level) × ((level ≡ candidate) ⊎ (level ≡ pc.current_level))
  unfolding classify
  classify-ge-candidate pc dm dm_dot = ground arith

module _ {F : Type 0} ⦃fl : Float F⦄ (o : IsOrdered F) where
  open o use {le_trans, lt_of_lt_of_le}

  reached : (th : F) {x y : F} → (x ≤? y) ≡ true → (th ≤? x) ≡ true → (th ≤? y) ≡ true
  reached th {x} {y} h t = le_trans th x y t h

  pub base_level_mono :
      (cfg : PredictorConfig F) (x y : F) → (x ≤? y) ≡ true → base_level cfg x ≤ base_level cfg y
  unfolding base_level
  base_level_mono cfg x y h = ground (
    arith,
    reached (or_default cfg.threshold_survival default_config.threshold_survival) h,
    reached (or_default cfg.threshold_protection default_config.threshold_protection) h,
    reached (or_default cfg.threshold_containment default_config.threshold_containment) h,
    reached (or_default cfg.threshold_vigilance default_config.threshold_vigilance) h,
  )

  -- A larger distance and a faster growth never ask for a lower level, whatever the thresholds.
  pub candidate_level_mono :
      (cfg : PredictorConfig F) (dm dm' dot dot' : F)
      → (dm ≤? dm') ≡ true
      → (dot ≤? dot') ≡ true
      → candidate_level cfg dm dot ≤ candidate_level cfg dm' dot'
  unfolding candidate_level
  candidate_level_mono cfg dm dm' dot dot' h k = ground (
    arith,
    base_level_mono cfg dm dm' h,
    base_level-le cfg dm,
    base_level-le cfg dm',
    lt_of_lt_of_le
        (or_default cfg.threshold_derivative_escalate default_config.threshold_derivative_escalate)
        dot dot',
  )
