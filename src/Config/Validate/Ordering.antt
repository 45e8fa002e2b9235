-- ===== src/Config/Validate/Ordering.antt =====
-- What `Validate` of internal/config/config.go accepts.
use hosa.Prelude.{◌≡◌, ◌↔◌, true, false, none, arith}
use hosa.Prelude.Int.{pos, ◌≤ℤ◌, ◌<ℤ◌}
use hosa.Float.{Float, IsOrdered, IsNumber, ◌<?◌, ◌≤?◌, nought}
use hosa.Config.{Config}
use hosa.Config.Validate.{validate}

module _ {F : Type 0} ⦃fl : Float F⦄ where
  -- The floats that `Validate` looks at are numbers, not NaN.
  pub record HasNumbers (cfg : Config F) : Type 0 where
    pub zero : IsNumber {F = F} nought
    pub one : IsNumber (fl.of_ℕ 1)
    pub vigilance : IsNumber cfg.detection.threshold_vigilance
    pub containment : IsNumber cfg.detection.threshold_containment
    pub protection : IsNumber cfg.detection.threshold_protection
    pub alpha : IsNumber cfg.detection.alpha_ewma
    pub fraction : IsNumber cfg.motor.containment_fraction
    pub high : IsNumber cfg.motor.protection_high_frac
    pub survival : IsNumber cfg.survival.threshold_survival
    pub entropy : IsNumber cfg.survival.frag_entropy_threshold

  -- The thresholds ascend from above 0, the factor and the fractions lie in their ranges, the
  -- intervals are positive and vigilance samples at least as often.
  pub record IsConsistent (cfg : Config F) : Type 0 where
    pub vigilance_pos : (nought <? cfg.detection.threshold_vigilance) ≡ true
    pub containment_above :
        (cfg.detection.threshold_vigilance <? cfg.detection.threshold_containment) ≡ true
    pub protection_above :
        (cfg.detection.threshold_containment <? cfg.detection.threshold_protection) ≡ true
    pub alpha_pos : (nought <? cfg.detection.alpha_ewma) ≡ true
    pub alpha_le : (cfg.detection.alpha_ewma ≤? fl.of_ℕ 1) ≡ true
    pub enough_samples : pos 2 ≤ℤ cfg.detection.min_samples
    pub vigilance_interval_pos : pos 0 <ℤ cfg.sampling.vigilance_interval_ms
    pub faster : cfg.sampling.vigilance_interval_ms ≤ℤ cfg.sampling.normal_interval_ms
    pub fraction_pos : (nought <? cfg.motor.containment_fraction) ≡ true
    pub fraction_lt : (cfg.motor.containment_fraction <? fl.of_ℕ 1) ≡ true
    pub high_lt : (cfg.motor.protection_high_frac <? cfg.motor.containment_fraction) ≡ true
    pub survival_above :
        cfg.survival.enabled ≡ true
        → (cfg.detection.threshold_protection <? cfg.survival.threshold_survival) ≡ true
    pub entropy_pos :
        cfg.survival.enabled ≡ true → (nought <? cfg.survival.frag_entropy_threshold) ≡ true
    pub entropy_le :
        cfg.survival.enabled ≡ true → (cfg.survival.frag_entropy_threshold ≤? fl.of_ℕ 1) ≡ true
    pub weight_low : cfg.survival.enabled ≡ true → pos 1 ≤ℤ cfg.survival.cpu_weight_starve
    pub weight_high : cfg.survival.enabled ≡ true → cfg.survival.cpu_weight_starve ≤ℤ pos 10000

module _ {F : Type 0} ⦃fl : Float F⦄ (o : IsOrdered F) where
  open o use {numbers_of_le, le_of_lt, lt-eq-not-le}

  -- Where no NaN is involved, `Validate` accepts exactly the consistent configurations.
  pub validate_iff : (cfg : Config F) → HasNumbers cfg → (validate cfg ≡ none) ↔ IsConsistent cfg
  unfolding validate
  validate_iff cfg n =
      let d = cfg.detection in
      let one = fl.of_ℕ 1 in
      let l1 = lt-eq-not-le nought d.threshold_vigilance n.zero n.vigilance in
      let l2 =
        lt-eq-not-le d.threshold_vigilance d.threshold_containment n.vigilance n.containment in
      let l3 =
        lt-eq-not-le d.threshold_containment d.threshold_protection n.containment n.protection in
      let l4 = lt-eq-not-le nought d.alpha_ewma n.zero n.alpha in
      let l5 = lt-eq-not-le one d.alpha_ewma n.one n.alpha in
      let l6 = lt-eq-not-le nought cfg.motor.containment_fraction n.zero n.fraction in
      let l7 = lt-eq-not-le cfg.motor.containment_fraction one n.fraction n.one in
      let l8 =
        lt-eq-not-le cfg.motor.protection_high_frac cfg.motor.containment_fraction n.high
          n.fraction in
      let l9 =
        lt-eq-not-le d.threshold_protection cfg.survival.threshold_survival n.protection
          n.survival in
      let l10 = lt-eq-not-le nought cfg.survival.frag_entropy_threshold n.zero n.entropy in
      let l11 = lt-eq-not-le one cfg.survival.frag_entropy_threshold n.one n.entropy in
      (
        ground (arith, l1, l2, l3, l4, l5, l6, l7, l8, l9, l10, l11),
        ground (arith, l1, l2, l3, l4, l5, l6, l7, l8, l9, l10, l11),
      )

  not_le_of_lt : (x y : F) → (x <? y) ≡ true → (y ≤? x) ≡ false
  not_le_of_lt x y h =
      let (nx, ny) = numbers_of_le x y (le_of_lt x y h) in ground (arith, lt-eq-not-le x y nx ny)

  not_lt_of_le : (x y : F) → (x ≤? y) ≡ true → (y <? x) ≡ false
  not_lt_of_le x y h = let (nx, ny) = numbers_of_le x y h in ground (arith, lt-eq-not-le y x ny nx)

  le_nan : (x nan : F) → (nan ≤? nan) ≡ false → (x ≤? nan) ≡ false
  le_nan x nan h = ground (arith, numbers_of_le x nan)

  nan_le : (nan x : F) → (nan ≤? nan) ≡ false → (nan ≤? x) ≡ false
  nan_le nan x h = ground (arith, numbers_of_le nan x)

  -- A threshold of vigilance that is NaN passes the checks: a consistent configuration with NaN put
  -- in that place is accepted, though no distance reaches such a threshold.
  pub validate-nan :
      (cfg : Config F) (nan : F)
      → IsConsistent cfg
      → (nan ≤? nan) ≡ false
      → (validate (record cfg { detection = record (cfg.detection) { threshold_vigilance = nan } })
          ≡ none)
        × ((dm : F) → (nan ≤? dm) ≡ false)
  unfolding validate
  validate-nan cfg nan c h =
      let d = cfg.detection in
      let m = cfg.motor in
      let sv = cfg.survival in
      let zero : F = nought in
      (
        ground (
          arith,
          nan_le nan zero h,
          le_nan d.threshold_containment nan h,
          not_le_of_lt d.threshold_containment d.threshold_protection c.protection_above,
          not_le_of_lt zero d.alpha_ewma c.alpha_pos,
          not_lt_of_le d.alpha_ewma (fl.of_ℕ 1) c.alpha_le,
          not_le_of_lt zero m.containment_fraction c.fraction_pos,
          not_le_of_lt m.containment_fraction (fl.of_ℕ 1) c.fraction_lt,
          not_le_of_lt m.protection_high_frac m.containment_fraction c.high_lt,
          not_le_of_lt d.threshold_protection sv.threshold_survival,
          not_le_of_lt zero sv.frag_entropy_threshold,
          not_lt_of_le sv.frag_entropy_threshold (fl.of_ℕ 1),
        ),
        λ dm. nan_le nan dm h,
      )
