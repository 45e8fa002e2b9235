-- ===== src/Brain/Cortex.antt =====
-- internal/brain/predictor.go: the predictive cortex. The shared ring buffer is an argument of
-- `analyze`, and so is the clock, in nanoseconds of Go's monotonic time.
pub mod Candidate
pub mod Hysteresis
pub mod Recovery
pub mod Safety
use hosa.Prelude.{
  ℕ, zero, suc, ◌+◌, ◌-◌, ◌/◌, ◌%◌, ◌^◌, Bool, true, false, ◌&&◌, ◌||◌, not, Option, none, some,
  List, [], ◌∷◌, ltb, leb, ◌==◌, if◌then◌else◌, replicate,
}
use hosa.Prelude.Int.{ℤ, pos, leb_ℤ}
use hosa.Float.{Float, ◌<?◌, ◌≤?◌, ◌⊕◌, ◌⊖◌, ◌⊗◌, ◌⊘◌, lit, nought}
use hosa.Outcome.{GoError, Outcome, ok, err, panic, ◌>>=◌, for_range}
use hosa.Linalg.{Matrix, new_matrix, get, put, index, assign}
use hosa.Linalg.Inverse.{inverse}
use hosa.State.{RingBuffer, is_ready, snapshot}
use hosa.Brain.Level.{AlertLevel, homeostasis, vigilance, containment, protection, survival}
use hosa.Brain.Welford
use hosa.Brain.Welford.{WelfordState, new_welford_state, mean_matrix, covariance, welford_ready}
use hosa.Brain.Mahalanobis.{HomeostasisModel, calculate_stress}

pub record PredictorConfig (F : Type 0) : Type 0 where
  pub min_samples : ℤ
  pub alpha : F
  pub threshold_vigilance : F
  pub threshold_containment : F
  pub threshold_protection : F
  pub threshold_survival : F
  pub threshold_derivative_escalate : F
  pub threshold_derivative_relax : F
  pub hysteresis_down : ℤ

pub record StressReading (F : Type 0) : Type 0 where
  pub dm : F
  pub dm_dot : F
  pub level : AlertLevel
  pub timestamp : ℕ

pub record PredictiveCortex (F : Type 0) : Type 0 where
  pub config : PredictorConfig F
  pub welford : WelfordState F
  pub ewma_value : F
  pub ewma_ready : Bool
  pub prev : Option (StressReading F)
  pub current_level : AlertLevel
  pub below_count : ℕ

-- What `Analyze` returns.
pub record Analysis (F : Type 0) : Type 0 where
  pub stress : F
  pub dm_dot : F
  pub level : AlertLevel
  pub error : Option GoError

module _ {F : Type 0} ⦃fl : Float F⦄ where
  abbrev pub default_config : PredictorConfig F
  default_config = record {
    min_samples = pos 30;
    alpha = lit 2 1;
    threshold_vigilance = lit 35 1;
    threshold_containment = lit 55 1;
    threshold_protection = lit 80 1;
    threshold_survival = lit 120 1;
    threshold_derivative_escalate = lit 20 1;
    threshold_derivative_relax = lit 5 1;
    hysteresis_down = pos 5;
  }

  unfoldable pub new_predictive_cortex : RingBuffer F → PredictorConfig F → PredictiveCortex F
  unfolding new_welford_state
  new_predictive_cortex buf cfg =
      let alpha =
        if cfg.alpha ≤? nought || fl.of_ℕ 1 <? cfg.alpha then default_config.alpha else cfg.alpha in
      let vars = if buf.vars == 0 then 1 else buf.vars in
      record {
        config = record cfg { alpha = alpha };
        welford = new_welford_state vars;
        ewma_value = nought;
        ewma_ready = false;
        prev = none;
        current_level = homeostasis;
        below_count = 0;
      }

  -- A threshold of the configuration, or the constant of the package if it is not positive.
  abbrev pub or_default : F → F → F
  or_default x d = if x ≤? nought then d else x

  abbrev pub hysteresis : PredictorConfig F → ℤ
  hysteresis cfg = if leb_ℤ cfg.hysteresis_down (pos 0) then pos 5 else cfg.hysteresis_down

  abbrev pub relax : PredictorConfig F → F
  relax cfg = or_default cfg.threshold_derivative_relax default_config.threshold_derivative_relax

  -- Step 1 of `classify`: the level by the magnitude of the distance.
  unfoldable pub base_level : PredictorConfig F → F → AlertLevel
  base_level cfg dm =
      if or_default cfg.threshold_survival default_config.threshold_survival ≤? dm
      then survival
      else if or_default cfg.threshold_protection default_config.threshold_protection ≤? dm
      then protection
      else if or_default cfg.threshold_containment default_config.threshold_containment ≤? dm
      then containment
      else if or_default cfg.threshold_vigilance default_config.threshold_vigilance ≤? dm
      then vigilance
      else homeostasis

  -- Step 2: one level more while the distance grows fast.
  unfoldable pub candidate_level : PredictorConfig F → F → F → AlertLevel
  unfolding base_level
  candidate_level cfg dm dm_dot =
      let base = base_level cfg dm in
      let escalate =
        or_default cfg.threshold_derivative_escalate default_config.threshold_derivative_escalate in
      if escalate <? dm_dot && ltb base survival then base + 1 else base

  -- Step 3: the level falls only when the count of calm cycles has reached the hysteresis. The
  -- result is the new cortex, whose `current_level` is the value that `classify` returns.
  unfoldable pub settle : PredictiveCortex F → AlertLevel → F → PredictiveCortex F
  settle pc candidate dm_dot =
      if ltb candidate pc.current_level
      then (let below = if dm_dot <? relax pc.config then pc.below_count + 1 else 0 in
          if leb_ℤ (hysteresis pc.config) (pos below)
          then record pc { below_count = 0; current_level = candidate }
          else record pc { below_count = below })
      else record pc { below_count = 0; current_level = candidate }

  unfoldable pub classify : PredictiveCortex F → F → F → PredictiveCortex F
  unfolding candidate_level settle
  classify pc dm dm_dot = settle pc (candidate_level pc.config dm dm_dot) dm_dot

  -- `classifyByMagnitude`, over the constants of the package.
  unfoldable pub classify_by_magnitude : F → AlertLevel
  classify_by_magnitude dm =
      if lit 120 1 ≤? dm
      then survival
      else if lit 80 1 ≤? dm
      then protection
      else if lit 55 1 ≤? dm
      then containment
      else if lit 35 1 ≤? dm
      then vigilance
      else homeostasis

  -- `Duration.Seconds`, of a time that is not negative.
  abbrev pub seconds : ℕ → F
  seconds d = fl.of_ℕ (d / 10 ^ 9) ⊕ fl.of_ℕ (d % 10 ^ 9) ⊘ fl.of_ℕ (10 ^ 9)

  unfoldable pub calc_derivative : Option (StressReading F) → F → ℕ → F
  calc_derivative none dm now = nought
  calc_derivative (some prev) dm now =
      let dt = seconds (now - prev.timestamp) in
      if dt ≤? nought then nought else (dm ⊖ prev.dm) ⊘ dt

  unfoldable pub smooth : PredictiveCortex F → F → F
  smooth pc dm =
      if not pc.ewma_ready
      then dm
      else pc.config.alpha ⊗ dm ⊕ (fl.of_ℕ 1 ⊖ pc.config.alpha) ⊗ pc.ewma_value

  -- The end of `Analyze`, once the distance is known.
  unfoldable pub respond : PredictiveCortex F → F → ℕ → PredictiveCortex F × Analysis F
  unfolding classify calc_derivative smooth
  respond pc dm now =
      let smoothed = smooth pc dm in
      let dm_dot = calc_derivative pc.prev smoothed now in
      let pc' = classify (record pc { ewma_value = smoothed; ewma_ready = true }) smoothed dm_dot in
      let level = pc'.current_level in
      (
        record pc' {
          prev = some (record { dm = smoothed; dm_dot = dm_dot; level = level; timestamp = now });
        },
        record { stress = smoothed; dm_dot = dm_dot; level = level; error = none },
      )

  -- The early returns of `Analyze`: nothing is measured.
  abbrev pub quiet : Option GoError → Analysis F
  quiet e = record { stress = nought; dm_dot = nought; level = homeostasis; error = e }

-- `x, err := m; if err != nil { … }`.
abbrev pub attempt {ℓ κ} :
    {A : Type ℓ} {B : Type κ} → Outcome A → (GoError → Outcome B) → (A → Outcome B) → Outcome B
attempt (ok a) handle k = k a
attempt (err e) handle k = handle e
attempt panic handle k = panic

module _ {F : Type 0} ⦃fl : Float F⦄ where
  -- The middle of `Analyze`, from the wait for enough samples.
  unfoldable pub assess :
      PredictiveCortex F → ℕ → List F → ℕ → Outcome (PredictiveCortex F × Analysis F)
  unfolding respond
  assess pc cols reading now =
      if not (welford_ready pc.welford pc.config.min_samples) then ok (pc, quiet none) else do
        mean ← mean_matrix pc.welford
        attempt (covariance pc.welford) (λ e. ok (pc, quiet (some e)))
            (λ cov.
              attempt (inverse cov) (λ e. ok (pc, quiet none))
                (λ inv_cov. do
                  current ←
                      for_range cols (λ j m. do x ← index reading j; put m j 0 x)
                        (new_matrix cols 1)
                  attempt
                      (calculate_stress
                        (record { mean_vector = mean; inverse_covariance = inv_cov }) current)
                      (λ e. ok (pc, quiet (some e))) (λ dm. ok (respond pc dm now))))

  unfoldable pub last_row : Matrix F → Outcome (List F)
  last_row snap =
      for_range snap.cols (λ j reading. do x ← get snap (snap.rows - 1) j; assign reading j x)
        (replicate snap.cols nought)

  unfoldable pub analyze :
      PredictiveCortex F → RingBuffer F → ℕ → Outcome (PredictiveCortex F × Analysis F)
  unfolding assess last_row
  analyze pc buf now = if not (is_ready buf) then ok (pc, quiet none) else do
    snap ← snapshot buf
    if ltb snap.rows 2 then ok (pc, quiet none) else do
      reading ← last_row snap
      attempt (Welford.update pc.welford reading) (λ e. ok (pc, quiet (some e)))
          (λ w. assess (record pc { welford = w }) snap.cols reading now)
