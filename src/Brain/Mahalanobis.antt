-- ===== src/Brain/Mahalanobis.antt =====
-- internal/brain/mahalanobis.go: the distance of a reading from the homeostasis model.
use hosa.Prelude.{if◌then◌else◌}
use hosa.Float.{Float, ◌<?◌, nought}
use hosa.Outcome.{Outcome, ok, err, panic, ◌>>=◌, stress_dimensions}
use hosa.Linalg.{Matrix, get, sub, mul, transpose}

pub record HomeostasisModel (F : Type 0) : Type 0 where
  pub mean_vector : Matrix F
  pub inverse_covariance : Matrix F

module _ {F : Type 0} ⦃fl : Float F⦄ where
  -- The error of `Sub` is replaced by another one.
  unfoldable pub deviation : Outcome (Matrix F) → Outcome (Matrix F)
  deviation (ok diff) = ok diff
  deviation (err e) = err stress_dimensions
  deviation panic = panic

  unfoldable pub calculate_stress : HomeostasisModel F → Matrix F → Outcome F
  unfolding deviation
  calculate_stress h current = do
    diff ← deviation (sub current h.mean_vector)
    diff_t ← transpose diff
    step3 ← mul diff_t h.inverse_covariance
    step4 ← mul step3 diff
    stress_squared ← get step4 0 0
    let clamped = if stress_squared <? nought then nought else stress_squared
    ok (fl.sqrt clamped)
