-- ===== src/Brain/Welford.antt =====
-- internal/brain/welford.go: the incremental mean and the sums of products.
pub mod Safety
pub mod Cells
pub mod Columns
pub mod Exact
pub mod Batch
pub mod Sums
use hosa.Prelude.{ℕ, ◌+◌, ◌-◌, ◌*◌, Bool, List, ltb, ◌==◌, if◌then◌else◌, length, replicate, not}
use hosa.Prelude.Int.{ℤ, pos, leb_ℤ}
use hosa.Float.{Float, ◌<?◌, ◌⊕◌, ◌⊖◌, ◌⊗◌, ◌⊘◌, nought}
use hosa.Outcome.{Outcome, ok, err, ◌>>=◌, for_range, for_cells, welford_size, welford_too_few}
use hosa.Linalg.{Matrix, new_matrix, put, index, assign}

pub record WelfordState (F : Type 0) : Type 0 where
  pub n : ℕ
  pub p : ℕ
  pub mean : List F
  pub m2 : List F

module _ {F : Type 0} ⦃fl : Float F⦄ where
  unfoldable pub new_welford_state : ℕ → WelfordState F
  new_welford_state p = record {
    n = 0;
    p = p;
    mean = replicate p nought;
    m2 = replicate (p * p) nought;
  }

  -- delta[j] = x[j] - mean[j]
  unfoldable pub deltas : ℕ → List F → List F → Outcome (List F)
  deltas p reading mean =
      for_range p (λ j d. do x ← index reading j; mu ← index mean j; assign d j (x ⊖ mu))
        (replicate p nought)

  unfoldable pub update_mean : ℕ → F → List F → List F → Outcome (List F)
  update_mean p n delta1 mean =
      for_range p (λ j mean. do mu ← index mean j; d ← index delta1 j; assign mean j (mu ⊕ d ⊘ n))
        mean

  unfoldable pub update_m2 : ℕ → List F → List F → List F → Outcome (List F)
  update_m2 p delta1 delta2 m2 =
      for_cells p p
        (λ i j m2. do
          old ← index m2 (i * p + j)
          d1 ← index delta1 i
          d2 ← index delta2 j
          assign m2 (i * p + j) (old ⊕ d1 ⊗ d2))
        m2

  unfoldable pub update : WelfordState F → List F → Outcome (WelfordState F)
  unfolding deltas update_mean update_m2
  update w reading = if not (length reading == w.p) then err welford_size else do
    let n = w.n + 1
    delta1 ← deltas w.p reading w.mean
    mean ← update_mean w.p (fl.of_ℕ n) delta1 w.mean
    delta2 ← deltas w.p reading mean
    m2 ← update_m2 w.p delta1 delta2 w.m2
    ok (record w { n = n; mean = mean; m2 = m2 })

  unfoldable pub mean_matrix : WelfordState F → Outcome (Matrix F)
  mean_matrix w = for_range w.p (λ j m. do x ← index w.mean j; put m j 0 x) (new_matrix w.p 1)

  unfoldable pub covariance : WelfordState F → Outcome (Matrix F)
  covariance w =
      if ltb w.n 2
      then err welford_too_few
      else for_cells w.p w.p
          (λ i j cov. do x ← index w.m2 (i * w.p + j); put cov i j (x ⊘ fl.of_ℕ (w.n - 1)))
          (new_matrix w.p w.p)

  unfoldable pub std_dev : WelfordState F → Outcome (List F)
  std_dev w =
      if ltb w.n 2
      then ok (replicate w.p nought)
      else for_range w.p
          (λ j std. do
            x ← index w.m2 (j * w.p + j)
            let variance = x ⊘ fl.of_ℕ (w.n - 1)
            (if nought <? variance then assign std j (fl.sqrt variance) else ok std))
          (replicate w.p nought)

module _ {F : Type 0} where
  unfoldable pub welford_ready : WelfordState F → ℤ → Bool
  welford_ready w min_samples = leb_ℤ min_samples (pos w.n)
