-- ===== src/Linalg.antt =====
-- internal/linalg: matrices in row-major order over a flat slice. Dimensions and indices are never
-- negative in the code, so they are ℕ; an index beyond the slice panics.
pub mod Cells
pub mod Product
pub mod Safety
pub mod Inverse
use hosa.Prelude.{
  ℕ, ◌+◌, ◌-◌, ◌*◌, ◌&&◌, List, ltb, leb, ◌==◌, if◌then◌else◌, set, replicate, length, not, zero,
  suc, [], ◌∷◌,
}
use hosa.Float.{Float, ◌⊕◌, ◌⊖◌, ◌⊗◌, ◌⊘◌, nought}
use hosa.Outcome.{
  GoError, Outcome, ok, err, panic, ◌>>=◌, for_range, for_cells, mul_dimensions, sub_dimensions,
  too_few_samples,
}

pub record Matrix (F : Type 0) : Type 0 where
  pub rows : ℕ
  pub cols : ℕ
  pub cells : List F

-- The indexing of a slice: a read beyond its end panics.
unfoldable pub index : {F : Type 0} → List F → ℕ → Outcome F
index [] i = panic
index (x ∷ xs) zero = ok x
index (x ∷ xs) (suc i) = index xs i

-- `xs[i] = v`.
unfoldable pub assign : {F : Type 0} → List F → ℕ → F → Outcome (List F)
assign xs i v = if ltb i (length xs) then ok (set xs i v) else panic

module _ {F : Type 0} ⦃fl : Float F⦄ where
  unfoldable pub new_matrix : ℕ → ℕ → Matrix F
  new_matrix r c = record { rows = r; cols = c; cells = replicate (r * c) nought }

module _ {F : Type 0} where
  unfoldable pub get : Matrix F → ℕ → ℕ → Outcome F
  unfolding index
  get m i j = index m.cells (i * m.cols + j)

  unfoldable pub put : Matrix F → ℕ → ℕ → F → Outcome (Matrix F)
  unfolding assign
  put m i j v = do xs ← assign m.cells (i * m.cols + j) v; ok (record m { cells = xs })

module _ {F : Type 0} ⦃fl : Float F⦄ where
  -- The innermost loop of `Mul`: the sum over k of m[i][k] * b[k][j].
  unfoldable pub dot : Matrix F → Matrix F → ℕ → ℕ → Outcome F
  dot m b i j = for_range m.cols (λ k sum. do x ← get m i k; y ← get b k j; ok (sum ⊕ x ⊗ y)) nought

  unfoldable pub mul : Matrix F → Matrix F → Outcome (Matrix F)
  unfolding dot
  mul m b =
      if not (m.cols == b.rows)
      then err mul_dimensions
      else for_cells m.rows b.cols (λ i j result. do sum ← dot m b i j; put result i j sum)
          (new_matrix m.rows b.cols)

  unfoldable pub sub : Matrix F → Matrix F → Outcome (Matrix F)
  sub m b =
      if m.rows == b.rows && m.cols == b.cols
      then (do
        zs ←
            for_range (length m.cells)
              (λ i zs. do x ← index m.cells i; y ← index b.cells i; assign zs i (x ⊖ y))
              (replicate (m.rows * m.cols) nought)
        ok (record { rows = m.rows; cols = m.cols; cells = zs }))
      else err sub_dimensions

  unfoldable pub transpose : Matrix F → Outcome (Matrix F)
  transpose m =
      for_cells m.rows m.cols (λ i j result. do x ← get m i j; put result j i x)
        (new_matrix m.cols m.rows)

  unfoldable pub mean_vector : Matrix F → Outcome (Matrix F)
  mean_vector samples =
      for_range samples.cols
        (λ j mean. do
          sum ← for_range samples.rows (λ i sum. do x ← get samples i j; ok (sum ⊕ x)) nought
          put mean j 0 (sum ⊘ fl.of_ℕ samples.rows))
        (new_matrix samples.cols 1)

  unfoldable pub covariance_matrix : Matrix F → Outcome (Matrix F)
  covariance_matrix samples = if leb samples.rows 1 then err too_few_samples else do
    mean ← mean_vector samples
    centered ←
        for_cells samples.rows samples.cols
          (λ i j centered. do x ← get samples i j; mu ← get mean j 0; put centered i j (x ⊖ mu))
          (new_matrix samples.rows samples.cols)
    centered_t ← transpose centered
    cov_sum ← mul centered_t centered
    for_cells samples.cols samples.cols
        (λ i j cov. do x ← get cov_sum i j; put cov i j (x ⊘ fl.of_ℕ (samples.rows - 1)))
        (new_matrix samples.cols samples.cols)
