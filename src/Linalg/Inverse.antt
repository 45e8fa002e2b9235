-- ===== src/Linalg/Inverse.antt =====
-- `Inverse` of internal/linalg/matrix.go: Gauss-Jordan elimination with partial pivoting on the
-- augmented matrix [M | I].
pub mod Safety
use hosa.Prelude.{ℕ, ◌+◌, ◌*◌, ◌==◌, if◌then◌else◌, not}
use hosa.Float.{Float, ◌<?◌, ◌⊖◌, ◌⊗◌, ◌⊘◌, nought}
use hosa.Outcome.{Outcome, ok, err, ◌>>=◌, for_range, for_between, for_cells, not_square, singular}
use hosa.Linalg.{Matrix, new_matrix, get, put}

-- The best row so far for the column, and the absolute value there.
pub record Pivot (F : Type 0) : Type 0 where
  pub row : ℕ
  pub max_val : F

module _ {F : Type 0} ⦃fl : Float F⦄ where
  unfoldable pub augment : Matrix F → ℕ → Outcome (Matrix F)
  augment m n =
      for_range n
        (λ i aug. do
          aug ← for_range n (λ j aug. do x ← get m i j; put aug i j x) aug
          put aug i (n + i) (fl.of_ℕ 1))
        (new_matrix n (2 * n))

  unfoldable pub find_pivot : ℕ → ℕ → Matrix F → Outcome (Pivot F)
  find_pivot n i aug = do
    x ← get aug i i
    for_between (i + 1) n
        (λ k p. do
          y ← get aug k i
          let val = fl.abs y
          ok (if p.max_val <? val then record { row = k; max_val = val } else p))
        (record { row = i; max_val = fl.abs x })

  unfoldable pub swap_rows : ℕ → ℕ → ℕ → Matrix F → Outcome (Matrix F)
  swap_rows n i pivot aug =
      for_range (2 * n)
        (λ j aug. do
          temp ← get aug i j
          x ← get aug pivot j
          aug ← put aug i j x
          put aug pivot j temp)
        aug

  unfoldable pub normalize : ℕ → ℕ → Matrix F → Outcome (Matrix F)
  normalize n i aug = do
    pivot_val ← get aug i i
    for_range (2 * n) (λ j aug. do x ← get aug i j; put aug i j (x ⊘ pivot_val)) aug

  unfoldable pub clear_column : ℕ → ℕ → Matrix F → Outcome (Matrix F)
  clear_column n i aug =
      for_range n
        (λ k aug. if k == i then ok aug else do
          factor ← get aug k i
          for_range (2 * n)
              (λ j aug. do x ← get aug k j; y ← get aug i j; put aug k j (x ⊖ factor ⊗ y)) aug)
        aug

  -- One round of the elimination. `maxVal == 0` is false for NaN.
  unfoldable pub eliminate : ℕ → ℕ → Matrix F → Outcome (Matrix F)
  unfolding find_pivot swap_rows normalize clear_column
  eliminate n i aug = do
    p ← find_pivot n i aug
    aug ←
        (if fl.eq p.max_val nought
          then err singular
          else if p.row == i
          then ok aug
          else swap_rows n i p.row aug)
    aug ← normalize n i aug
    clear_column n i aug

  unfoldable pub inverse : Matrix F → Outcome (Matrix F)
  unfolding augment eliminate
  inverse m = if not (m.rows == m.cols) then err not_square else do
    aug ← augment m m.rows
    aug ← for_range m.rows (eliminate m.rows) aug
    for_cells m.rows m.rows (λ i j inv. do x ← get aug i (m.rows + j); put inv i j x)
        (new_matrix m.rows m.rows)
