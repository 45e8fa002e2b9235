-- ===== src/Linalg/Inverse/Safety.antt =====
-- The indices of the loops of `Inverse` in internal/linalg/matrix.go.
use hosa.Prelude.{
  ℕ, ◌+◌, ◌*◌, ◌<◌, ◌≡◌, refl, length, arith, ◌==◌, Bool-cases, ==_iff, true, inl, inr,
  if◌then◌else◌,
}
use hosa.Float.{Float, ◌⊖◌, ◌⊗◌, ◌⊘◌, nought}
use hosa.Outcome.{ok, err, ◌>>=◌, for_range, singular}
use hosa.Outcome.Safe.{Safe, Any, Safe-bind, for_range-Safe, for_between-Safe, for_cells-Safe}
use hosa.Linalg.{Matrix, new_matrix, get, put}
use hosa.Linalg.Cells.{IsShaped, new_matrix-IsShaped}
use hosa.Linalg.Safety.{get-Safe, put-Safe, write-Safe}
use hosa.Linalg.Inverse.{
  Pivot, augment, find_pivot, swap_rows, normalize, clear_column, eliminate, inverse,
}

module _ {F : Type 0} ⦃fl : Float F⦄ where
  -- The shape of the augmented matrix.
  abbrev pub Augmented : ℕ → Matrix F → Type 0
  Augmented n aug = IsShaped aug n (2 * n)

  augment-Safe : (m : Matrix F) (n : ℕ) → IsShaped m n n → Safe (Augmented n) (augment m n)
  unfolding augment
  augment-Safe m n sm =
      for_range-Safe (Augmented n) n _ (new_matrix n (2 * n))
        (λ i aug a w.
          Safe-bind (Augmented n) (Augmented n) _ _
            (for_range-Safe (Augmented n) n _ aug
              (λ j t b v.
                write-Safe (get m i j) t n (2 * n) i j (get-Safe m n n i j sm a b) v a
                  (omega arith))
              w)
            (λ t v. put-Safe t n (2 * n) i (n + i) (fl.of_ℕ 1) v a (omega arith)))
        (new_matrix-IsShaped F n (2 * n))

  find_pivot-Safe :
      (n i : ℕ) (aug : Matrix F)
      → i < n
      → Augmented n aug
      → Safe (λ p. p.row < n) (find_pivot n i aug)
  unfolding find_pivot
  find_pivot-Safe n i aug a w =
      Safe-bind Any (λ p. p.row < n) (get aug i i) _ (get-Safe aug n (2 * n) i i w a (omega arith))
        (λ x _.
          for_between-Safe (λ p. p.row < n) (i + 1) n _ (record { row = i; max_val = fl.abs x })
            (omega arith)
            (λ k p b v.
              Safe-bind Any (λ q. q.row < n) (get aug k i) _
                (get-Safe aug n (2 * n) k i w b (omega arith)) (λ y _. ground arith))
            a)

  swap_rows-Safe :
      (n i pivot : ℕ) (aug : Matrix F)
      → i < n
      → pivot < n
      → Augmented n aug
      → Safe (Augmented n) (swap_rows n i pivot aug)
  unfolding swap_rows
  swap_rows-Safe n i pivot aug a b w =
      for_range-Safe (Augmented n) (2 * n) _ aug
        (λ j t c v.
          Safe-bind Any (Augmented n) (get t i j) _ (get-Safe t n (2 * n) i j v a c) (λ temp _.
            Safe-bind Any (Augmented n) (get t pivot j) _ (get-Safe t n (2 * n) pivot j v b c)
              (λ x _.
                Safe-bind (Augmented n) (Augmented n) (put t i j x) _
                  (put-Safe t n (2 * n) i j x v a c)
                  (λ u z. put-Safe u n (2 * n) pivot j temp z b c))))
        w

  normalize-Safe :
      (n i : ℕ) (aug : Matrix F) → i < n → Augmented n aug → Safe (Augmented n) (normalize n i aug)
  unfolding normalize
  normalize-Safe n i aug a w =
      Safe-bind Any (Augmented n) (get aug i i) _ (get-Safe aug n (2 * n) i i w a (omega arith))
        (λ pivot_val _.
          for_range-Safe (Augmented n) (2 * n) _ aug
            (λ j t c v.
              Safe-bind Any (Augmented n) (get t i j) _ (get-Safe t n (2 * n) i j v a c)
                (λ x _. put-Safe t n (2 * n) i j (x ⊘ pivot_val) v a c))
            w)

  clear_row-Safe :
      (n i k : ℕ) (factor : F) (aug : Matrix F)
      → i < n
      → k < n
      → Augmented n aug
      → Safe (Augmented n) (
          for_range
            (2 * n)
            (λ j aug. do x ← get aug k j; y ← get aug i j; put aug k j (x ⊖ factor ⊗ y))
            aug)
  clear_row-Safe n i k factor aug a b w =
      for_range-Safe (Augmented n) (2 * n) _ aug
        (λ j t c v.
          Safe-bind Any (Augmented n) (get t k j) _ (get-Safe t n (2 * n) k j v b c) (λ x _.
            Safe-bind Any (Augmented n) (get t i j) _ (get-Safe t n (2 * n) i j v a c)
              (λ y _. put-Safe t n (2 * n) k j (x ⊖ factor ⊗ y) v b c)))
        w

  clear_column-Safe :
      (n i : ℕ) (aug : Matrix F)
      → i < n
      → Augmented n aug
      → Safe (Augmented n) (clear_column n i aug)
  unfolding clear_column
  clear_column-Safe n i aug a w =
      for_range-Safe (Augmented n) n _ aug
        (λ k t b v. elim (Bool-cases (k == i)) [
          | inl e ↦ rw e v
          | inr e ↦ rw e (
              Safe-bind Any (Augmented n) (get t k i) _ (get-Safe t n (2 * n) k i v b (omega arith))
                (λ factor _. clear_row-Safe n i k factor t a b v))
        ])
        w

  eliminate-Safe :
      (n i : ℕ) (aug : Matrix F) → i < n → Augmented n aug → Safe (Augmented n) (eliminate n i aug)
  unfolding eliminate
  eliminate-Safe n i aug a w =
      Safe-bind (λ p. p.row < n) (Augmented n) (find_pivot n i aug) _ (find_pivot-Safe n i aug a w)
        (λ p b. Safe-bind (Augmented n) (Augmented n) _ _ (swapped p b) (λ t v.
          Safe-bind (Augmented n) (Augmented n) (normalize n i t) _ (normalize-Safe n i t a v)
            (λ u z. clear_column-Safe n i u a z)))
    where
      swapped :
          (p : Pivot F)
          → p.row < n
          → Safe (Augmented n) (
              if fl.eq p.max_val nought
              then err singular
              else if p.row == i
              then ok aug
              else swap_rows n i p.row aug)
      swapped p b = elim (Bool-cases (fl.eq p.max_val nought)) [
        | inl z ↦ rw z tt
        | inr z ↦ rw z (elim (Bool-cases (p.row == i)) [
          | inl e ↦ rw e w
          | inr e ↦ rw e (swap_rows-Safe n i p.row aug a b w)
        ])
      ]

  -- `Inverse` of a square matrix reads and writes within its slices: it returns a matrix of the same
  -- shape, or the error of a singular matrix, and never panics.
  pub inverse-Safe :
      (m : Matrix F) (n : ℕ) → IsShaped m n n → Safe (λ inv. IsShaped inv n n) (inverse m)
  unfolding inverse
  inverse-Safe m n sm =
      let r = m.rows in
      let square : (m.rows == m.cols) ≡ true = (==_iff m.rows m.cols).1 (omega arith) in
      let area : length m.cells ≡ m.rows * m.rows = rw (sm.0) (sm.2) in
      rw (square, ← sm.0)
        (Safe-bind (Augmented r) (λ inv. IsShaped inv r r) (augment m r) _
          (augment-Safe m r (refl, omega arith, area))
          (λ aug w.
            Safe-bind (Augmented r) (λ inv. IsShaped inv r r) _ _
              (for_range-Safe (Augmented r) r (eliminate r) aug
                (λ i t a v. eliminate-Safe r i t a v) w)
              (λ t v.
                for_cells-Safe (λ inv. IsShaped inv r r) r r _ (new_matrix r r)
                  (λ i j inv a b z.
                    write-Safe (get t i (r + j)) inv r r i j
                      (get-Safe t r (2 * r) i (r + j) v a (omega arith)) z a b)
                  (new_matrix-IsShaped F r r))))
