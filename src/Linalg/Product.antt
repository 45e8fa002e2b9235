-- ===== src/Linalg/Product.antt =====
-- The entries of the result of `Mul` in internal/linalg/matrix.go.
use hosa.Prelude.{ℕ, zero, suc, ◌<◌, ◌≡◌, refl, arith, ◌==◌, ==_iff, true}
use hosa.Float.{Float, ◌⊕◌, ◌⊗◌, nought}
use hosa.Outcome.{ok, ◌>>=◌}
use hosa.Outcome.Loops.{Returns, for_range_ok}
use hosa.Linalg.{Matrix, new_matrix, get, dot, mul}
use hosa.Linalg.Cells.{Holds, fill_ok, new_matrix-IsShaped}

module _ {F : Type 0} ⦃fl : Float F⦄ where
  -- The sum that an entry of a product is, over `n` terms from the left.
  unfoldable pub sum_of_products : ℕ → (ℕ → F) → (ℕ → F) → F
  sum_of_products zero x y = nought
  sum_of_products (suc n) x y = sum_of_products n x y ⊕ x n ⊗ y n

  dot_ok :
      (m b : Matrix F) (r n c i j : ℕ) (x y : ℕ → ℕ → F)
      → Holds r n x m
      → Holds n c y b
      → i < r
      → j < c
      → dot m b i j ≡ ok (sum_of_products n (x i) (λ k. y k j))
  unfolding dot sum_of_products
  dot_ok m b r n c i j x y (sm, hm) (sb, hb) p q =
      let (s, e, w) =
        for_range_ok (λ k s. s ≡ sum_of_products k (x i) (λ k. y k j)) m.cols
          (λ k sum. do u ← get m i k; v ← get b k j; ok (sum ⊕ u ⊗ v)) nought
          (λ k t a w.
            (t ⊕ x i k ⊗ y k j, rw (hm i k p (omega arith), hb k j (omega arith) q), rw w))
          refl in
      rw (← sm.1, ← w) e

  mul_Holds :
      (m b : Matrix F) (r n c : ℕ) (x y : ℕ → ℕ → F)
      → Holds r n x m
      → Holds n c y b
      → Returns (mul m b) (Holds r c (λ i j. sum_of_products n (x i) (λ k. y k j)))
  unfolding mul
  mul_Holds m b r n c x y hm hb =
      let cols : (m.cols == b.rows) ≡ true = (==_iff m.cols b.rows).1 (omega arith) in
      rw (cols, ← hm.0.0, ← hb.0.1)
        (fill_ok m.rows b.cols (λ i j. sum_of_products n (x i) (λ k. y k j)) (dot m b)
          (new_matrix m.rows b.cols)
          (λ i j p q. dot_ok m b r n c i j x y hm hb (omega arith) (omega arith))
          (new_matrix-IsShaped F m.rows b.cols))

  -- `Mul` of a matrix of r rows and n columns with one of n rows and c columns succeeds, with a
  -- matrix of r rows and c columns whose entry (i, j) is the sum over k, in the order of k, of
  -- the products of the entries (i, k) and (k, j).
  pub mul_lem :
      (m b : Matrix F) (r n c i j : ℕ) (x y : ℕ → ℕ → F)
      → Holds r n x m
      → Holds n c y b
      → i < r
      → j < c
      → Returns (mul m b) (λ p.
        (p.rows ≡ r) × (p.cols ≡ c) × (get p i j ≡ ok (sum_of_products n (x i) (λ k. y k j))))
  mul_lem m b r n c i j x y hm hb p q =
      let (res, e, (sh, held)) = mul_Holds m b r n c x y hm hb in
      (res, e, (sh.0, sh.1, held i j p q))
