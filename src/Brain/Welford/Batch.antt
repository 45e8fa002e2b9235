-- ===== src/Brain/Welford/Batch.antt =====
-- The incremental statistics of internal/brain/welford.go against those that two passes over all
-- readings give, in exact arithmetic.
use hosa.Prelude.{
  ℕ, suc, ◌+◌, ◌-◌, ◌*◌, ◌≤◌, ◌≡◌, refl, sym, ap, ◌∙◌, arith, List, [], ◌∷◌, length, ltb, false,
}
use hosa.Float.{Float, ◌⊕◌, ◌⊖◌, ◌⊗◌, ◌⊘◌, nought}
use hosa.Outcome.{ok, ◌>>=◌}
use hosa.Outcome.Loops.{Returns}
use hosa.Linalg.{Matrix, new_matrix, index, put}
use hosa.Linalg.Cells.{Holds, write_cells_ok, new_matrix-IsShaped}
use hosa.Brain.Welford.{WelfordState, new_welford_state, covariance}
use hosa.Brain.Welford.Cells.{Reads}
use hosa.Brain.Welford.Sums.{AllSized, update_all, entry, sum_from, total, all-Summed}
use hosa.Brain.Welford.Exact.{IsExact, add_mul, mul_left_comm, add_left_comm}

module _ {F : Type 0} ⦃fl : Float F⦄ where
  module _ (bound : ℕ) (ex : IsExact F bound) where
    cancel : (x y z : F) → x ⊕ z ≡ y ⊕ z → x ≡ y
    cancel x y z e = sym (ex.add_sub x z) ∙ ap (λ w. w ⊖ z) e ∙ ex.add_sub y z

    mul_zero : (x : F) → x ⊗ nought ≡ nought
    mul_zero x = ex.mul_comm x nought ∙ ex.zero_mul x

    -- The products of the deviations from `a` and `b`, against the products themselves.
    deviations_step :
        (d q sx sy x y a b k : F)
        → d ⊕ (a ⊗ sy ⊕ b ⊗ sx) ≡ q ⊕ k ⊗ (a ⊗ b)
        → (d ⊕ (x ⊖ a) ⊗ (y ⊖ b)) ⊕ (a ⊗ (sy ⊕ y) ⊕ b ⊗ (sx ⊕ x))
          ≡ (q ⊕ x ⊗ y) ⊕ (k ⊗ (a ⊗ b) ⊕ a ⊗ b)
    deviations_step d q sx sy x y a b k g =
        let u = x ⊖ a in
        let v = y ⊖ b in
        let spread : (d ⊕ u ⊗ v) ⊕ (a ⊗ (sy ⊕ (v ⊕ b)) ⊕ b ⊗ (sx ⊕ (u ⊕ a)))
            ≡ (d ⊕ (a ⊗ sy ⊕ b ⊗ sx)) ⊕ ((u ⊕ a) ⊗ (v ⊕ b) ⊕ a ⊗ b) =
          simp (
            ex.mul_add,
            add_mul bound ex,
            ex.add_assoc,
            ex.mul_comm,
            ex.add_comm,
            add_left_comm bound ex,
          ) in
        let regroup : (q ⊕ k ⊗ (a ⊗ b)) ⊕ ((u ⊕ a) ⊗ (v ⊕ b) ⊕ a ⊗ b)
            ≡ (q ⊕ (u ⊕ a) ⊗ (v ⊕ b)) ⊕ (k ⊗ (a ⊗ b) ⊕ a ⊗ b) =
          simp (ex.add_assoc, ex.add_comm, add_left_comm bound ex) in
        ap (λ z. (d ⊕ u ⊗ v) ⊕ (a ⊗ (sy ⊕ z) ⊕ b ⊗ (sx ⊕ x))) (sym (ex.sub_add y b))
        ∙ ap (λ z. (d ⊕ u ⊗ v) ⊕ (a ⊗ (sy ⊕ (v ⊕ b)) ⊕ b ⊗ (sx ⊕ z))) (sym (ex.sub_add x a))
        ∙ spread
        ∙ ap (λ z. z ⊕ ((u ⊕ a) ⊗ (v ⊕ b) ⊕ a ⊗ b)) g
        ∙ regroup
        ∙ ap (λ z. (q ⊕ z ⊗ (v ⊕ b)) ⊕ (k ⊗ (a ⊗ b) ⊕ a ⊗ b)) (ex.sub_add x a)
        ∙ ap (λ z. (q ⊕ x ⊗ z) ⊕ (k ⊗ (a ⊗ b) ⊕ a ⊗ b)) (ex.sub_add y b)

    deviations_sum :
        (i j n : ℕ) (a b d q sx sy : F) (rs : List (List F))
        → d ⊕ (a ⊗ sy ⊕ b ⊗ sx) ≡ q ⊕ fl.of_ℕ n ⊗ (a ⊗ b)
        → sum_from d (λ r. (entry r i ⊖ a) ⊗ (entry r j ⊖ b)) rs
            ⊕ (a ⊗ sum_from sy (λ r. entry r j) rs ⊕ b ⊗ sum_from sx (λ r. entry r i) rs)
          ≡ sum_from q (λ r. entry r i ⊗ entry r j) rs ⊕ fl.of_ℕ (n + length rs) ⊗ (a ⊗ b)
    unfolding sum_from
    deviations_sum i j n a b d q sx sy [] g =
        let same : n ≡ n + 0 = omega arith in g ∙ ap (λ m. q ⊕ fl.of_ℕ m ⊗ (a ⊗ b)) same
    deviations_sum i j n a b d q sx sy (r ∷ rs) g =
        let x = entry r i in
        let y = entry r j in
        let k = fl.of_ℕ n ⊗ (a ⊗ b) in
        let same : n + 1 + length rs ≡ n + suc (length rs) = omega arith in
        deviations_sum i j (n + 1) a b (d ⊕ (x ⊖ a) ⊗ (y ⊖ b)) (q ⊕ x ⊗ y) (sx ⊕ x) (sy ⊕ y) rs (
          deviations_step d q sx sy x y a b (fl.of_ℕ n) g
          ∙ ap (λ z. (q ⊕ x ⊗ y) ⊕ z) (sym (ex.suc_mul n (a ⊗ b))))
        ∙ ap (λ m. sum_from (q ⊕ x ⊗ y) (λ r. entry r i ⊗ entry r j) rs ⊕ fl.of_ℕ m ⊗ (a ⊗ b)) same

    -- The sum of the products of the deviations from the means, where the sums are `n` times the means.
    comoment :
        (i j : ℕ) (a b c : F) (rs : List (List F))
        → fl.of_ℕ (length rs) ⊗ a ≡ total (λ r. entry r i) rs
        → fl.of_ℕ (length rs) ⊗ b ≡ total (λ r. entry r j) rs
        → c ⊕ fl.of_ℕ (length rs) ⊗ (a ⊗ b) ≡ total (λ r. entry r i ⊗ entry r j) rs
        → c ≡ total (λ r. (entry r i ⊖ a) ⊗ (entry r j ⊖ b)) rs
    comoment i j a b c rs ha hb hc =
        let k = fl.of_ℕ (length rs) in
        let d = total (λ r. (entry r i ⊖ a) ⊗ (entry r j ⊖ b)) rs in
        let q = total (λ r. entry r i ⊗ entry r j) rs in
        let base : nought ⊕ (a ⊗ nought ⊕ b ⊗ nought) ≡ nought ⊕ fl.of_ℕ 0 ⊗ (a ⊗ b) =
          simp (mul_zero, ex.zero_mul, ex.zero_add) in
        let twice : a ⊗ (k ⊗ b) ⊕ b ⊗ (k ⊗ a) ≡ k ⊗ (a ⊗ b) ⊕ k ⊗ (a ⊗ b) =
          simp (ex.mul_assoc, ex.mul_comm, mul_left_comm bound ex) in
        let from_zero : 0 + length rs ≡ length rs = omega arith in
        let summed : d ⊕ (a ⊗ (k ⊗ b) ⊕ b ⊗ (k ⊗ a)) ≡ q ⊕ k ⊗ (a ⊗ b) =
          ap (λ z. d ⊕ (a ⊗ z ⊕ b ⊗ (k ⊗ a))) hb
          ∙ ap (λ z. d ⊕ (a ⊗ total (λ r. entry r j) rs ⊕ b ⊗ z)) ha
          ∙ deviations_sum i j 0 a b nought nought nought nought rs base
          ∙ ap (λ m. q ⊕ fl.of_ℕ m ⊗ (a ⊗ b)) from_zero in
        let once : d ⊕ k ⊗ (a ⊗ b) ≡ q =
          cancel (d ⊕ k ⊗ (a ⊗ b)) q (k ⊗ (a ⊗ b))
            (ex.add_assoc d (k ⊗ (a ⊗ b)) (k ⊗ (a ⊗ b)) ∙ ap (λ z. d ⊕ z) (sym twice) ∙ summed) in
        cancel c d (k ⊗ (a ⊗ b)) (hc ∙ sym once)

  covariance-Reads :
      (p n : ℕ) (mu : ℕ → F) (c : ℕ → ℕ → F) (w : WelfordState F)
      → 2 ≤ n
      → Reads p n mu c w
      → Returns (covariance w) (Holds p p (λ i j. c i j ⊘ fl.of_ℕ (n - 1)))
  unfolding covariance
  covariance-Reads p n mu c w h (ep, en, hm, hc) =
      let many : ltb n 2 ≡ false = ground arith in
      rw (en, many, ep)
        (write_cells_ok p p (λ i j. c i j ⊘ fl.of_ℕ (n - 1))
          (λ i j cov. do x ← index w.m2 (i * p + j); put cov i j (x ⊘ fl.of_ℕ (n - 1)))
          (new_matrix p p) (λ i j t a b. rw (hc.1 i j a b) refl) (new_matrix-IsShaped F p p))

  -- The means of the readings, and the sample covariances about them.
  abbrev pub IsBatchCovariance : ℕ → List (List F) → Matrix F → Type 0
  IsBatchCovariance p rs cov =
      (mu : ℕ → F) × (((j : ℕ) → fl.of_ℕ (length rs) ⊗ mu j ≡ total (λ r. entry r j) rs)
        × Holds p p
            (λ i j.
              total (λ r. (entry r i ⊖ mu i) ⊗ (entry r j ⊖ mu j)) rs ⊘ fl.of_ℕ (length rs - 1))
            cov)

  -- In exact arithmetic, `Update` for each of two or more readings of `p` variables, and then
  -- `Covariance`, return the matrix that two passes over all readings give: first the means, then,
  -- for each pair of variables, the sum of the products of the deviations from the means, divided by
  -- one less than the number of readings. Exact means the laws of a field, with the division by
  -- counts up to the number of readings.
  pub covariance-update_all :
      (p : ℕ) (rs : List (List F))
      → IsExact F (length rs)
      → 2 ≤ length rs
      → AllSized p rs
      → Returns (do w ← update_all (new_welford_state p) rs; covariance w) (IsBatchCovariance p rs)
  covariance-update_all p rs ex h a =
      let n = length rs in
      let (w, e, (mu, (c, (reads, hs, hq)))) = all-Summed n ex p rs (omega arith) a in
      let (cov, e', held) = covariance-Reads p n mu c w h reads in
      (
        cov,
        rw (e, e') refl,
        (
          mu,
          (
            hs,
            (
              held.0,
              λ i j b b'.
                  held.1 i j b b'
                  ∙ ap (λ z. ok (z ⊘ fl.of_ℕ (n - 1)))
                      (comoment n ex i j (mu i) (mu j) (c i j) rs (hs i) (hs j) (hq i j)),
            ),
          ),
        ),
      )
