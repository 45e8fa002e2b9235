-- ===== src/Brain/Welford/Sums.antt =====
-- The statistics of internal/brain/welford.go after any number of readings, as sums over the readings.
use hosa.Prelude.{
  ℕ, zero, suc, ◌+◌, ◌*◌, ◌<◌, ◌≤◌, ◌≡◌, refl, ◌∙◌, subst, arith, List, [], ◌∷◌, length, get_or,
  length-replicate,
}
use hosa.Float.{Float, ◌⊕◌, ◌⊗◌, nought}
use hosa.Outcome.{Outcome, ok, ◌>>=◌}
use hosa.Outcome.Loops.{Returns}
use hosa.Linalg.{index}
use hosa.Linalg.Cells.{cell_within}
use hosa.Brain.Welford.{WelfordState, new_welford_state, update}
use hosa.Brain.Welford.Cells.{Reads, next_mean, next_m2, update-Reads}
use hosa.Brain.Welford.Columns.{index-replicate}
use hosa.Brain.Welford.Exact.{IsExact, mean_step, m2_step}

abbrev pub AllSized : {F : Type 0} → ℕ → List (List F) → Type 0
AllSized p [] = Unit
AllSized p (r ∷ rs) = (length r ≡ p) × AllSized p rs

module _ {F : Type 0} ⦃fl : Float F⦄ where
  -- `Update` for each of the readings.
  unfoldable pub update_all : WelfordState F → List (List F) → Outcome (WelfordState F)
  update_all w [] = ok w
  update_all w (r ∷ rs) = do w' ← update w r; update_all w' rs

  abbrev pub entry : List F → ℕ → F
  entry r j = get_or r j nought

  -- The sum of a quantity over the readings, from `s` on.
  unfoldable pub sum_from : F → (List F → F) → List (List F) → F
  sum_from s g [] = s
  sum_from s g (r ∷ rs) = sum_from (s ⊕ g r) g rs

  -- The sum of a quantity over all readings.
  abbrev pub total : (List F → F) → List (List F) → F
  total g rs = sum_from nought g rs

  entry_ok : (r : List F) (j : ℕ) → j < length r → index r j ≡ ok (entry r j)
  unfolding index
  entry_ok [] j h = absurd (omega arith)
  entry_ok (x ∷ r) zero h = refl
  entry_ok (x ∷ r) (suc j) h = entry_ok r j (omega arith)

  -- The state after `n` readings whose sums are `s`, and the sums of whose products are `q`.
  abbrev pub Summed : ℕ → ℕ → (ℕ → F) → (ℕ → ℕ → F) → WelfordState F → Type 0
  Summed p n s q w =
      (mu : ℕ → F) × ((c : ℕ → ℕ → F) × (Reads p n mu c w
          × ((j : ℕ) → fl.of_ℕ n ⊗ mu j ≡ s j)
          × ((i j : ℕ) → c i j ⊕ fl.of_ℕ n ⊗ (mu i ⊗ mu j) ≡ q i j)))

  module _ (bound : ℕ) (ex : IsExact F bound) where
    update-Summed :
        (p n : ℕ) (s : ℕ → F) (q : ℕ → ℕ → F) (r : List F) (w : WelfordState F)
        → n < bound
        → length r ≡ p
        → Summed p n s q w
        → Returns
            (update w r)
            (Summed p (n + 1) (λ j. s j ⊕ entry r j) (λ i j. q i j ⊕ entry r i ⊗ entry r j))
    update-Summed p n s q r w h l (mu, (c, (reads, hs, hq))) =
        let (w', e, reads') =
          update-Reads p n r (entry r) mu c w (l, λ k b. entry_ok r k (omega arith)) reads in
        (
          w',
          e,
          (
            next_mean n (entry r) mu,
            (
              next_m2 n (entry r) mu c,
              (
                reads',
                (λ j. mean_step bound ex n (entry r j) (mu j) (s j) h (hs j)),
                λ i j.
                    m2_step bound ex n (c i j) (q i j) (entry r i) (entry r j) (mu i) (mu j) h
                      (hq i j),
              ),
            ),
          ),
        )

    update_all-Summed :
        (p n : ℕ) (s : ℕ → F) (q : ℕ → ℕ → F) (rs : List (List F)) (w : WelfordState F)
        → n + length rs ≤ bound
        → AllSized p rs
        → Summed p n s q w
        → Returns (update_all w rs) (
            Summed p
              (n + length rs)
              (λ j. sum_from (s j) (λ r. entry r j) rs)
              (λ i j. sum_from (q i j) (λ r. entry r i ⊗ entry r j) rs))
    unfolding update_all sum_from
    update_all-Summed p n s q [] w h a sm =
        (w, refl, subst (λ k. Summed p k s q w) (omega arith) sm)
    update_all-Summed p n s q (r ∷ rs) w h a sm =
        let (w', e, sm') = update-Summed p n s q r w (omega (arith, h)) a.0 sm in
        let (v, e', done) =
          update_all-Summed p (n + 1) (λ j. s j ⊕ entry r j) (λ i j. q i j ⊕ entry r i ⊗ entry r j)
            rs w' (omega (arith, h)) a.1 sm' in
        let same : n + 1 + length rs ≡ n + suc (length rs) = omega arith in
        (
          v,
          rw e e',
          subst
              (λ k.
                Summed p k (λ j. sum_from (s j ⊕ entry r j) (λ r. entry r j) rs)
                  (λ i j. sum_from (q i j ⊕ entry r i ⊗ entry r j) (λ r. entry r i ⊗ entry r j) rs)
                  v)
              same done,
        )

    new-Summed : (p : ℕ) → Summed p 0 (λ _. nought) (λ _ _. nought) (new_welford_state p)
    unfolding new_welford_state
    new-Summed p = (
      (λ _. nought),
      (
        (λ _ _. nought),
        (
          (
            refl,
            refl,
            (length-replicate p nought, λ k h. index-replicate p k nought h),
            (
              length-replicate (p * p) nought,
              λ i j a b. index-replicate (p * p) (i * p + j) nought (cell_within p p i j a b),
            ),
          ),
          (λ j. ex.zero_mul nought),
          λ i j. ex.zero_add (nought ⊗ (nought ⊗ nought)) ∙ ex.zero_mul (nought ⊗ nought),
        ),
      ),
    )

    pub all-Summed :
        (p : ℕ) (rs : List (List F))
        → length rs ≤ bound
        → AllSized p rs
        → Returns (update_all (new_welford_state p) rs) (
            Summed p
              (length rs)
              (λ j. total (λ r. entry r j) rs)
              (λ i j. total (λ r. entry r i ⊗ entry r j) rs))
    all-Summed p rs h a =
        let same : 0 + length rs ≡ length rs = omega arith in
        let (w, e, sm) =
          update_all-Summed p 0 (λ _. nought) (λ _ _. nought) rs (new_welford_state p) (omega arith)
            a (new-Summed p) in
        (
          w,
          e,
          subst
              (λ k.
                Summed p k (λ j. total (λ r. entry r j) rs)
                  (λ i j. total (λ r. entry r i ⊗ entry r j) rs) w)
              same sm,
        )
