-- ===== src/Brain/Welford/Safety.antt =====
-- The indices of the loops of internal/brain/welford.go.
use hosa.Prelude.{
  ℕ, ◌+◌, ◌-◌, ◌*◌, ◌≡◌, refl, arith, List, length, length-replicate, replicate, ◌==◌, ==_iff,
  Bool-cases, inl, inr, ltb,
}
use hosa.Float.{Float, ◌⊕◌, ◌⊖◌, ◌⊗◌, ◌⊘◌, nought}
use hosa.Outcome.{ok, ◌>>=◌, for_range}
use hosa.Outcome.Loops.{Returns, for_range_ok}
use hosa.Outcome.Safe.{Safe, Any, Safe-bind, for_range-Safe, for_cells-Safe}
use hosa.Linalg.{new_matrix, put, index}
use hosa.Linalg.Cells.{IsShaped, new_matrix-IsShaped, cell_within, index_ok, put_ok}
use hosa.Linalg.Safety.{index-Safe, assign-Safe, put-Safe}
use hosa.Brain.Welford.{
  WelfordState, new_welford_state, deltas, update_mean, update_m2, update, mean_matrix, covariance,
}

module _ {F : Type 0} where
  -- The state of `p` variables.
  abbrev pub IsSized : WelfordState F → ℕ → Type 0
  IsSized w p = (w.p ≡ p) × (length w.mean ≡ p) × (length w.m2 ≡ p * p)

  abbrev pub HasLength : ℕ → List F → Type 0
  HasLength n xs = length xs ≡ n

module _ {F : Type 0} ⦃fl : Float F⦄ where
  deltas-Safe :
      (p : ℕ) (reading mean : List F)
      → length reading ≡ p
      → length mean ≡ p
      → Safe (HasLength p) (deltas p reading mean)
  unfolding deltas
  deltas-Safe p reading mean e m =
      for_range-Safe (HasLength p) p _ (replicate p nought)
        (λ j d l h.
          Safe-bind Any (HasLength p) (index reading j) _ (index-Safe reading j (omega arith))
            (λ x _.
              Safe-bind Any (HasLength p) (index mean j) _ (index-Safe mean j (omega arith))
                (λ mu _. assign-Safe d j p (x ⊖ mu) h l)))
        (length-replicate p nought)

  update_mean-Safe :
      (p : ℕ) (n : F) (delta1 mean : List F)
      → length delta1 ≡ p
      → length mean ≡ p
      → Safe (HasLength p) (update_mean p n delta1 mean)
  unfolding update_mean
  update_mean-Safe p n delta1 mean e m =
      for_range-Safe (HasLength p) p _ mean
        (λ j t l h.
          Safe-bind Any (HasLength p) (index t j) _ (index-Safe t j (omega arith)) (λ mu _.
            Safe-bind Any (HasLength p) (index delta1 j) _ (index-Safe delta1 j (omega arith))
              (λ d _. assign-Safe t j p (mu ⊕ d ⊘ n) h l)))
        m

  update_m2-Safe :
      (p : ℕ) (delta1 delta2 m2 : List F)
      → length delta1 ≡ p
      → length delta2 ≡ p
      → length m2 ≡ p * p
      → Safe (HasLength (p * p)) (update_m2 p delta1 delta2 m2)
  unfolding update_m2
  update_m2-Safe p delta1 delta2 m2 e1 e2 m =
      for_cells-Safe (HasLength (p * p)) p p _ m2
        (λ i j t a b h.
          let w = cell_within p p i j a b in
          Safe-bind Any (HasLength (p * p)) (index t (i * p + j)) _
            (index-Safe t (i * p + j) (omega arith))
            (λ old _.
              Safe-bind Any (HasLength (p * p)) (index delta1 i) _
                (index-Safe delta1 i (omega arith))
                (λ d1 _.
                  Safe-bind Any (HasLength (p * p)) (index delta2 j) _
                    (index-Safe delta2 j (omega arith))
                    (λ d2 _. assign-Safe t (i * p + j) (p * p) (old ⊕ d1 ⊗ d2) h w))))
        m

  -- `Update` never panics: a reading of another size is an error, and otherwise the state keeps its
  -- sizes and counts one reading more.
  pub update-Safe :
      (w : WelfordState F) (p : ℕ) (reading : List F)
      → IsSized w p
      → Safe (λ w'. IsSized w' p × (w'.n ≡ w.n + 1)) (update w reading)
  unfolding update
  update-Safe w p reading (ep, em, e2) = elim (Bool-cases (length reading == w.p)) [
    | inr e ↦ rw e tt
    | inl e ↦ rw e (sized ((==_iff (length reading) w.p).0 e))
  ]
    where
      square : length w.m2 ≡ w.p * w.p
      square = rw ep e2

      sized :
          length reading ≡ w.p
          → Safe
              (λ w'. IsSized w' p × (w'.n ≡ w.n + 1))
              (do
                delta1 ← deltas w.p reading w.mean
                mean ← update_mean w.p (fl.of_ℕ (w.n + 1)) delta1 w.mean
                delta2 ← deltas w.p reading mean
                m2 ← update_m2 w.p delta1 delta2 w.m2
                ok (record w { n = w.n + 1; mean = mean; m2 = m2 }))
      sized len =
          let q = w.p in
          let Kept : WelfordState F → Type 0 = λ w'. IsSized w' p × (w'.n ≡ w.n + 1) in
          Safe-bind (HasLength q) Kept (deltas q reading w.mean) _
            (deltas-Safe q reading w.mean len (omega arith))
            (λ d1 h1.
              Safe-bind (HasLength q) Kept (update_mean q (fl.of_ℕ (w.n + 1)) d1 w.mean) _
                (update_mean-Safe q (fl.of_ℕ (w.n + 1)) d1 w.mean h1 (omega arith))
                (λ mean hm.
                  Safe-bind (HasLength q) Kept (deltas q reading mean) _
                    (deltas-Safe q reading mean len hm)
                    (λ d2 h2.
                      Safe-bind (HasLength (q * q)) Kept (update_m2 q d1 d2 w.m2) _
                        (update_m2-Safe q d1 d2 w.m2 h1 h2 square)
                        (λ m2 h. ((ep, omega arith, rw (← ep) h), refl)))))

  -- A column of `p` values, each written to its row.
  pub column_ok :
      (p : ℕ) (xs : List F)
      → length xs ≡ p
      → Returns
          (for_range p (λ j m. do x ← index xs j; put m j 0 x) (new_matrix p 1))
          (λ m. IsShaped m p 1)
  column_ok p xs e =
      for_range_ok (λ _ m. IsShaped m p 1) p _ (new_matrix p 1)
        (λ j m l h.
          let (x, ex) = index_ok xs j (omega arith) in
          let (m', em, w) = put_ok m p 1 j 0 x h l (omega arith) in (m', rw ex em, w.0))
        (new_matrix-IsShaped F p 1)

  pub mean_matrix_ok :
      (w : WelfordState F) (p : ℕ) → IsSized w p → Returns (mean_matrix w) (λ m. IsShaped m p 1)
  unfolding mean_matrix
  mean_matrix_ok w p (ep, em, e2) = rw (← ep) (column_ok w.p w.mean (omega arith))

  pub covariance-Safe :
      (w : WelfordState F) (p : ℕ) → IsSized w p → Safe (λ m. IsShaped m p p) (covariance w)
  unfolding covariance
  covariance-Safe w p (ep, em, e2) = elim (Bool-cases (ltb w.n 2)) [
    | inl e ↦ rw e tt
    | inr e ↦
        rw (e, ← ep)
          (let square : length w.m2 ≡ w.p * w.p = rw ep e2 in
            for_cells-Safe (λ m. IsShaped m w.p w.p) w.p w.p _ (new_matrix w.p w.p)
              (λ i j t a b h.
                let c = cell_within w.p w.p i j a b in
                let q = w.p in
                Safe-bind Any (λ m. IsShaped m q q) (index w.m2 (i * q + j)) _
                  (index-Safe w.m2 (i * q + j) (omega arith))
                  (λ x _. put-Safe t q q i j (x ⊘ fl.of_ℕ (w.n - 1)) h a b))
              (new_matrix-IsShaped F w.p w.p))
  ]

pub new_welford_state-IsSized :
    (F : Type 0) ⦃fl : Float F⦄ (p : ℕ) → IsSized (new_welford_state {F = F} p) p
unfolding new_welford_state
new_welford_state-IsSized F p = (refl, length-replicate p nought, length-replicate (p * p) nought)
