-- ===== src/Brain/Welford/Columns.antt =====
-- The loops of `Update` in internal/brain/welford.go over the variables.
use hosa.Prelude.{
  ℕ, zero, suc, ◌≤◌, ◌<◌, ◌≡◌, refl, inl, inr, arith, List, length, length-set, length-replicate,
  set, replicate,
}
use hosa.Float.{Float, ◌⊕◌, ◌⊖◌, ◌⊘◌, nought}
use hosa.Outcome.{ok, ◌>>=◌}
use hosa.Outcome.Loops.{Returns, for_range_ok}
use hosa.Linalg.{index, assign}
use hosa.Linalg.Cells.{index-set_self, index-set_other, trichotomy}
use hosa.Brain.Welford.{deltas, update_mean}

module _ {F : Type 0} where
  -- The first `n` cells of the list are the values of `v`.
  abbrev pub Cells : ℕ → (ℕ → F) → List F → Type 0
  Cells n v xs = (length xs ≡ n) × ((k : ℕ) → k < n → index xs k ≡ ok (v k))

  -- A loop over the cells has come to `j`: the cells before it are new, the others old.
  abbrev Upto : ℕ → (ℕ → F) → (ℕ → F) → ℕ → List F → Type 0
  Upto n new old j xs =
      (length xs ≡ n)
      × ((k : ℕ) → k < j → index xs k ≡ ok (new k))
      × ((k : ℕ) → j ≤ k → k < n → index xs k ≡ ok (old k))

  pub assign_ok : (xs : List F) (i : ℕ) (v : F) → i < length xs → assign xs i v ≡ ok (set xs i v)
  unfolding assign
  assign_ok xs i v h = ground (arith, h)

  Upto-step :
      (n : ℕ) (new old : ℕ → F) (j : ℕ) (xs : List F)
      → j < n
      → Upto n new old j xs
      → Returns (assign xs j (new j)) (Upto n new old (suc j))
  Upto-step n new old j xs h (l, done, left) = (
    set xs j (new j),
    assign_ok xs j (new j) (omega arith),
    (
      rw (length-set xs j (new j)) l,
      λ k p. elim (trichotomy k j) [
        | inl b ↦ rw (index-set_other xs j k (new j) (λ e. omega arith)) (done k b)
        | inr (inl e) ↦ rw e (index-set_self xs j (new j) (omega arith))
        | inr (inr g) ↦ absurd (omega arith)
      ],
      λ k p q. rw (index-set_other xs j k (new j) (λ e. omega arith)) (left k (omega arith) q),
    ),
  )

  Upto-Cells : (n : ℕ) (new old : ℕ → F) (xs : List F) → Upto n new old n xs → Cells n new xs
  Upto-Cells n new old xs (l, done, left) = (l, done)

  pub index-replicate : (n k : ℕ) (a : F) → k < n → index (replicate n a) k ≡ ok a
  unfolding index
  index-replicate zero k a h = absurd (omega arith)
  index-replicate (suc n) zero a h = refl
  index-replicate (suc n) (suc k) a h = index-replicate n k a (omega arith)

module _ {F : Type 0} ⦃fl : Float F⦄ where
  pub deltas_ok :
      (p : ℕ) (reading mean : List F) (x mu : ℕ → F)
      → Cells p x reading
      → Cells p mu mean
      → Returns (deltas p reading mean) (Cells p (λ j. x j ⊖ mu j))
  unfolding deltas
  deltas_ok p reading mean x mu (lx, hx) (lm, hm) =
      let new = λ (j : ℕ). x j ⊖ mu j in
      let (d, e, u) =
        for_range_ok (Upto p new (λ _. nought)) p
          (λ j d. do x ← index reading j; mu ← index mean j; assign d j (x ⊖ mu))
          (replicate p nought)
          (λ j d l u. rw (hx j l, hm j l) (Upto-step p new (λ _. nought) j d l u))
          (
            length-replicate p nought,
            (λ k h. absurd (omega arith)),
            λ k a b. index-replicate p k nought b,
          ) in
      (d, e, Upto-Cells p new (λ _. nought) d u)

  pub update_mean_ok :
      (p : ℕ) (n : F) (delta1 mean : List F) (d mu : ℕ → F)
      → Cells p d delta1
      → Cells p mu mean
      → Returns (update_mean p n delta1 mean) (Cells p (λ j. mu j ⊕ d j ⊘ n))
  unfolding update_mean
  update_mean_ok p n delta1 mean d mu (ld, hd) (lm, hm) =
      let new = λ (j : ℕ). mu j ⊕ d j ⊘ n in
      let (t, e, u) =
        for_range_ok (Upto p new mu) p
          (λ j mean. do mu ← index mean j; d ← index delta1 j; assign mean j (mu ⊕ d ⊘ n)) mean
          (λ j t l u. rw (u.2 j (omega arith) l, hd j l) (Upto-step p new mu j t l u))
          (lm, (λ k h. absurd (omega arith)), λ k a b. hm k b) in
      (t, e, Upto-Cells p new mu t u)
