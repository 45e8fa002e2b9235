-- ===== src/Brain/Welford/Cells.antt =====
-- What `Update` of internal/brain/welford.go leaves in each cell.
use hosa.Prelude.{
  ℕ, suc, ◌+◌, ◌*◌, ◌≤◌, ◌<◌, ◌≡◌, refl, ◌⊎◌, inl, inr, arith, List, length, length-set, set, ◌==◌,
  ==_iff, true,
}
use hosa.Float.{Float, ◌⊕◌, ◌⊖◌, ◌⊗◌, ◌⊘◌}
use hosa.Outcome.{ok, ◌>>=◌}
use hosa.Outcome.Loops.{Returns, for_cells_ok}
use hosa.Linalg.{index, assign}
use hosa.Linalg.Cells.{
  index-set_self, index-set_other, cell_within, cell_apart, trichotomy, here_or_before,
}
use hosa.Brain.Welford.{WelfordState, update_m2, update}
use hosa.Brain.Welford.Columns.{Cells, assign_ok, deltas_ok, update_mean_ok}

-- The cell (i', j') comes before the cell (i, j), row by row, or not.
abbrev Before : ℕ → ℕ → ℕ → ℕ → Type 0
Before i' j' i j = (i' < i) ⊎ ((i' ≡ i) × (j' < j))

abbrev NotBefore : ℕ → ℕ → ℕ → ℕ → Type 0
NotBefore i' j' i j = (i < i') ⊎ ((i' ≡ i) × (j ≤ j'))

passed : (i j i' j' : ℕ) → NotBefore i' j' i (suc j) → ¬ ((i ≡ i') × (j ≡ j'))
passed i j i' j' (inl h) (e, e') = omega arith
passed i j i' j' (inr (h, l)) (e, e') = omega arith

still_ahead : (i j i' j' : ℕ) → NotBefore i' j' i (suc j) → NotBefore i' j' i j
still_ahead i j i' j' (inl h) = inl h
still_ahead i j i' j' (inr (h, l)) = inr (h, omega arith)

row_done : (p i i' j' : ℕ) → j' < p → Before i' j' (suc i) 0 → Before i' j' i p
row_done p i i' j' h (inl l) = elim (trichotomy i' i) [
  | inl l' ↦ inl l'
  | inr (inl e) ↦ inr (e, h)
  | inr (inr g) ↦ absurd (omega arith)
]
row_done p i i' j' h (inr (e, l)) = absurd (omega arith)

row_ahead : (p i i' j' : ℕ) → j' < p → NotBefore i' j' (suc i) 0 → NotBefore i' j' i p
row_ahead p i i' j' h (inl l) = inl (omega arith)
row_ahead p i i' j' h (inr (e, l)) = inl (omega arith)

module _ {F : Type 0} where
  -- The cells of a square of `p` rows are the values of `c`.
  abbrev pub Square : ℕ → (ℕ → ℕ → F) → List F → Type 0
  Square p c xs =
      (length xs ≡ p * p) × ((i j : ℕ) → i < p → j < p → index xs (i * p + j) ≡ ok (c i j))

  abbrev UptoCell : ℕ → (ℕ → ℕ → F) → (ℕ → ℕ → F) → ℕ → ℕ → List F → Type 0
  UptoCell p new old i j xs =
      (length xs ≡ p * p)
      × ((i' j' : ℕ) → i' < p → j' < p → Before i' j' i j → index xs (i' * p + j') ≡ ok (new i' j'))
      × ((i' j' : ℕ)
          → i' < p
          → j' < p
          → NotBefore i' j' i j
          → index xs (i' * p + j') ≡ ok (old i' j'))

  other_cell :
      (p i j i' j' : ℕ) (v : F) (xs : List F)
      → j < p
      → j' < p
      → ¬ ((i ≡ i') × (j ≡ j'))
      → index (set xs (i * p + j) v) (i' * p + j') ≡ index xs (i' * p + j')
  other_cell p i j i' j' v xs a b ne =
      index-set_other xs (i * p + j) (i' * p + j') v (λ e. ne (cell_apart p i j i' j' a b e))

  UptoCell-step :
      (p : ℕ) (new old : ℕ → ℕ → F) (i j : ℕ) (xs : List F)
      → i < p
      → j < p
      → UptoCell p new old i j xs
      → Returns (assign xs (i * p + j) (new i j)) (UptoCell p new old i (suc j))
  UptoCell-step p new old i j xs a b (l, done, left) =
      let w : i * p + j < length xs = rw l (cell_within p p i j a b) in
      (
        set xs (i * p + j) (new i j),
        assign_ok xs (i * p + j) (new i j) w,
        (
          rw (length-set xs (i * p + j) (new i j)) l,
          λ i' j' a' b' t. elim (here_or_before i j i' j' t) [
            | inl (ei, ej) ↦ rw (← ei, ← ej) (index-set_self xs (i * p + j) (new i j) w)
            | inr (u, ne) ↦ rw (other_cell p i j i' j' (new i j) xs b b' ne) (done i' j' a' b' u)
          ],
          λ i' j' a' b' t.
              rw (other_cell p i j i' j' (new i j) xs b b' (passed i j i' j' t))
                (left i' j' a' b' (still_ahead i j i' j' t)),
        ),
      )

module _ {F : Type 0} ⦃fl : Float F⦄ where
  update_m2_ok :
      (p : ℕ) (delta1 delta2 m2 : List F) (d1 d2 : ℕ → F) (c : ℕ → ℕ → F)
      → Cells p d1 delta1
      → Cells p d2 delta2
      → Square p c m2
      → Returns (update_m2 p delta1 delta2 m2) (Square p (λ i j. c i j ⊕ d1 i ⊗ d2 j))
  unfolding update_m2
  update_m2_ok p delta1 delta2 m2 d1 d2 c (l1, h1) (l2, h2) (lc, hc) =
      let new = λ (i j : ℕ). c i j ⊕ d1 i ⊗ d2 j in
      let (t, e, u) =
        for_cells_ok (UptoCell p new c) p p
          (λ i j m2. do
            old ← index m2 (i * p + j)
            d1 ← index delta1 i
            d2 ← index delta2 j
            assign m2 (i * p + j) (old ⊕ d1 ⊗ d2))
          m2
          (λ i j t a b u.
            rw (u.2 i j a b (inr (refl, omega arith)), h1 i a, h2 j b)
              (UptoCell-step p new c i j t a b u))
          (λ i t a u. (
            u.0,
            (λ i' j' a' b' s. u.1 i' j' a' b' (row_done p i i' j' b' s)),
            λ i' j' a' b' s. u.2 i' j' a' b' (row_ahead p i i' j' b' s),
          ))
          (lc, (λ i' j' a' b' s. absurd (omega arith)), λ i' j' a' b' s. hc i' j' a' b') in
      (t, e, (u.0, λ i j a b. u.1 i j a b (inl a)))

  -- The state after `n` readings of `p` variables, cell by cell.
  abbrev pub Reads : ℕ → ℕ → (ℕ → F) → (ℕ → ℕ → F) → WelfordState F → Type 0
  Reads p n mu c w = (w.p ≡ p) × (w.n ≡ n) × Cells p mu w.mean × Square p c w.m2

  abbrev pub next_mean : ℕ → (ℕ → F) → (ℕ → F) → ℕ → F
  next_mean n x mu j = mu j ⊕ (x j ⊖ mu j) ⊘ fl.of_ℕ (n + 1)

  abbrev pub next_m2 : ℕ → (ℕ → F) → (ℕ → F) → (ℕ → ℕ → F) → ℕ → ℕ → F
  next_m2 n x mu c i j = c i j ⊕ (x i ⊖ mu i) ⊗ (x j ⊖ next_mean n x mu j)

  pub update-Reads :
      (p n : ℕ) (reading : List F) (x mu : ℕ → F) (c : ℕ → ℕ → F) (w : WelfordState F)
      → Cells p x reading
      → Reads p n mu c w
      → Returns (update w reading) (Reads p (n + 1) (next_mean n x mu) (next_m2 n x mu c))
  unfolding update
  update-Reads p n reading x mu c w hx (ep, en, hm, hc) =
      let fits : (length reading == p) ≡ true = (==_iff (length reading) p).1 (hx.0) in
      let (d1, e1, h1) = deltas_ok p reading w.mean x mu hx hm in
      let (mean, e2, h2) =
        update_mean_ok p (fl.of_ℕ (n + 1)) d1 w.mean (λ j. x j ⊖ mu j) mu h1 hm in
      let (d2, e3, h3) = deltas_ok p reading mean x (next_mean n x mu) hx h2 in
      let (m2, e4, h4) =
        update_m2_ok p d1 d2 w.m2 (λ j. x j ⊖ mu j) (λ j. x j ⊖ next_mean n x mu j) c h1 h3 hc in
      (
        record w { n = n + 1; mean = mean; m2 = m2 },
        rw (ep, en, fits, e1, e2, e3, e4) refl,
        (ep, refl, h2, h4),
      )
