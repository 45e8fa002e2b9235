-- ===== src/Linalg/Cells.antt =====
-- The cells of a matrix of internal/linalg: reads and writes within its shape, and the loop that fills it.
use hosa.Prelude.{
  ℕ, zero, suc, ◌+◌, ◌*◌, ◌≤◌, ◌<◌, ◌≡◌, ◌≢◌, refl, ap, ◌⊎◌, inl, inr, List, [], ◌∷◌, arith, length,
  length-set, set, length-replicate,
}
use hosa.Float.{Float, nought}
use hosa.Outcome.{Outcome, ok, ◌>>=◌, for_cells}
use hosa.Outcome.Loops.{Returns, for_cells_ok}
use hosa.Linalg.{Matrix, index, assign, new_matrix, get, put}

-- A matrix of `r` rows and `c` columns, with a cell for each pair.
abbrev pub IsShaped : {F : Type 0} → Matrix F → ℕ → ℕ → Type 0
IsShaped m r c = (m.rows ≡ r) × (m.cols ≡ c) × (length m.cells ≡ r * c)

pub mul_mono : (a b c : ℕ) → a ≤ b → a * c ≤ b * c
mul_mono zero b c h = omega arith
mul_mono (suc a) zero c h = omega arith
mul_mono (suc a) (suc b) c h = omega (arith, mul_mono a b c (omega arith))

pub cell_within : (r c i j : ℕ) → i < r → j < c → i * c + j < r * c
cell_within r c i j a b = omega (arith, mul_mono (suc i) r c (omega arith))

pub trichotomy : (a b : ℕ) → (a < b) ⊎ ((a ≡ b) ⊎ (b < a))
trichotomy a b = omega arith

pub here_or_before :
    (i j i' j' : ℕ)
    → ((i' < i) ⊎ ((i' ≡ i) × (j' < suc j)))
    → ((i ≡ i') × (j ≡ j')) ⊎ (((i' < i) ⊎ ((i' ≡ i) × (j' < j))) × (¬ ((i ≡ i') × (j ≡ j'))))
here_or_before i j i' j' (inl l) = inr (inl l, λ (e, e'). omega arith)
here_or_before i j i' j' (inr (e, l)) = elim (trichotomy j' j) [
  | inl l' ↦ inr (inr (e, l'), λ (e1, e2). omega arith)
  | inr (inl e') ↦ inl (omega arith, omega arith)
  | inr (inr g) ↦ absurd (omega arith)
]

cell_order : (c i j i' j' : ℕ) → j < c → i < i' → i * c + j < i' * c + j'
cell_order c i j i' j' a h = omega (arith, mul_mono (suc i) i' c h)

pub cell_apart : (c i j i' j' : ℕ) → j < c → j' < c → i * c + j ≡ i' * c + j' → (i ≡ i') × (j ≡ j')
cell_apart c i j i' j' a b e = elim (trichotomy i i') [
  | inl l ↦ absurd (omega (arith, cell_order c i j i' j' a l))
  | inr (inl eq) ↦ (eq, omega (arith, ap (λ x. x * c + j) eq))
  | inr (inr g) ↦ absurd (omega (arith, cell_order c i' j' i j b g))
]

module _ {F : Type 0} where
  pub index_ok : (xs : List F) (i : ℕ) → i < length xs → (x : F) × (index xs i ≡ ok x)
  unfolding index
  index_ok [] i h = absurd (omega arith)
  index_ok (x ∷ xs) zero h = (x, refl)
  index_ok (x ∷ xs) (suc i) h = index_ok xs i (omega arith)

  pub index-set_self : (xs : List F) (i : ℕ) (v : F) → i < length xs → index (set xs i v) i ≡ ok v
  unfolding index
  index-set_self [] i v h = absurd (omega arith)
  index-set_self (x ∷ xs) zero v h = refl
  index-set_self (x ∷ xs) (suc i) v h = index-set_self xs i v (omega arith)

  pub index-set_other : (xs : List F) (i k : ℕ) (v : F) → i ≢ k → index (set xs i v) k ≡ index xs k
  unfolding index
  index-set_other [] i k v h = refl
  index-set_other (x ∷ xs) zero zero v h = absurd (h refl)
  index-set_other (x ∷ xs) zero (suc k) v h = refl
  index-set_other (x ∷ xs) (suc i) zero v h = refl
  index-set_other (x ∷ xs) (suc i) (suc k) v h = index-set_other xs i k v (λ e. h (omega arith))

  pub get_ok :
      (m : Matrix F) (r c i j : ℕ) → IsShaped m r c → i < r → j < c → (x : F) × (get m i j ≡ ok x)
  unfolding get
  get_ok m r c i j (er, ec, el) a b =
      index_ok m.cells (i * m.cols + j) (rw (ec, el) (cell_within r c i j a b))

  -- What a write within the shape leaves.
  abbrev pub Wrote : Matrix F → ℕ → ℕ → ℕ → ℕ → F → Matrix F → Type 0
  Wrote m r c i j v m' =
      IsShaped m' r c
      × (get m' i j ≡ ok v)
      × ((i' j' : ℕ) → j' < c → ¬ ((i ≡ i') × (j ≡ j')) → get m' i' j' ≡ get m i' j')

  pub put_ok :
      (m : Matrix F) (r c i j : ℕ) (v : F)
      → IsShaped m r c
      → i < r
      → j < c
      → Returns (put m i j v) (Wrote m r c i j v)
  unfolding put assign get
  put_ok m r c i j v (er, ec, el) a b =
      let w : i * m.cols + j < length m.cells = rw (ec, el) (cell_within r c i j a b) in
      (
        record m { cells = set m.cells (i * m.cols + j) v },
        ground (arith),
        (
          (er, ec, rw (length-set m.cells (i * m.cols + j) v) el),
          index-set_self m.cells (i * m.cols + j) v w,
          λ i' j' b' ne.
              index-set_other m.cells (i * m.cols + j) (i' * m.cols + j') v
                (λ e. ne (cell_apart c i j i' j' b b' (rw (← ec) e))),
        ),
      )

  -- The cells before (i, j), row by row, hold `v`.
  abbrev pub FilledTo : ℕ → ℕ → (ℕ → ℕ → F) → ℕ → ℕ → Matrix F → Type 0
  FilledTo r c v i j m =
      IsShaped m r c
      × ((i' j' : ℕ)
          → i' < r
          → j' < c
          → ((i' < i) ⊎ ((i' ≡ i) × (j' < j)))
          → get m i' j' ≡ ok (v i' j'))

  abbrev pub Holds : ℕ → ℕ → (ℕ → ℕ → F) → Matrix F → Type 0
  Holds r c v m = IsShaped m r c × ((i j : ℕ) → i < r → j < c → get m i j ≡ ok (v i j))

  filled_next :
      (r c : ℕ) (v : ℕ → ℕ → F) (i j : ℕ) (m m' : Matrix F)
      → FilledTo r c v i j m
      → Wrote m r c i j (v i j) m'
      → FilledTo r c v i (suc j) m'
  filled_next r c v i j m m' (sh, old) (sh', now, others) = (
    sh',
    λ i' j' a b t. elim (here_or_before i j i' j' t) [
      | inl (ei, ej) ↦ rw (← ei, ← ej) now
      | inr (u, ne) ↦ rw (others i' j' b ne) (old i' j' a b u)
    ],
  )

  -- A loop whose round writes its cell, with a value that does not depend on the table.
  pub write_cells_ok :
      (r c : ℕ) (v : ℕ → ℕ → F) (body : ℕ → ℕ → Matrix F → Outcome (Matrix F)) (m : Matrix F)
      → ((i j : ℕ) (t : Matrix F) → i < r → j < c → body i j t ≡ put t i j (v i j))
      → IsShaped m r c
      → Returns (for_cells r c body m) (Holds r c v)
  write_cells_ok r c v body m h sh =
      let (m', e, (s', f)) =
        for_cells_ok (FilledTo r c v) r c body m
          (λ i j t p q w.
            let (t', e, wr) = put_ok t r c i j (v i j) w.0 p q in
            (t', rw (h i j t p q) e, filled_next r c v i j t t' w wr))
          (λ i t p w. (w.0, λ i' j' a b u. w.1 i' j' a b (omega arith)))
          (sh, λ i' j' a b u. absurd (omega arith)) in
      (m', e, (s', λ i j p q. f i j p q (inl p)))

  pub fill_ok :
      (r c : ℕ) (v : ℕ → ℕ → F) (a : ℕ → ℕ → Outcome F) (m : Matrix F)
      → ((i j : ℕ) → i < r → j < c → a i j ≡ ok (v i j))
      → IsShaped m r c
      → Returns (for_cells r c (λ i j t. do x ← a i j; put t i j x) m) (Holds r c v)
  fill_ok r c v a m h sh =
      write_cells_ok r c v (λ i j t. do x ← a i j; put t i j x) m (λ i j t p q. rw (h i j p q) refl)
        sh

pub new_matrix-IsShaped :
    (F : Type 0) ⦃fl : Float F⦄ (r c : ℕ) → IsShaped (new_matrix {F = F} r c) r c
unfolding new_matrix
new_matrix-IsShaped F r c = (refl, refl, length-replicate (r * c) nought)
