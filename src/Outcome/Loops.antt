-- ===== src/Outcome/Loops.antt =====
-- Rules for loops that succeed, by an invariant of their rounds.
use hosa.Prelude.{ℕ, zero, suc, ◌+◌, ◌-◌, ◌≤◌, ◌<◌, ◌≡◌, refl, arith, subst}
use hosa.Outcome.{Outcome, ok, ◌>>=◌, for_from, for_range, for_between, for_cells}

-- The computation succeeds, with a result of which `P` holds.
abbrev pub Returns {ℓ κ} : {A : Type ℓ} → Outcome A → (A → Type κ) → Type (ℓ ⊔ κ)
Returns {A} m P = (a : A) × (m ≡ ok a) × P a

pub Returns-bind {ℓ κ μ ν} :
    {A : Type ℓ} {B : Type κ} (P : A → Type μ) (Q : B → Type ν) (m : Outcome A) (f : A → Outcome B)
    → Returns m P
    → ((a : A) → P a → Returns (f a) Q)
    → Returns (m >>= f) Q
Returns-bind P Q m f (a, e, p) k = let (b, e', q) = k a p in (b, rw e e', q)

for_from_ok {ℓ κ} :
    {S : Type ℓ} (P : ℕ → S → Type κ) (body : ℕ → S → Outcome S) (n i hi : ℕ) (s : S)
    → n + i ≡ hi
    → ((k : ℕ) (t : S) → i ≤ k → k < hi → P k t → Returns (body k t) (P (suc k)))
    → P i s
    → Returns (for_from n i body s) (P hi)
unfolding for_from
for_from_ok P body zero i hi s e keep h =
    let e' : i ≡ hi = omega arith in (s, refl, subst (λ k. P k s) e' h)
for_from_ok P body (suc n) i hi s e keep h =
    Returns-bind (P (suc i)) (P hi) (body i s) (for_from n (suc i) body)
      (keep i s (omega arith) (omega arith) h)
      (λ t p.
        for_from_ok P body n (suc i) hi t (omega arith) (λ k u a b. keep k u (omega arith) b) p)

pub for_range_ok {ℓ κ} :
    {S : Type ℓ} (P : ℕ → S → Type κ) (n : ℕ) (body : ℕ → S → Outcome S) (s : S)
    → ((k : ℕ) (t : S) → k < n → P k t → Returns (body k t) (P (suc k)))
    → P 0 s
    → Returns (for_range n body s) (P n)
unfolding for_range
for_range_ok P n body s keep h = for_from_ok P body n 0 n s (omega arith) (λ k t _ b. keep k t b) h

pub for_between_ok {ℓ κ} :
    {S : Type ℓ} (P : ℕ → S → Type κ) (lo hi : ℕ) (body : ℕ → S → Outcome S) (s : S)
    → lo ≤ hi
    → ((k : ℕ) (t : S) → lo ≤ k → k < hi → P k t → Returns (body k t) (P (suc k)))
    → P lo s
    → Returns (for_between lo hi body s) (P hi)
unfolding for_between
for_between_ok P lo hi body s le keep h = for_from_ok P body (hi - lo) lo hi s (omega arith) keep h

-- `P i j` holds before the round of the cell (i, j), and `P (suc i) 0` after the row `i`.
pub for_cells_ok {ℓ κ} :
    {S : Type ℓ} (P : ℕ → ℕ → S → Type κ) (rows cols : ℕ) (body : ℕ → ℕ → S → Outcome S) (s : S)
    → ((i j : ℕ) (t : S) → i < rows → j < cols → P i j t → Returns (body i j t) (P i (suc j)))
    → ((i : ℕ) (t : S) → i < rows → P i cols t → P (suc i) 0 t)
    → P 0 0 s
    → Returns (for_cells rows cols body s) (P rows 0)
unfolding for_cells
for_cells_ok P rows cols body s keep row h =
    for_range_ok (λ i. P i 0) rows _ s
      (λ i t a p.
        let (u, e, q) = for_range_ok (P i) cols (body i) t (λ j v b. keep i j v a b) p in
        (u, e, row i u a q))
      h
