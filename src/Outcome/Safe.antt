-- ===== src/Outcome/Safe.antt =====
-- Rules for computations that may return an error but do not panic.
use hosa.Prelude.{ℕ, zero, suc, ◌+◌, ◌-◌, ◌≤◌, ◌<◌, ◌≡◌, arith}
use hosa.Outcome.{Outcome, ok, err, panic, ◌>>=◌, for_from, for_range, for_between, for_cells}
use hosa.Outcome.Loops.{Returns}

-- No panic, and `P` of the result, if there is one.
abbrev pub Safe : {A : Type 0} → (A → Type 0) → Outcome A → Type 0
Safe P (ok a) = P a
Safe P (err e) = Unit
Safe P panic = ⊥

-- Any result.
abbrev pub Any : {A : Type 0} → A → Type 0
Any a = Unit

pub Returns-Safe : {A : Type 0} (P : A → Type 0) (m : Outcome A) → Returns m P → Safe P m
Returns-Safe P m (a, e, p) = rw e p

pub ok-Safe : {A : Type 0} (m : Outcome A) → (a : A) × (m ≡ ok a) → Safe Any m
ok-Safe m (a, e) = rw e tt

pub Safe-bind :
    {A B : Type 0} (P : A → Type 0) (Q : B → Type 0) (m : Outcome A) (f : A → Outcome B)
    → Safe P m
    → ((a : A) → P a → Safe Q (f a))
    → Safe Q (m >>= f)
Safe-bind P Q (ok a) f s k = k a s
Safe-bind P Q (err e) f s k = tt
Safe-bind P Q panic f s k = s

for_from-Safe :
    {S : Type 0} (P : S → Type 0) (body : ℕ → S → Outcome S) (n i hi : ℕ) (s : S)
    → n + i ≡ hi
    → ((k : ℕ) (t : S) → i ≤ k → k < hi → P t → Safe P (body k t))
    → P s
    → Safe P (for_from n i body s)
unfolding for_from
for_from-Safe P body zero i hi s e keep h = h
for_from-Safe P body (suc n) i hi s e keep h =
    Safe-bind P P (body i s) (for_from n (suc i) body) (keep i s (omega arith) (omega arith) h)
      (λ t p.
        for_from-Safe P body n (suc i) hi t (omega arith) (λ k u a b. keep k u (omega arith) b) p)

-- An invariant of every round, for the rounds below `n`.
pub for_range-Safe :
    {S : Type 0} (P : S → Type 0) (n : ℕ) (body : ℕ → S → Outcome S) (s : S)
    → ((k : ℕ) (t : S) → k < n → P t → Safe P (body k t))
    → P s
    → Safe P (for_range n body s)
unfolding for_range
for_range-Safe P n body s keep h =
    for_from-Safe P body n 0 n s (omega arith) (λ k t _ b. keep k t b) h

pub for_between-Safe :
    {S : Type 0} (P : S → Type 0) (lo hi : ℕ) (body : ℕ → S → Outcome S) (s : S)
    → lo ≤ hi
    → ((k : ℕ) (t : S) → k < hi → P t → Safe P (body k t))
    → P s
    → Safe P (for_between lo hi body s)
unfolding for_between
for_between-Safe P lo hi body s le keep h =
    for_from-Safe P body (hi - lo) lo hi s (omega arith) (λ k t _ b. keep k t b) h

pub for_cells-Safe :
    {S : Type 0} (P : S → Type 0) (rows cols : ℕ) (body : ℕ → ℕ → S → Outcome S) (s : S)
    → ((i j : ℕ) (t : S) → i < rows → j < cols → P t → Safe P (body i j t))
    → P s
    → Safe P (for_cells rows cols body s)
unfolding for_cells
for_cells-Safe P rows cols body s keep h =
    for_range-Safe P rows _ s
      (λ i t a p. for_range-Safe P cols (body i) t (λ j u b q. keep i j u a b q) p) h
