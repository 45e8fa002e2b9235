-- ===== src/Outcome/Partly.antt =====
-- Rules for computations that return, or panic under a condition that is known.
use hosa.Outcome.{Outcome, ok, err, panic, ◌>>=◌}
use hosa.Outcome.Loops.{Returns}

-- No error; `P` of the result; and a panic only where `Q` holds.
abbrev pub ReturnsOr : {A : Type 0} → (A → Type 0) → Type 0 → Outcome A → Type 0
ReturnsOr P Q (ok a) = P a
ReturnsOr P Q (err e) = ⊥
ReturnsOr P Q panic = Q

pub ReturnsOr-bind :
    {A B : Type 0} (P : A → Type 0) (R : B → Type 0) (Q : Type 0) (m : Outcome A)
    (f : A → Outcome B)
    → ReturnsOr P Q m
    → ((a : A) → P a → ReturnsOr R Q (f a))
    → ReturnsOr R Q (m >>= f)
ReturnsOr-bind P R Q (ok a) f h k = k a h
ReturnsOr-bind P R Q (err e) f h k = absurd h
ReturnsOr-bind P R Q panic f h k = h

pub ReturnsOr-map :
    {A : Type 0} (P P' : A → Type 0) (Q Q' : Type 0) (m : Outcome A)
    → ((a : A) → P a → P' a)
    → (Q → Q')
    → ReturnsOr P Q m
    → ReturnsOr P' Q' m
ReturnsOr-map P P' Q Q' (ok a) f g h = f a h
ReturnsOr-map P P' Q Q' (err e) f g h = h
ReturnsOr-map P P' Q Q' panic f g h = g h

pub Returns-then :
    {A B : Type 0} (P : A → Type 0) (R : B → Type 0) (Q : Type 0) (m : Outcome A)
    (f : A → Outcome B)
    → Returns m P
    → ((a : A) → P a → ReturnsOr R Q (f a))
    → ReturnsOr R Q (m >>= f)
Returns-then P R Q m f (a, e, p) k = rw e (k a p)
