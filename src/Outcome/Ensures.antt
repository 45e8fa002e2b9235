-- ===== src/Outcome/Ensures.antt =====
-- Rules for what holds of a result, if there is one: an error and a panic are allowed.
use hosa.Prelude.{◌≡◌, subst, Bool, true, false, if◌then◌else◌}
use hosa.Outcome.{Outcome, ok, err, panic, ◌>>=◌}

abbrev pub Ensures : {A : Type 0} → (A → Type 0) → Outcome A → Type 0
Ensures P (ok a) = P a
Ensures P (err e) = Unit
Ensures P panic = Unit

pub Ensures-bind :
    {A B : Type 0} (P : A → Type 0) (Q : B → Type 0) (m : Outcome A) (f : A → Outcome B)
    → Ensures P m
    → ((a : A) → P a → Ensures Q (f a))
    → Ensures Q (m >>= f)
Ensures-bind P Q (ok a) f s k = k a s
Ensures-bind P Q (err e) f s k = tt
Ensures-bind P Q panic f s k = tt

-- The same, where nothing is asked of the first result.
pub Ensures-then :
    {A B : Type 0} (Q : B → Type 0) (m : Outcome A) (f : A → Outcome B)
    → ((a : A) → Ensures Q (f a))
    → Ensures Q (m >>= f)
Ensures-then Q (ok a) f k = k a
Ensures-then Q (err e) f k = tt
Ensures-then Q panic f k = tt

pub Ensures-ok :
    {A : Type 0} (P : A → Type 0) (m : Outcome A) (a : A) → Ensures P m → m ≡ ok a → P a
Ensures-ok P m a h e = let h' : Ensures P (ok a) = subst (Ensures P) e h in h'

pub Ensures-if :
    {A : Type 0} (P : A → Type 0) (b : Bool) (m n : Outcome A)
    → Ensures P m
    → Ensures P n
    → Ensures P (if b then m else n)
Ensures-if P true m n h k = h
Ensures-if P false m n h k = k
