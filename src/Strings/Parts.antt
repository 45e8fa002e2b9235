-- ===== src/Strings/Parts.antt =====
-- Laws of the string functions on texts without a given byte, or without white space.
use hosa.Prelude.{ℕ, ◌<◌, ◌≡◌, ◌≢◌, refl, true, false, some, [], ◌∷◌, ◌++◌, Bytes, arith}
use hosa.Strings.{is_space, trim_left, trim_right, trim_space, split, contains_byte, cut}
use hosa.Strings.Decimal.{AllDigits}

-- No byte of the text is `b`.
abbrev pub Lacks : ℕ → Bytes → Type 0
Lacks b [] = Unit
Lacks b (c ∷ s) = (c ≢ b) × Lacks b s

abbrev pub Solid : Bytes → Type 0
Solid [] = Unit
Solid (c ∷ s) = (is_space c ≡ false) × Solid s

pub Lacks-append : (b : ℕ) (s t : Bytes) → Lacks b s → Lacks b t → Lacks b (s ++ t)
Lacks-append b [] t h k = k
Lacks-append b (c ∷ s) t h k = (h.0, Lacks-append b s t h.1 k)

pub Solid-append : (s t : Bytes) → Solid s → Solid t → Solid (s ++ t)
Solid-append [] t h k = k
Solid-append (c ∷ s) t h k = (h.0, Solid-append s t h.1 k)

pub digits-Lacks : (b : ℕ) (s : Bytes) → b < 48 → AllDigits s → Lacks b s
digits-Lacks b [] h d = tt
digits-Lacks b (c ∷ s) h d = (ground arith, digits-Lacks b s h d.2)

pub digits-Solid : (s : Bytes) → AllDigits s → Solid s
digits-Solid [] d = tt
digits-Solid (c ∷ s) d = (ground arith, digits-Solid s d.2)

pub trim_right-Solid : (s : Bytes) → Solid s → trim_right s ≡ s
unfolding trim_right
trim_right-Solid [] h = refl
trim_right-Solid (c ∷ []) h = ground arith
trim_right-Solid (c ∷ d ∷ s) h = rw (trim_right-Solid (d ∷ s) h.1)

trim_left-Solid : (s : Bytes) → Solid s → trim_left s ≡ s
unfolding trim_left
trim_left-Solid [] h = refl
trim_left-Solid (c ∷ s) h = ground arith

pub trim_space-Solid : (s : Bytes) → Solid s → trim_space s ≡ s
unfolding trim_space
trim_space-Solid s h = rw (trim_left-Solid s h) (trim_right-Solid s h)

pub contains_byte-Lacks : (b : ℕ) (s : Bytes) → Lacks b s → contains_byte b s ≡ false
unfolding contains_byte
contains_byte-Lacks b [] h = refl
contains_byte-Lacks b (c ∷ s) h = ground (arith, contains_byte-Lacks b s h.1)

pub contains_byte-append : (b : ℕ) (s t : Bytes) → contains_byte b (s ++ b ∷ t) ≡ true
unfolding contains_byte
contains_byte-append b [] t = ground arith
contains_byte-append b (c ∷ s) t = ground (arith, contains_byte-append b s t)

pub cut-append : (b : ℕ) (s t : Bytes) → Lacks b s → cut b (s ++ b ∷ t) ≡ some (s, t)
unfolding cut
cut-append b [] t h = ground arith
cut-append b (c ∷ s) t h = ground (arith, cut-append b s t h.1)

pub split-Lacks : (sep : ℕ) (s : Bytes) → Lacks sep s → split sep s ≡ s ∷ []
unfolding split
split-Lacks sep [] h = refl
split-Lacks sep (c ∷ s) h = ground (arith, split-Lacks sep s h.1)

pub split-append :
    (sep : ℕ) (s t : Bytes) → Lacks sep s → split sep (s ++ sep ∷ t) ≡ s ∷ split sep t
unfolding split
split-append sep [] t h = ground arith
split-append sep (c ∷ s) t h = ground (arith, split-append sep s t h.1)
