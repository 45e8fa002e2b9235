-- ===== src/Strings/Trim.antt =====
-- Laws of white space and prefixes on texts that end in a word.
use hosa.Prelude.{ℕ, ◌≡◌, ◌≢◌, refl, true, false, [], ◌∷◌, ◌++◌, Bytes, codes, is_empty, arith}
use hosa.Strings.{is_space, trim_left, trim_right, trim_space, has_prefix}
use hosa.Strings.Parts.{Solid, trim_right-Solid}

trim_right-cons : (c : ℕ) (t : Bytes) → t ≢ [] → trim_right t ≡ t → trim_right (c ∷ t) ≡ c ∷ t
unfolding trim_right
trim_right-cons c [] ne e = absurd (ne refl)
trim_right-cons c (d ∷ t) ne e = ground (arith, e)

append-ne : (s w : Bytes) → w ≢ [] → s ++ w ≢ []
append-ne [] w ne = ne
append-ne (c ∷ s) w ne = λ e. cc

pub trim_right-append : (s w : Bytes) → Solid w → w ≢ [] → trim_right (s ++ w) ≡ s ++ w
trim_right-append [] w h ne = trim_right-Solid w h
trim_right-append (c ∷ s) w h ne =
    trim_right-cons c (s ++ w) (append-ne s w ne) (trim_right-append s w h ne)

pub trim_right-blank : (w : Bytes) → Solid w → trim_right (w ++ codes " ") ≡ w
unfolding trim_right
trim_right-blank [] h = refl
trim_right-blank (c ∷ w) h = ground (arith, trim_right-blank w h.1)

pub trim_left-word : (c : ℕ) (s : Bytes) → is_space c ≡ false → trim_left (c ∷ s) ≡ c ∷ s
unfolding trim_left
trim_left-word c s h = ground (arith, h)

-- A newline behind a word is taken off.
trim_right-newline : (w : Bytes) → Solid w → trim_right (w ++ b'\n' ∷ []) ≡ w
unfolding trim_right
trim_right-newline [] h = refl
trim_right-newline (c ∷ w) h = ground (arith, trim_right-newline w h.1)

pub trim_space-newline : (w : Bytes) → Solid w → trim_space (w ++ b'\n' ∷ []) ≡ w
unfolding trim_space trim_left trim_right
trim_space-newline [] h = refl
trim_space-newline (c ∷ w) h =
    rw (trim_left-word c (w ++ b'\n' ∷ []) h.0) (trim_right-newline (c ∷ w) h)

pub trim_space-blank : (value : Bytes) → trim_space (b' ' ∷ value) ≡ trim_space value
unfolding trim_space trim_left
trim_space-blank value = refl

pub has_prefix_first :
    (b : ℕ) (s t : Bytes)
    → s ≢ []
    → has_prefix s (b ∷ []) ≡ false
    → has_prefix (s ++ t) (b ∷ []) ≡ false
unfolding has_prefix
has_prefix_first b [] t ne h = absurd (ne refl)
has_prefix_first b (c ∷ s) t ne h = ground (arith, h)

pub is_empty-append : (s t : Bytes) → s ≢ [] → is_empty (s ++ t) ≡ false
is_empty-append [] t ne = absurd (ne refl)
is_empty-append (c ∷ s) t ne = refl

pub trim_right-head :
    (c : ℕ) (s : Bytes) → is_space c ≡ false → has_prefix (trim_right (c ∷ s)) (c ∷ []) ≡ true
unfolding trim_right has_prefix
trim_right-head c [] h = ground (arith, h)
trim_right-head c (d ∷ s) h = ground (arith, h)
