-- ===== src/Strings/Fields.antt =====
-- The fields of a text that starts with separators, or with a word that a separator ends.
use hosa.Prelude.{
  ℕ, ◌≡◌, ◌≢◌, refl, Bool, true, false, List, [], ◌∷◌, ◌++◌, append_assoc, append-nil, Bytes, ◌≤◌,
}
use hosa.Strings.{fields_by, flush_field}
use hosa.Strings.Decimal.{AllDigits}

-- Every byte of the text gets this answer.
abbrev pub Each : (ℕ → Bool) → Bool → Bytes → Type 0
Each p b [] = Unit
Each p b (c ∷ s) = (p c ≡ b) × Each p b s

pub fields_by-pad :
    (sep : ℕ → Bool) (pad s : Bytes)
    → Each sep true pad
    → fields_by sep [] (pad ++ s) ≡ fields_by sep [] s
unfolding fields_by
fields_by-pad sep [] s h = refl
fields_by-pad sep (c ∷ pad) s h = rw (h.0) (fields_by-pad sep pad s h.1)

pub fields_by-word :
    (sep : ℕ → Bool) (cur w : Bytes) (b : ℕ) (t : Bytes)
    → Each sep false w
    → sep b ≡ true
    → fields_by sep cur (w ++ b ∷ t) ≡ flush_field (cur ++ w) (fields_by sep [] t)
unfolding fields_by
fields_by-word sep cur [] b t h e = rw (e, append-nil)
fields_by-word sep cur (c ∷ w) b t h e =
    rw (h.0, fields_by-word sep (cur ++ c ∷ []) w b t h.1 e, append_assoc cur (c ∷ []) w)

pub digits-Each :
    (p : ℕ → Bool) (s : Bytes)
    → ((c : ℕ) → b'0' ≤ c → c ≤ b'9' → p c ≡ false)
    → AllDigits s
    → Each p false s
digits-Each p [] h d = tt
digits-Each p (c ∷ s) h d = (h c (d.0) (d.1), digits-Each p s h (d.2))

pub flush_field_of_ne : (w : Bytes) (fs : List Bytes) → w ≢ [] → flush_field w fs ≡ w ∷ fs
flush_field_of_ne [] fs h = absurd (h refl)
flush_field_of_ne (c ∷ w) fs h = refl
