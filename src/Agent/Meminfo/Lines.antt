-- ===== src/Agent/Meminfo/Lines.antt =====
-- `splitLines` and `parseUint`.
use hosa.Prelude.{
  ℕ, zero, suc, ◌+◌, ◌/◌, ◌%◌, ◌^◌, ◌<◌, ◌≡◌, refl, ◌∙◌, ap, List, [], ◌∷◌, ◌++◌, append_assoc,
  append-nil, Bytes, arith, ◌⊎◌,
}
use hosa.Strings.{emit, format_uint}
use hosa.Strings.Parts.{Lacks}
use hosa.Agent.Meminfo.{lines_from, split_lines, parse_from, parse_uint}

-- The lines, each with its newline.
abbrev pub unlines : List Bytes → Bytes
unlines [] = []
unlines (l ∷ ls) = l ++ b'\n' ∷ unlines ls

abbrev pub AllLines : List Bytes → Type 0
AllLines [] = Unit
AllLines (l ∷ ls) = Lacks b'\n' l × AllLines ls

pub lines_from_line :
    (l cur rest : Bytes)
    → Lacks b'\n' l
    → lines_from cur (l ++ b'\n' ∷ rest) ≡ (cur ++ l) ∷ lines_from [] rest
unfolding lines_from
lines_from_line [] cur rest h = rw append-nil (ground arith)
lines_from_line (c ∷ l) cur rest h =
    ground (arith, lines_from_line l (cur ++ c ∷ []) rest h.1, append_assoc cur (c ∷ []) l)

-- Lines that hold no newline, each ended by one, are split into themselves, empty lines included.
pub split_lines-unlines : (ls : List Bytes) → AllLines ls → split_lines (unlines ls) ≡ ls
unfolding split_lines
split_lines-unlines [] h = refl
split_lines-unlines (l ∷ ls) h =
    lines_from_line l [] (unlines ls) h.0 ∙ ap (λ t. l ∷ t) (split_lines-unlines ls h.1)

-- The text behind the number, where it starts with no digit.
abbrev pub NoDigit : Bytes → Type 0
NoDigit [] = Unit
NoDigit (c ∷ s) = (c < b'0') ⊎ (b'9' < c)

pub parse_stops : (n : ℕ) (rest : Bytes) → NoDigit rest → parse_from n rest ≡ n
unfolding parse_from
parse_stops n [] h = refl
parse_stops n (c ∷ s) h = ground arith

parse_from-emit :
    (f n : ℕ) (out : Bytes) → n < f → n < 2 ^ 64 → parse_from 0 (emit f n out) ≡ parse_from n out
unfolding emit parse_from
parse_from-emit zero n out h b = absurd (omega arith)
parse_from-emit (suc f) n out h b = ground (arith, parse_from-emit f (n / 10) ((48 + n % 10) ∷ out))

emit-append : (f n : ℕ) (out rest : Bytes) → emit f n out ++ rest ≡ emit f n (out ++ rest)
unfolding emit
emit-append zero n out rest = refl
emit-append (suc f) n out rest = ground (arith, emit-append f (n / 10) ((48 + n % 10) ∷ out) rest)

-- A uint64 in decimal is read back, whatever text without a leading digit follows it.
pub parse_uint-format_uint :
    (n : ℕ) (rest : Bytes) → n < 2 ^ 64 → NoDigit rest → parse_uint (format_uint n ++ rest) ≡ n
unfolding parse_uint format_uint
parse_uint-format_uint n rest b h =
    rw (emit-append (suc n) n [] rest)
      (parse_from-emit (suc n) n rest (omega arith) b ∙ parse_stops n rest h)
