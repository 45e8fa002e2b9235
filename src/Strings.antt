-- ===== src/Strings.antt =====
-- What the code uses of Go's packages strings and strconv, over byte strings. White space is that of
-- ASCII, which is all that the files which the code reads hold.
pub mod Decimal
pub mod Parts
pub mod Trim
pub mod Fields
pub mod Path
use hosa.Prelude.{
  ℕ, zero, suc, ◌+◌, ◌-◌, ◌*◌, ◌/◌, ◌%◌, ◌^◌, Bool, true, false, ◌&&◌, ◌||◌, Option, none, some,
  List, [], ◌∷◌, ◌++◌, Bytes, codes, ltb, leb, ◌==◌, if◌then◌else◌,
}
use hosa.Prelude.Int.{ℤ, pos, negsuc, sub_ℕ}

-- strconv.Itoa and FormatUint: the digits before `out`, with fuel that exceeds the number.
unfoldable pub emit : ℕ → ℕ → Bytes → Bytes
emit zero n out = out
emit (suc f) n out =
    let rest = emit f (n / 10) ((48 + n % 10) ∷ out) in if ltb n 10 then (48 + n) ∷ out else rest

unfoldable pub format_uint : ℕ → Bytes
unfolding emit
format_uint n = emit (suc n) n []

-- strconv.Itoa and FormatInt.
unfoldable pub format_int : ℤ → Bytes
unfolding format_uint
format_int (pos n) = format_uint n
format_int (negsuc n) = b'-' ∷ format_uint (suc n)

abbrev pub is_digit : ℕ → Bool
is_digit c = leb b'0' c && leb c b'9'

-- The value of a text of digits after the digits of `acc`.
unfoldable pub scan : ℕ → Bytes → Option ℕ
scan acc [] = some acc
scan acc (c ∷ s) = let rest = scan (acc * 10 + (c - 48)) s in if is_digit c then rest else none

unfoldable pub digits_value : Bytes → Option ℕ
unfolding scan
digits_value [] = none
digits_value (c ∷ s) = scan 0 (c ∷ s)

abbrev pub at_most : ℕ → Option ℕ → Option ℕ
at_most m none = none
at_most m (some n) = if leb n m then some n else none

-- strconv.ParseUint(s, 10, 64); an error is `none`.
unfoldable pub parse_uint : Bytes → Option ℕ
unfolding digits_value
parse_uint s = at_most (2 ^ 64 - 1) (digits_value s)

abbrev pub to_pos : Option ℕ → Option ℤ
to_pos none = none
to_pos (some n) = some (pos n)

abbrev pub to_neg : Option ℕ → Option ℤ
to_neg none = none
to_neg (some n) = some (sub_ℕ 0 n)

-- strconv.Atoi for a 64-bit `int`; an error is `none`.
unfoldable pub atoi : Bytes → Option ℤ
unfolding digits_value
atoi [] = none
atoi (c ∷ s) =
    if c == b'-'
    then to_neg (at_most (2 ^ 63) (digits_value s))
    else if c == b'+'
    then to_pos (at_most (2 ^ 63 - 1) (digits_value s))
    else to_pos (at_most (2 ^ 63 - 1) (digits_value (c ∷ s)))

-- The white space of ASCII. In other texts Go also takes the white space of Unicode, such as U+0085 and
-- U+00A0, for white space; the model covers `TrimSpace` and `Fields` of ASCII texts.
abbrev pub is_space : ℕ → Bool
is_space c = c == 32 || (leb 9 c && leb c 13)

unfoldable pub trim_left : Bytes → Bytes
trim_left [] = []
trim_left (c ∷ s) = let rest = trim_left s in if is_space c then rest else c ∷ s

-- Nothing is kept of a text that is all white space.
unfoldable pub trim_right : Bytes → Bytes
trim_right [] = []
trim_right (c ∷ s) = join_space c (trim_right s)
  where
    join_space : ℕ → Bytes → Bytes
    join_space c [] = if is_space c then [] else c ∷ []
    join_space c (d ∷ r) = c ∷ d ∷ r

-- strings.TrimSpace
unfoldable pub trim_space : Bytes → Bytes
unfolding trim_left trim_right
trim_space s = trim_right (trim_left s)

abbrev pub cons_head : ℕ → List Bytes → List Bytes
cons_head c [] = (c ∷ []) ∷ []
cons_head c (p ∷ ps) = (c ∷ p) ∷ ps

-- strings.Split by one byte: at least one part.
unfoldable pub split : ℕ → Bytes → List Bytes
split sep [] = [] ∷ []
split sep (c ∷ s) = let rest = split sep s in if c == sep then [] ∷ rest else cons_head c rest

-- strings.Contains of one byte.
unfoldable pub contains_byte : ℕ → Bytes → Bool
contains_byte b [] = false
contains_byte b (c ∷ s) = c == b || contains_byte b s

-- strings.SplitN(s, sep, 2) where `sep` occurs: what stands before the first one, and after it.
unfoldable pub cut : ℕ → Bytes → Option (Bytes × Bytes)
cut sep [] = none
cut sep (c ∷ s) = if c == sep then some ([], s) else cons_fst c (cut sep s)
  where
    cons_fst : ℕ → Option (Bytes × Bytes) → Option (Bytes × Bytes)
    cons_fst c none = none
    cons_fst c (some (a, b)) = some (c ∷ a, b)

-- strings.HasPrefix
unfoldable pub has_prefix : Bytes → Bytes → Bool
has_prefix s [] = true
has_prefix [] (p ∷ ps) = false
has_prefix (c ∷ s) (p ∷ ps) = c == p && has_prefix s ps

-- What stands behind the last byte `b`: s[strings.LastIndex(s, b)+1:], if `b` occurs.
unfoldable pub after_last : ℕ → Bytes → Option Bytes
after_last b [] = none
after_last b (c ∷ s) = or_here (after_last b s) (c == b) s
  where
    or_here : Option Bytes → Bool → Bytes → Option Bytes
    or_here (some t) here s = some t
    or_here none here s = if here then some s else none

-- strings.Index, with a pattern that is not empty.
unfoldable pub index_of : Bytes → Bytes → Option ℕ
unfolding has_prefix
index_of pat [] = none
index_of pat (c ∷ s) = if has_prefix (c ∷ s) pat then some 0 else later (index_of pat s)
  where
    later : Option ℕ → Option ℕ
    later none = none
    later (some n) = some (suc n)

-- The field that is being read, and the fields behind it.
abbrev pub flush_field : Bytes → List Bytes → List Bytes
flush_field [] fs = fs
flush_field (c ∷ s) fs = (c ∷ s) ∷ fs

-- The fields of a text behind the field `cur` that is being read: runs of bytes that no separator
-- interrupts.
unfoldable pub fields_by : (ℕ → Bool) → Bytes → Bytes → List Bytes
fields_by sep cur [] = flush_field cur []
fields_by sep cur (c ∷ s) =
    let ends = flush_field cur (fields_by sep [] s) in
    let goes_on = fields_by sep (cur ++ c ∷ []) s in if sep c then ends else goes_on

-- strings.Fields
unfoldable pub fields : Bytes → List Bytes
unfolding fields_by
fields s = fields_by is_space [] s
