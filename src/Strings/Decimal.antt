-- ===== src/Strings/Decimal.antt =====
-- Decimal texts, printed and read.
use hosa.Prelude.{
  ℕ, zero, suc, ◌+◌, ◌-◌, ◌/◌, ◌%◌, ◌^◌, ◌≤◌, ◌<◌, ◌≡◌, ◌≢◌, refl, some, [], ◌∷◌, Bytes, arith,
}
use hosa.Prelude.Int.{pos}
use hosa.Strings.{emit, format_uint, scan, digits_value, parse_uint, atoi, at_most, to_pos}

scan-emit : (f n : ℕ) (out : Bytes) → n < f → scan 0 (emit f n out) ≡ scan n out
unfolding emit scan
scan-emit zero n out h = absurd (omega arith)
scan-emit (suc f) n out h = ground (arith, scan-emit f (n / 10) ((48 + n % 10) ∷ out))

-- The text holds digits only, and at least one.
abbrev pub AllDigits : Bytes → Type 0
AllDigits [] = Unit
AllDigits (c ∷ s) = (b'0' ≤ c) × (c ≤ b'9') × AllDigits s

emit-AllDigits : (f n : ℕ) (out : Bytes) → AllDigits out → AllDigits (emit f n out)
unfolding emit
emit-AllDigits zero n out h = h
emit-AllDigits (suc f) n out h = ground (arith, emit-AllDigits f (n / 10) ((48 + n % 10) ∷ out))

emit-ne-nil : (f n : ℕ) (out : Bytes) → n < f → emit f n out ≢ []
unfolding emit
emit-ne-nil zero n out h = absurd (omega arith)
emit-ne-nil (suc f) n out h = ground (arith, emit-ne-nil f (n / 10) ((48 + n % 10) ∷ out))

pub format_uint-AllDigits : (n : ℕ) → AllDigits (format_uint n)
unfolding format_uint
format_uint-AllDigits n = emit-AllDigits (suc n) n [] tt

pub format_uint-ne-nil : (n : ℕ) → format_uint n ≢ []
unfolding format_uint
format_uint-ne-nil n = emit-ne-nil (suc n) n [] (omega arith)

digits_value_of_ne : (s : Bytes) → s ≢ [] → digits_value s ≡ scan 0 s
unfolding digits_value
digits_value_of_ne [] h = absurd (h refl)
digits_value_of_ne (c ∷ s) h = refl

pub digits_value-format_uint : (n : ℕ) → digits_value (format_uint n) ≡ some n
digits_value-format_uint n =
    rw (digits_value_of_ne (format_uint n) (format_uint-ne-nil n))
      (unfold format_uint scan in scan-emit (suc n) n [] (omega arith))

atoi_of_digits : (s : Bytes) → AllDigits s → atoi s ≡ to_pos (at_most (2 ^ 63 - 1) (digits_value s))
unfolding atoi digits_value
atoi_of_digits [] d = refl
atoi_of_digits (c ∷ s) d = ground arith

-- strconv.Atoi reads back every number of an `int` that strconv.Itoa prints.
pub atoi-format_uint : (n : ℕ) → n < 2 ^ 63 → atoi (format_uint n) ≡ some (pos n)
atoi-format_uint n h =
    rw (atoi_of_digits (format_uint n) (format_uint-AllDigits n), digits_value-format_uint n)
      (ground arith)

pub parse_uint-format_uint : (n : ℕ) → n < 2 ^ 64 → parse_uint (format_uint n) ≡ some n
parse_uint-format_uint n h = unfold parse_uint in rw (digits_value-format_uint n) (ground arith)
