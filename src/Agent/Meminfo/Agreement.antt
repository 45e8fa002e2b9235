-- ===== src/Agent/Meminfo/Agreement.antt =====
-- The two readers of /proc/meminfo: `readMemTotal` of cmd/hosa/main.go and `readMemTotalBytes` of
-- internal/sensor/proprioception.go.
use hosa.Prelude.{
  ℕ, suc, ◌*◌, ◌%◌, ◌^◌, ◌≤◌, ◌<◌, ◌≡◌, refl, sym, append-nil, Bool, true, false, some, List, [],
  ◌∷◌, ◌++◌, ◌∙◌, ap, Bytes, codes, arith, ltb, length, replicate, zero,
}
use hosa.Strings.{format_uint, fields_by, fields, is_space, has_prefix, split}
use hosa.Strings.Decimal.{AllDigits, format_uint-AllDigits, format_uint-ne-nil}
use hosa.Strings.Decimal
use hosa.Strings.Parts.{Lacks, Lacks-append, digits-Lacks, split-append}
use hosa.Strings.Fields.{Each, fields_by-pad, fields_by-word, digits-Each, flush_field_of_ne}
use hosa.Sensor.Discovery.{find_mem_total, read_mem_total_bytes}
use hosa.Agent.Meminfo.{
  is_blank, split_lines, split_fields, parse_uint, find_total, read_mem_total, lines_from,
}
use hosa.Agent.Meminfo.Lines.{lines_from_line, parse_uint-format_uint}

-- The line of the kernel, with `blanks` spaces and one more before the number.
abbrev pub mem_total_line : ℕ → ℕ → Bytes
mem_total_line blanks n =
    codes "MemTotal:" ++ (b' ' ∷ (replicate blanks b' ' ++ (format_uint n ++ codes " kB")))

blanks-Each : (p : ℕ → Bool) (k : ℕ) → p b' ' ≡ true → Each p true (replicate k b' ')
blanks-Each p zero h = tt
blanks-Each p (suc k) h = (h, blanks-Each p k h)

blanks-Lacks : (k : ℕ) → Lacks b'\n' (replicate k b' ')
blanks-Lacks zero = tt
blanks-Lacks (suc k) = (omega arith, blanks-Lacks k)

number_fields :
    (sep : ℕ → Bool) (k n : ℕ)
    → sep b' ' ≡ true
    → ((c : ℕ) → b'0' ≤ c → c ≤ b'9' → sep c ≡ false)
    → fields_by sep [] (replicate k b' ' ++ (format_uint n ++ codes " kB"))
      ≡ format_uint n ∷ fields_by sep [] (codes "kB")
number_fields sep k n e h =
    fields_by-pad sep (replicate k b' ') (format_uint n ++ codes " kB") (blanks-Each sep k e)
    ∙ (fields_by-word sep [] (format_uint n) b' ' (codes "kB")
          (digits-Each sep (format_uint n) h (format_uint-AllDigits n)) e
        ∙ flush_field_of_ne (format_uint n) _ (format_uint-ne-nil n))

mem_total_line-Lacks : (k n : ℕ) → Lacks b'\n' (mem_total_line k n)
mem_total_line-Lacks k n =
    Lacks-append b'\n' (codes "MemTotal:")
      (b' ' ∷ (replicate k b' ' ++ (format_uint n ++ codes " kB"))) (ground arith)
      (
        omega arith,
        Lacks-append b'\n' (replicate k b' ') (format_uint n ++ codes " kB") (blanks-Lacks k) (
            Lacks-append b'\n' (format_uint n) (codes " kB")
              (digits-Lacks b'\n' (format_uint n) (omega arith) (format_uint-AllDigits n))
              (ground arith)),
      )

parse_uint_number : (n : ℕ) → n < 2 ^ 64 → parse_uint (format_uint n) ≡ n
parse_uint_number n h =
    sym (ap parse_uint (append-nil (format_uint n))) ∙ parse_uint-format_uint n [] h tt

find_total_first :
    (k n : ℕ) (lines : List Bytes)
    → n < 2 ^ 64
    → find_total (mem_total_line k n ∷ lines) ≡ some ((n * 1024) % 2 ^ 64)
unfolding find_total split_fields has_prefix
find_total_first k n lines h =
    let long : ltb 9 (length (mem_total_line k n)) ≡ true = ground arith in
    rw (long, number_fields is_blank k n refl (λ c a b. ground arith), parse_uint_number n h)

find_mem_total_first :
    (k n : ℕ) (lines : List Bytes)
    → n < 2 ^ 64
    → find_mem_total (mem_total_line k n ∷ lines) ≡ some ((n * 1024) % 2 ^ 64)
unfolding find_mem_total has_prefix fields
find_mem_total_first k n lines h =
    rw (number_fields is_space k n refl (λ c a b. ground arith), Decimal.parse_uint-format_uint n h)

-- On a /proc/meminfo that starts with the line of the kernel for a total of n kB, where n fits a
-- uint64 and one or more blanks stand before it, both readers return n * 1024 in uint64, whatever the
-- rest of the file.
pub read_mem_total_agrees :
    (blanks n : ℕ) (rest : Bytes)
    → n < 2 ^ 64
    → let text = mem_total_line blanks n ++ b'\n' ∷ rest in
      (read_mem_total (some text) ≡ some ((n * 1024) % 2 ^ 64))
      × (read_mem_total_bytes (some text) ≡ some ((n * 1024) % 2 ^ 64))
unfolding read_mem_total read_mem_total_bytes split_lines
read_mem_total_agrees blanks n rest h = (
  rw (lines_from_line (mem_total_line blanks n) [] rest (mem_total_line-Lacks blanks n))
      (find_total_first blanks n (lines_from [] rest) h),
  rw (split-append b'\n' (mem_total_line blanks n) rest (mem_total_line-Lacks blanks n))
      (find_mem_total_first blanks n (split b'\n' rest) h),
)
