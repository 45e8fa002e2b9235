-- ===== src/Agent/Meminfo.antt =====
-- `readMemTotal` and its helpers.
pub mod Lines
pub mod Agreement
use hosa.Prelude.{
  ℕ, suc, ◌+◌, ◌-◌, ◌*◌, ◌%◌, ◌^◌, Bool, ◌||◌, ◌&&◌, Option, none, some, List, [], ◌∷◌, ◌++◌, Bytes,
  codes, ltb, leb, ◌==◌, if◌then◌else◌, length, drop,
}
use hosa.Strings.{flush_field, fields_by, has_prefix}

-- The line that is being read, if it is not empty, is the last one.
unfoldable pub lines_from : Bytes → Bytes → List Bytes
lines_from cur [] = flush_field cur []
lines_from cur (c ∷ s) =
    let ends = cur ∷ lines_from [] s in
    let goes_on = lines_from (cur ++ c ∷ []) s in if c == b'\n' then ends else goes_on

unfoldable pub split_lines : Bytes → List Bytes
unfolding lines_from
split_lines s = lines_from [] s

abbrev pub is_blank : ℕ → Bool
is_blank c = c == b' ' || c == b'\t'

unfoldable pub split_fields : Bytes → List Bytes
unfolding fields_by
split_fields s = fields_by is_blank [] s

-- The loop of `parseUint`, in uint64; the text is read up to the first byte that is no digit.
unfoldable pub parse_from : ℕ → Bytes → ℕ
parse_from n [] = n
parse_from n (c ∷ s) =
    let rest = parse_from ((n * 10 + (c - 48)) % 2 ^ 64) s in
    if ltb c b'0' || ltb b'9' c then n else rest

unfoldable pub parse_uint : Bytes → ℕ
unfolding parse_from
parse_uint s = parse_from 0 s

-- `/proc/meminfo`, whose lines are tried in turn; an error is `none`.
unfoldable pub find_total : List Bytes → Option ℕ
unfolding split_fields parse_uint
find_total [] = none
find_total (line ∷ lines) =
    let rest = find_total lines in
    if ltb 9 (length line) && has_prefix line (codes "MemTotal:")
    then elim (split_fields (drop 9 line)) [
      | [] ↦ rest
      | f ∷ fs ↦ some ((parse_uint f * 1024) % 2 ^ 64)
    ]
    else rest

unfoldable pub read_mem_total : Option Bytes → Option ℕ
unfolding find_total split_lines
read_mem_total none = none
read_mem_total (some text) = find_total (split_lines text)
