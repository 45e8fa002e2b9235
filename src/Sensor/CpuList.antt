-- ===== src/Sensor/CpuList.antt =====
-- The CPU lists of internal/sensor/proprioception.go, "0-3,5,7". `Atoi` refuses the empty text and a
-- part that starts with '-' is a range, so every number of a list that is read is a natural number.
pub mod Count
use hosa.Prelude.{
  ℕ, zero, suc, ◌+◌, ◌-◌, ◌%◌, ◌^◌, ◌==◌, Bool, Option, none, some, List, [], ◌∷◌, ◌++◌, Bytes, ltb,
  if◌then◌else◌,
}
use hosa.Prelude.Int.{ℤ, pos, negsuc, of_residue}
use hosa.Strings.{atoi, split, trim_space, contains_byte, cut}

-- lo, lo + 1, …: `n` numbers.
unfoldable pub upto : ℕ → ℕ → List ℕ
upto zero lo = []
upto (suc n) lo = lo ∷ upto n (suc lo)

-- The numbers of a range whose bounds are read: none if a bound is missing or they are reversed. A
-- bound with a sign that makes it negative does not occur, since the text is cut at its first '-'
-- and a second one starts the upper bound, which is then below the lower one. The result is `none`
-- where the upper bound is the largest `int`: `i <= hi` is then always true, and the loop never ends.
unfoldable pub range_of : Option ℤ → Option ℤ → Option (List ℕ)
unfolding upto
range_of (some (pos lo)) (some (pos hi)) =
    if ltb hi lo then some [] else if hi == 2 ^ 63 - 1 then none else some (upto (hi - lo + 1) lo)
range_of _ _ = some []

abbrev pub single : Option ℤ → List ℕ
single (some (pos n)) = n ∷ []
single _ = []

unfoldable pub bounds_of : Option (Bytes × Bytes) → Option (List ℕ)
unfolding range_of
bounds_of none = some []
bounds_of (some (lo, hi)) = range_of (atoi lo) (atoi hi)

-- What one round of the loop of `parseCPUList` appends, `none` if the round never ends.
unfoldable pub parse_part : Bytes → Option (List ℕ)
unfolding bounds_of
parse_part part =
    let p = trim_space part in
    if contains_byte b'-' p then bounds_of (cut b'-' p) else some (single (atoi p))

unfoldable pub parse_parts : List Bytes → List ℕ → Option (List ℕ)
unfolding parse_part
parse_parts [] cpus = some cpus
parse_parts (part ∷ parts) cpus = elim (parse_part part) [
  | none ↦ none
  | some ns ↦ parse_parts parts (cpus ++ ns)
]

-- `parseCPUList`; `none` is a call that never returns.
unfoldable pub parse_cpu_list : Bytes → Option (List ℕ)
unfolding parse_parts
parse_cpu_list s = parse_parts (split b',' s) []

-- What one round of the loop of `parseCPURange` adds to the count.
unfoldable pub count_range : Option ℤ → Option ℤ → ℕ
count_range (some (pos lo)) (some (pos hi)) = if ltb hi lo then 0 else hi - lo + 1
count_range _ _ = 0

unfoldable pub count_bounds : Option (Bytes × Bytes) → ℕ
unfolding count_range
count_bounds none = 0
count_bounds (some (lo, hi)) = count_range (atoi lo) (atoi hi)

abbrev pub count_single : Option ℤ → ℕ
count_single none = 0
count_single (some n) = 1

unfoldable pub count_part : Bytes → ℕ
unfolding count_bounds
count_part part =
    let p = trim_space part in
    if contains_byte b'-' p then count_bounds (cut b'-' p) else count_single (atoi p)

-- The count is an `int`, kept as its residue modulo 2^64.
unfoldable pub count_parts : List Bytes → ℕ → ℕ
unfolding count_part
count_parts [] count = count
count_parts (part ∷ parts) count = count_parts parts ((count + count_part part) % 2 ^ 64)

unfoldable pub parse_cpu_range : Bytes → ℤ
unfolding count_parts
parse_cpu_range s = of_residue (count_parts (split b',' s) 0)
