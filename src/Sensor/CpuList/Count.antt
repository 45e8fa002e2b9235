-- ===== src/Sensor/CpuList/Count.antt =====
-- `parseCPURange` against `parseCPUList`, of internal/sensor/proprioception.go.
use hosa.Prelude.{
  ℕ, zero, suc, ◌+◌, ◌-◌, ◌≡◌, refl, false, Option, none, some, List, [], ◌∷◌, ◌++◌, Bytes, arith,
  length, length-append, Bool-cases, inl, inr, ◌^◌, ◌%◌, ap, ltb, ◌==◌,
}
use hosa.Prelude.Int.{ℤ, pos, negsuc, of_residue}
use hosa.Strings.{atoi, split, trim_space, contains_byte, cut, at_most, to_pos, digits_value}
use hosa.Sensor.CpuList.{
  upto, range_of, bounds_of, single, parse_part, parse_parts, parse_cpu_list, count_range,
  count_bounds, count_single, count_part, count_parts, parse_cpu_range,
}

pub length-upto : (n lo : ℕ) → length (upto n lo) ≡ n
unfolding upto
length-upto zero lo = refl
length-upto (suc n) lo = omega (arith, length-upto n (suc lo))

-- The list, if its parser returns, has the length `n`.
abbrev HasLength : ℕ → Option (List ℕ) → Type 0
HasLength n none = Unit
HasLength n (some ns) = length ns ≡ n

range_of-HasLength : (lo hi : Option ℤ) → HasLength (count_range lo hi) (range_of lo hi)
unfolding range_of count_range
range_of-HasLength none hi = refl
range_of-HasLength (some (negsuc lo)) hi = refl
range_of-HasLength (some (pos lo)) none = refl
range_of-HasLength (some (pos lo)) (some (negsuc hi)) = refl
range_of-HasLength (some (pos lo)) (some (pos hi)) = elim (Bool-cases (ltb hi lo)) [
  | inl under ↦ rw under refl
  | inr over ↦ elim (Bool-cases (hi == 2 ^ 63 - 1)) [
    | inl last ↦ rw (over, last) tt
    | inr less ↦ rw (over, less) (length-upto (hi - lo + 1) lo)
  ]
]

bounds_of-HasLength : (b : Option (Bytes × Bytes)) → HasLength (count_bounds b) (bounds_of b)
unfolding bounds_of count_bounds
bounds_of-HasLength none = refl
bounds_of-HasLength (some (lo, hi)) = range_of-HasLength (atoi lo) (atoi hi)

length-single_of_pos : (m : Option ℕ) → length (single (to_pos m)) ≡ count_single (to_pos m)
length-single_of_pos none = refl
length-single_of_pos (some n) = refl

-- A number without a minus sign is not negative.
length-single :
    (s : Bytes) → contains_byte b'-' s ≡ false → length (single (atoi s)) ≡ count_single (atoi s)
unfolding atoi contains_byte
length-single [] h = refl
length-single (c ∷ s) h = ground (
  arith,
  length-single_of_pos (at_most (2 ^ 63 - 1) (digits_value s)),
  length-single_of_pos (at_most (2 ^ 63 - 1) (digits_value (c ∷ s))),
)

parse_part-HasLength : (part : Bytes) → HasLength (count_part part) (parse_part part)
unfolding parse_part count_part
parse_part-HasLength part = elim (Bool-cases (contains_byte b'-' (trim_space part))) [
  | inl dash ↦ rw dash (bounds_of-HasLength (cut b'-' (trim_space part)))
  | inr plain ↦ rw plain (length-single (trim_space part) plain)
]

-- The list, if its parser returns, has the length `n`, up to multiples of 2^64.
abbrev HasResidue : ℕ → Option (List ℕ) → Type 0
HasResidue n none = Unit
HasResidue n (some ns) = n ≡ length ns % 2 ^ 64

parse_parts-HasResidue :
    (parts : List Bytes) (cpus : List ℕ) (n : ℕ)
    → n ≡ length cpus % 2 ^ 64
    → HasResidue (count_parts parts n) (parse_parts parts cpus)
unfolding parse_parts count_parts
parse_parts-HasResidue [] cpus n h = h
parse_parts-HasResidue (part ∷ parts) cpus n h =
    by_part (parse_part part) (parse_part-HasLength part) (λ ns e.
      parse_parts-HasResidue parts (cpus ++ ns) ((n + count_part part) % 2 ^ 64)
        (omega (arith, length-append cpus ns, e, h)))
  where
    by_part :
        (ns : Option (List ℕ))
        → HasLength (count_part part) ns
        → ((ms : List ℕ)
            → length ms ≡ count_part part
            → HasResidue
                (count_parts parts ((n + count_part part) % 2 ^ 64))
                (parse_parts parts (cpus ++ ms)))
        → HasResidue
            (count_parts parts ((n + count_part part) % 2 ^ 64))
            (elim ns [ none ↦ none | some ms ↦ parse_parts parts (cpus ++ ms) ])
    by_part none e k = tt
    by_part (some ns) e k = k ns e

-- The count of `parseCPURange`, from the list of `parseCPUList`, where that returns.
abbrev pub CountsList : ℤ → Option (List ℕ) → Type 0
CountsList n none = Unit
CountsList n (some cpus) = n ≡ of_residue (length cpus % 2 ^ 64)

of_residue-CountsList :
    (n : ℕ) (cpus : Option (List ℕ)) → HasResidue n cpus → CountsList (of_residue n) cpus
of_residue-CountsList n none h = tt
of_residue-CountsList n (some cpus) h = ap of_residue h

-- On every text, well formed or not, on which `parseCPUList` returns, the count of CPUs is the length
-- of its list, wrapped into an `int`.
pub parse_cpu_range-CountsList : (s : Bytes) → CountsList (parse_cpu_range s) (parse_cpu_list s)
unfolding parse_cpu_range parse_cpu_list
parse_cpu_range-CountsList s =
    of_residue-CountsList (count_parts (split b',' s) 0) (parse_parts (split b',' s) [])
      (parse_parts-HasResidue (split b',' s) [] 0 refl)
