-- ===== src/Motor/Cpuset/RoundTrip.antt =====
-- The text of a CPU set, read back by `parseCPUList` of internal/sensor/proprioception.go.
use hosa.Prelude.{
  if◌then◌else◌, some, ℕ, zero, suc, ◌+◌, ◌-◌, ◌^◌, ◌≤◌, ◌<◌, ◌≡◌, ◌≢◌, refl, ap, ◌∙◌, List, [],
  ◌∷◌, ◌++◌, append_assoc, append-nil, Bytes, arith, leb, ◌==◌, Bool-cases, inl, inr, ==_iff,
}
use hosa.Strings.{format_uint, split}
use hosa.Strings.Decimal.{format_uint-AllDigits, format_uint-ne-nil, atoi-format_uint}
use hosa.Strings.Parts.{
  Lacks, Solid, Lacks-append, Solid-append, digits-Lacks, digits-Solid, trim_space-Solid,
  contains_byte-Lacks, contains_byte-append, cut-append, split-Lacks, split-append,
}
use hosa.Sensor.CpuList.{upto, range_of, bounds_of, parse_part, parse_parts, parse_cpu_list}
use hosa.Motor.Cpuset.{CpuSet, sort, insert_sorted, range_text, flush, ranges, ranges_of, to_string}

-- The text that the loop adds behind the text built so far.
render : ℕ → ℕ → List ℕ → Bytes
render start end [] = range_text start end
render start end (cpu ∷ cpus) =
    let longer = render start cpu cpus in
    let next = range_text start end ++ b',' ∷ render cpu cpu cpus in
    if cpu == end + 1 then longer else next

range_text-ne-nil : (start end : ℕ) → range_text start end ≢ []
range_text-ne-nil start end = ground (arith, format_uint-ne-nil start)

flush_of_ne :
    (start end : ℕ) (sb : Bytes) → sb ≢ [] → flush start end sb ≡ sb ++ b',' ∷ range_text start end
flush_of_ne start end [] h = absurd (h refl)
flush_of_ne start end (c ∷ sb) h = refl

append-ne-nil : (s t : Bytes) → s ≢ [] → s ++ t ≢ []
append-ne-nil [] t h = absurd (h refl)
append-ne-nil (c ∷ s) t h = λ e. cc

ranges_of_ne :
    (cpus : List ℕ) (start end : ℕ) (sb : Bytes)
    → sb ≢ []
    → ranges start end sb cpus ≡ sb ++ b',' ∷ render start end cpus
unfolding ranges render
ranges_of_ne [] start end sb h = flush_of_ne start end sb h
ranges_of_ne (cpu ∷ cpus) start end sb h = elim (Bool-cases (cpu == end + 1)) [
  | inl e ↦ rw e (ranges_of_ne cpus start cpu sb h)
  | inr e ↦ rw e (
      rw (flush_of_ne start end sb h) (
        ranges_of_ne cpus cpu cpu (sb ++ b',' ∷ range_text start end) (append-ne-nil sb _ h)
        ∙ append_assoc sb (b',' ∷ range_text start end) (b',' ∷ render cpu cpu cpus)))
]

ranges-render : (cpus : List ℕ) (start end : ℕ) → ranges start end [] cpus ≡ render start end cpus
unfolding ranges render
ranges-render [] start end = refl
ranges-render (cpu ∷ cpus) start end = elim (Bool-cases (cpu == end + 1)) [
  | inl e ↦ rw e (ranges-render cpus start cpu)
  | inr e ↦ rw e (ranges_of_ne cpus cpu cpu (range_text start end) (range_text-ne-nil start end))
]

number-Lacks : (b n : ℕ) → b < 48 → Lacks b (format_uint n)
number-Lacks b n h = digits-Lacks b (format_uint n) h (format_uint-AllDigits n)

number-Solid : (n : ℕ) → Solid (format_uint n)
number-Solid n = digits-Solid (format_uint n) (format_uint-AllDigits n)

range_text-Lacks : (start end : ℕ) → Lacks b',' (range_text start end)
range_text-Lacks start end = elim (Bool-cases (start == end)) [
  | inl e ↦ rw e (number-Lacks b',' start (omega arith))
  | inr e ↦ rw e (
      Lacks-append b',' (format_uint start) (b'-' ∷ format_uint end)
        (number-Lacks b',' start (omega arith)) (ground arith, number-Lacks b',' end (omega arith)))
]

parse_single : (n : ℕ) → n < 2 ^ 63 → parse_part (format_uint n) ≡ some (n ∷ [])
unfolding parse_part
parse_single n h = rw (
  trim_space-Solid (format_uint n) (number-Solid n),
  contains_byte-Lacks b'-' (format_uint n) (number-Lacks b'-' n (omega arith)),
  atoi-format_uint n h,
)

range-Solid : (start end : ℕ) → Solid (format_uint start ++ b'-' ∷ format_uint end)
range-Solid start end =
    Solid-append (format_uint start) (b'-' ∷ format_uint end) (number-Solid start)
      (ground arith, number-Solid end)

parse_range :
    (start end : ℕ)
    → start ≤ end
    → end < 2 ^ 63 - 1
    → parse_part (format_uint start ++ b'-' ∷ format_uint end) ≡ some (upto (end - start + 1) start)
unfolding parse_part bounds_of range_of
parse_range start end le h =
    rw
      (
        trim_space-Solid _ (range-Solid start end),
        contains_byte-append b'-' (format_uint start) (format_uint end),
        cut-append b'-' (format_uint start) (format_uint end)
            (number-Lacks b'-' start (omega arith)),
        atoi-format_uint start (omega arith),
        atoi-format_uint end (omega arith),
      )
      (ground arith)

parse_range_text :
    (start end : ℕ)
    → start ≤ end
    → end < 2 ^ 63 - 1
    → parse_part (range_text start end) ≡ some (upto (end - start + 1) start)
parse_range_text start end le h = elim (Bool-cases (start == end)) [
  | inl e ↦ rw e (
      let same : start ≡ end = (==_iff start end).0 e in
      let one : end - start + 1 ≡ 1 = omega arith in
      parse_single start (omega arith) ∙ unfold upto in rw one)
  | inr e ↦ rw e (parse_range start end le h)
]

upto-suc : (n lo : ℕ) → upto (suc n) lo ≡ upto n lo ++ (lo + n) ∷ []
unfolding upto
upto-suc zero lo = ground arith
upto-suc (suc n) lo = ground (arith, upto-suc n (suc lo))

upto-extend :
    (start end cpu : ℕ) (cpus : List ℕ)
    → start ≤ end
    → cpu ≡ end + 1
    → upto (cpu - start + 1) start ++ cpus ≡ upto (end - start + 1) start ++ cpu ∷ cpus
upto-extend start end cpu cpus le next =
    let more : cpu - start + 1 ≡ suc (end - start + 1) = omega arith in
    let last : start + (end - start + 1) ≡ cpu = omega arith in
    rw (more, upto-suc (end - start + 1) start, last, append_assoc)

-- Every id of the list is less than the largest `int`.
abbrev pub AllInts : List ℕ → Type 0
AllInts [] = Unit
AllInts (c ∷ cs) = (c < 2 ^ 63 - 1) × AllInts cs

parse_parts_nil : (done : List ℕ) → parse_parts [] done ≡ some done
unfolding parse_parts
parse_parts_nil done = refl

parse_parts_cons :
    (part : Bytes) (parts : List Bytes) (done ns : List ℕ)
    → parse_part part ≡ some ns
    → parse_parts (part ∷ parts) done ≡ parse_parts parts (done ++ ns)
unfolding parse_parts
parse_parts_cons part parts done ns e = rw (parse_parts, e) refl

parse_render :
    (cpus : List ℕ) (start end : ℕ) (done : List ℕ)
    → start ≤ end
    → end < 2 ^ 63 - 1
    → AllInts cpus
    → parse_parts (split b',' (render start end cpus)) done
      ≡ some (done ++ (upto (end - start + 1) start ++ cpus))
unfolding render
parse_render [] start end done le h all =
    rw
      (
        split-Lacks b',' (range_text start end) (range_text-Lacks start end),
        parse_parts_cons (range_text start end) [] done _ (parse_range_text start end le h),
        append-nil,
      )
      (parse_parts_nil (done ++ upto (end - start + 1) start))
parse_render (cpu ∷ cpus) start end done le h all = elim (Bool-cases (cpu == end + 1)) [
  | inl e ↦ rw e (
      let next : cpu ≡ end + 1 = (==_iff cpu (end + 1)).0 e in
      parse_render cpus start cpu done (omega arith) all.0 all.1
      ∙ ap (λ t. some (done ++ t)) (upto-extend start end cpu cpus le next))
  | inr e ↦ rw e (
      let one : cpu - cpu + 1 ≡ 1 = omega arith in
      rw
        (
          split-append b',' (range_text start end) (render cpu cpu cpus)
              (range_text-Lacks start end),
          parse_parts_cons (range_text start end) (split b',' (render cpu cpu cpus)) done _
              (parse_range_text start end le h),
        )
        (parse_render cpus cpu cpu (done ++ upto (end - start + 1) start) (omega arith) all.0 all.1
          ∙ rw one (
              unfold upto in
              ap some (append_assoc done (upto (end - start + 1) start) (cpu ∷ cpus)))))
]

insert_sorted-AllInts :
    (x : ℕ) (ys : List ℕ) → x < 2 ^ 63 - 1 → AllInts ys → AllInts (insert_sorted x ys)
unfolding insert_sorted
insert_sorted-AllInts x [] h k = (h, tt)
insert_sorted-AllInts x (y ∷ ys) h k = elim (Bool-cases (leb x y)) [
  | inl e ↦ rw e (h, k)
  | inr e ↦ rw e (k.0, insert_sorted-AllInts x ys h k.1)
]

sort-AllInts : (xs : List ℕ) → AllInts xs → AllInts (sort xs)
unfolding sort
sort-AllInts [] h = tt
sort-AllInts (x ∷ xs) h = insert_sorted-AllInts x (sort xs) h.0 (sort-AllInts xs h.1)

insert_sorted-ne-nil : (x : ℕ) (ys : List ℕ) → insert_sorted x ys ≢ []
unfolding insert_sorted
insert_sorted-ne-nil x [] = λ e. cc
insert_sorted-ne-nil x (y ∷ ys) = ground arith

parse_ranges_of : (xs : List ℕ) → xs ≢ [] → AllInts xs → parse_cpu_list (ranges_of xs) ≡ some xs
unfolding parse_cpu_list ranges_of
parse_ranges_of [] ne h = absurd (ne refl)
parse_ranges_of (x ∷ xs) ne h =
    let one : x - x + 1 ≡ 1 = omega arith in
    ap (λ t. parse_parts (split b',' t) []) (ranges-render xs x x)
    ∙ parse_render xs x x [] (omega arith) h.0 h.1
    ∙ (unfold upto in rw one)

-- The text that is written to cpuset.cpus for a set of CPUs is read by the sensor's own parser as
-- that set in ascending order, repetitions included, and the parser returns. The set is not empty, and
-- its ids are below 2^63 - 1, the largest `int`: on a range that ends there the loop of the parser
-- never ends.
pub parse_cpu_list-to_string :
    (cs : CpuSet) → cs ≢ [] → AllInts cs → parse_cpu_list (to_string cs) ≡ some (sort cs)
unfolding to_string
parse_cpu_list-to_string [] ne h = absurd (ne refl)
parse_cpu_list-to_string (x ∷ xs) ne h =
    parse_ranges_of (sort (x ∷ xs)) (unfold sort in insert_sorted-ne-nil x (sort xs))
      (sort-AllInts (x ∷ xs) h)
