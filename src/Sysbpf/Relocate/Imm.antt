-- ===== src/Sysbpf/Relocate/Imm.antt =====
-- internal/sysbpf/loader.go: what `RelocateInsns` leaves in every byte.
use hosa.Prelude.{
  Bool-cases, ==_iff, inl, inr, sym, subst, ℕ, zero, suc, ◌+◌, ◌-◌, ◌*◌, ◌/◌, ◌%◌, ◌<◌, ◌≤◌, ◌≡◌,
  ◌≢◌, ◌∙◌, refl, ap, arith, Option, none, some, List, [], ◌∷◌, Bytes, length, length-set,
  get_elem?, get_or, set, leb, ◌==◌, if◌then◌else◌,
}
use hosa.Prelude.Int.{ℤ, pos, negsuc}
use hosa.Outcome.{ok}
use hosa.Sysbpf.Words.{to_little, put}
use hosa.Sysbpf.Relocate.{MapFds, fd_of, to_u32, patch, relocate_at, relocate_insns}

get_elem?-set :
    (s : Bytes) (i j v : ℕ)
    → i < length s
    → get_elem? (set s i v) j ≡ (if i == j then some v else get_elem? s j)
get_elem?-set [] i j v h = elim h [ ]
get_elem?-set (x ∷ s) zero zero v h = refl
get_elem?-set (x ∷ s) zero (suc j) v h = ground arith
get_elem?-set (x ∷ s) (suc i) zero v h = ground arith
get_elem?-set (x ∷ s) (suc i) (suc j) v h = ground (arith, get_elem?-set s i j v)

get_or-get_elem? : (s : Bytes) (i : ℕ) (d : ℕ) → i < length s → get_elem? s i ≡ some (get_or s i d)
get_or-get_elem? [] i d h = elim h [ ]
get_or-get_elem? (x ∷ s) zero d h = refl
get_or-get_elem? (x ∷ s) (suc i) d h = get_or-get_elem? s i d (omega arith)

-- The byte at the place `r` of an instruction that refers to a map with the descriptor `fd`, where
-- `old` is the byte before: the second byte has the register 1 in its upper half, and the last four
-- bytes are the descriptor, the lowest byte first.
abbrev pub patched_byte : ℤ → ℕ → ℕ → ℕ
patched_byte fd r old =
    if r == 1
    then old % 16 + 16
    else if leb 4 r
    then get_or (to_little 4 (to_u32 fd)) (r - 4) 0
    else old

length-put : (at : ℕ) (w s : Bytes) → length (put at w s) ≡ length s
unfolding put
length-put at [] s = refl
length-put at (b ∷ w) s = omega (arith, length-put (at + 1) w (set s at b), length-set s at b)

length-patch : (at : ℕ) (fd : ℤ) (s : Bytes) → length (patch at fd s) ≡ length s
unfolding patch
length-patch at fd s = length-put (at + 4) (to_little 4 (to_u32 fd)) _ ∙ length-set s (at + 1) _

get_elem?-put4 :
    (at a b c d : ℕ) (s : Bytes) (j : ℕ)
    → at + 4 ≤ length s
    → get_elem? (put at (a ∷ b ∷ c ∷ d ∷ []) s) j ≡ (
        if j == at
        then some a
        else if j == at + 1
        then some b
        else if j == at + 2
        then some c
        else if j == at + 3
        then some d
        else get_elem? s j)
unfolding put
get_elem?-put4 at a b c d s j h =
    let s1 = set s at a in
    let s2 = set s1 (at + 1) b in
    let s3 = set s2 (at + 1 + 1) c in
    ground (
      arith,
      get_elem?-set s at j a,
      get_elem?-set s1 (at + 1) j b,
      get_elem?-set s2 (at + 1 + 1) j c,
      get_elem?-set s3 (at + 1 + 1 + 1) j d,
      length-set s at a,
      length-set s1 (at + 1) b,
      length-set s2 (at + 1 + 1) c,
    )

-- The second byte and the last four are written, the other three stay.
get_elem?-patch :
    (i : ℕ) (fd : ℤ) (s : Bytes) (j old : ℕ)
    → i * 8 + 8 ≤ length s
    → get_elem? s j ≡ some old
    → get_elem? (patch (i * 8) fd s) j
      ≡ some (if j / 8 == i then patched_byte fd (j % 8) old else old)
unfolding patch to_little
get_elem?-patch i fd s j old h e =
    let x = get_or s (i * 8 + 1) 0 in
    let v = to_u32 fd in
    ground (
      arith,
      get_elem?-put4 (i * 8 + 4) (v % 256) (v / 256 % 256) (v / 256 / 256 % 256)
          (v / 256 / 256 / 256 % 256) (set s (i * 8 + 1) (x % 16 + 16)) j,
      get_elem?-set s (i * 8 + 1) j (x % 16 + 16),
      get_or-get_elem? s (i * 8 + 1) 0,
      length-set s (i * 8 + 1) (x % 16 + 16),
    )

-- Every entry has its index in the bytecode, and a descriptor for its map.
abbrev pub Resolved : ℕ → MapFds → List (ℤ × Bytes) → Type 0
Resolved n fds [] = Unit
Resolved n fds ((pos i, name) ∷ refs) =
    (i * 8 + 8 ≤ n) × (((fd : ℤ) × (fd_of name fds ≡ some fd)) × Resolved n fds refs)
Resolved n fds ((negsuc i, name) ∷ refs) = ⊥

abbrev pub Unused : ℤ → List (ℤ × Bytes) → Type 0
Unused i [] = Unit
Unused i ((k, name) ∷ refs) = (k ≢ i) × Unused i refs

-- The keys of a Go map are distinct.
abbrev pub AreDistinct : List (ℤ × Bytes) → Type 0
AreDistinct [] = Unit
AreDistinct ((i, name) ∷ refs) = Unused i refs × AreDistinct refs

-- The descriptor that the instruction `i` is to hold, if an entry names it.
abbrev pub target : ℕ → MapFds → List (ℤ × Bytes) → Option ℤ
target i fds [] = none
target i fds ((pos k, name) ∷ refs) = if i == k then fd_of name fds else target i fds refs
target i fds ((negsuc k, name) ∷ refs) = target i fds refs

abbrev pub relocated_byte : Option ℤ → ℕ → ℕ → ℕ
relocated_byte none r old = old
relocated_byte (some fd) r old = patched_byte fd r old

target-Unused :
    (i : ℕ) (fds : MapFds) (refs : List (ℤ × Bytes))
    → Unused (pos i) refs
    → target i fds refs ≡ none
target-Unused i fds [] u = refl
target-Unused i fds ((pos k, name) ∷ refs) u = ground (arith, target-Unused i fds refs u.1, u.0)
target-Unused i fds ((negsuc k, name) ∷ refs) u = target-Unused i fds refs u.1

relocate_at_lem :
    (i : ℕ) (fd : ℤ) (s : Bytes)
    → i * 8 + 8 ≤ length s
    → relocate_at (pos i) fd s ≡ ok (patch (i * 8) fd s)
unfolding relocate_at
relocate_at_lem i fd s h = ground arith

relocate_insns-step :
    (i : ℕ) (name : Bytes) (refs : List (ℤ × Bytes)) (fds : MapFds) (fd : ℤ) (s : Bytes)
    → i * 8 + 8 ≤ length s
    → fd_of name fds ≡ some fd
    → relocate_insns ((pos i, name) ∷ refs) fds s ≡ relocate_insns refs fds (patch (i * 8) fd s)
unfolding relocate_insns
relocate_insns-step i name refs fds fd s h e = ground (arith, relocate_at_lem i fd s h, e)

relocate_insns-nil : (fds : MapFds) (s : Bytes) → relocate_insns [] fds s ≡ (s, ok tt)
unfolding relocate_insns
relocate_insns-nil fds s = refl

-- One round: the bytes of the rest, over those that the first entry leaves.
relocated_byte-cons :
    (i : ℕ) (name : Bytes) (refs : List (ℤ × Bytes)) (fds : MapFds) (fd : ℤ) (j r old : ℕ)
    → fd_of name fds ≡ some fd
    → Unused (pos i) refs
    → relocated_byte (target j fds refs) r (if j == i then patched_byte fd r old else old)
      ≡ relocated_byte (target j fds ((pos i, name) ∷ refs)) r old
relocated_byte-cons i name refs fds fd j r old f u = elim (Bool-cases (j == i)) [
  | inl e ↦
      rw
        (
          e,
          f,
          target-Unused j fds refs (subst (λ k. Unused (pos k) refs) (sym ((==_iff j i).0 e)) u),
        )
        refl
  | inr e ↦ rw e refl
]

relocate_insns-byte :
    (refs : List (ℤ × Bytes)) (fds : MapFds) (s : Bytes) (j old : ℕ)
    → Resolved (length s) fds refs
    → AreDistinct refs
    → get_elem? s j ≡ some old
    → get_elem? (relocate_insns refs fds s).0 j
      ≡ some (relocated_byte (target (j / 8) fds refs) (j % 8) old)
relocate_insns-byte [] fds s j old r d e = rw (relocate_insns-nil fds s) e
relocate_insns-byte ((pos i, name) ∷ refs) fds s j old (h, ((fd, f), r)) (u, d) e =
    let s' = patch (i * 8) fd s in
    let old' = if j / 8 == i then patched_byte fd (j % 8) old else old in
    let r' : Resolved (length s') fds refs =
      subst (λ n. Resolved n fds refs) (sym (length-patch (i * 8) fd s)) r in
    let ih = relocate_insns-byte refs fds s' j old' r' d (get_elem?-patch i fd s j old h e) in
    rw (relocate_insns-step i name refs fds fd s h f)
      (ih ∙ ap some (relocated_byte-cons i name refs fds fd (j / 8) (j % 8) old f u))
relocate_insns-byte ((negsuc i, name) ∷ refs) fds s j old r d e = elim r [ ]

relocate_insns_ok :
    (refs : List (ℤ × Bytes)) (fds : MapFds) (s : Bytes)
    → Resolved (length s) fds refs
    → ((relocate_insns refs fds s).1 ≡ ok tt) × (length (relocate_insns refs fds s).0 ≡ length s)
relocate_insns_ok [] fds s r = rw (relocate_insns-nil fds s) (refl, refl)
relocate_insns_ok ((pos i, name) ∷ refs) fds s (h, ((fd, f), r)) =
    let s' = patch (i * 8) fd s in
    let same = length-patch (i * 8) fd s in
    let (a, b) = relocate_insns_ok refs fds s' (subst (λ n. Resolved n fds refs) (sym same) r) in
    rw (relocate_insns-step i name refs fds fd s h f) (a, b ∙ same)
relocate_insns_ok ((negsuc i, name) ∷ refs) fds s r = elim r [ ]

-- Where every entry has its instruction in the bytecode and its map a descriptor, and no instruction
-- has two entries, the relocation succeeds, keeps the length, and each byte is the one that the
-- entry of its own instruction asks for: the order in which the map is walked has no effect, and no
-- other instruction changes.
pub relocate_insns_lem :
    (refs : List (ℤ × Bytes)) (fds : MapFds) (s : Bytes) (j old : ℕ)
    → Resolved (length s) fds refs
    → AreDistinct refs
    → get_elem? s j ≡ some old
    → ((relocate_insns refs fds s).1 ≡ ok tt)
      × (length (relocate_insns refs fds s).0 ≡ length s)
      × (get_elem? (relocate_insns refs fds s).0 j
          ≡ some (relocated_byte (target (j / 8) fds refs) (j % 8) old))
relocate_insns_lem refs fds s j old r d e =
    let (a, b) = relocate_insns_ok refs fds s r in
    (a, b, relocate_insns-byte refs fds s j old r d e)
