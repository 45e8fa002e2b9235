-- ===== src/Sysbpf/Elf/Object/Tables.antt =====
-- internal/sysbpf/loader.go: the keys of the tables of an object, and the distinct indices of
-- their entries.
use hosa.Prelude.{
  subst, ◌≡◌, ◌≢◌, refl, ap, sym, arith, true, false, Bool-cases, inl, inr, some, List, [], ◌∷◌,
  Bytes, bytes_eq, eq_of_bytes_eq, if◌then◌else◌,
}
use hosa.Prelude.Int.{ℤ, eqb_ℤ}
use hosa.Sysbpf.Dict.{find, insert, insert_ref}
use hosa.Sysbpf.Elf.Object.{Refs}
use hosa.Sysbpf.Relocate.Imm.{Unused, AreDistinct}
use hosa.Sysbpf.Elf.{is_prog_section}

Unused-insert_ref :
    (k i : ℤ) (name : Bytes) (refs : Refs)
    → i ≢ k
    → Unused k refs
    → Unused k (insert_ref i name refs)
unfolding insert_ref
Unused-insert_ref k i name [] h u = (h, tt)
Unused-insert_ref k i name ((j, n) ∷ refs) h u = elim (Bool-cases (eqb_ℤ j i)) [
  | inl e ↦ rw e (h, u.1)
  | inr e ↦ rw e (u.0, Unused-insert_ref k i name refs h u.1)
]

eq_of_eqb : (i j : ℤ) → eqb_ℤ j i ≡ true → j ≡ i
eq_of_eqb i j h = ground arith

ne_of_eqb : (i j : ℤ) → eqb_ℤ j i ≡ false → i ≢ j
ne_of_eqb i j h = ground arith

pub insert_ref-AreDistinct :
    (i : ℤ) (name : Bytes) (refs : Refs) → AreDistinct refs → AreDistinct (insert_ref i name refs)
unfolding insert_ref
insert_ref-AreDistinct i name [] d = (tt, tt)
insert_ref-AreDistinct i name ((j, n) ∷ refs) d = elim (Bool-cases (eqb_ℤ j i)) [
  | inl e ↦ rw e (subst (λ k. Unused k refs) (eq_of_eqb i j e) d.0, d.1)
  | inr e ↦ rw e (
    Unused-insert_ref j i name refs (ne_of_eqb i j e) d.0,
    insert_ref-AreDistinct i name refs d.1,
  )
]

abbrev pub keys {ℓ} : {V : Type ℓ} → List (Bytes × V) → List Bytes
keys [] = []
keys ((k, v) ∷ m) = k ∷ keys m

-- The keys after an insertion depend on the keys before it alone.
abbrev pub insert_key : Bytes → List Bytes → List Bytes
insert_key k [] = k ∷ []
insert_key k (j ∷ js) = if bytes_eq j k then k ∷ js else j ∷ insert_key k js

pub keys-insert {ℓ} :
    {V : Type ℓ} (k : Bytes) (v : V) (m : List (Bytes × V))
    → keys (insert k v m) ≡ insert_key k (keys m)
unfolding insert
keys-insert k v [] = refl
keys-insert k v ((j, w) ∷ m) = elim (Bool-cases (bytes_eq j k)) [
  | inl e ↦ rw e refl
  | inr e ↦ rw e (ap (λ l. j ∷ l) (keys-insert k v m))
]

-- Every name is that of a program's section.
abbrev pub AreProgs : List Bytes → Type 0
AreProgs [] = Unit
AreProgs (n ∷ ns) = (is_prog_section n ≡ true) × AreProgs ns

pub insert_key-AreProgs :
    (k : Bytes) (ns : List Bytes)
    → is_prog_section k ≡ true
    → AreProgs ns
    → AreProgs (insert_key k ns)
insert_key-AreProgs k [] h a = (h, tt)
insert_key-AreProgs k (j ∷ js) h a = elim (Bool-cases (bytes_eq j k)) [
  | inl e ↦ rw e (h, a.1)
  | inr e ↦ rw e (a.0, insert_key-AreProgs k js h a.1)
]

-- No instruction of a section has two entries.
abbrev pub RefsAreDistinct : List (Bytes × Refs) → Type 0
RefsAreDistinct [] = Unit
RefsAreDistinct ((n, refs) ∷ m) = AreDistinct refs × RefsAreDistinct m

pub insert-RefsAreDistinct :
    (k : Bytes) (refs : Refs) (m : List (Bytes × Refs))
    → AreDistinct refs
    → RefsAreDistinct m
    → RefsAreDistinct (insert k refs m)
unfolding insert
insert-RefsAreDistinct k refs [] d a = (d, tt)
insert-RefsAreDistinct k refs ((j, r) ∷ m) d a = elim (Bool-cases (bytes_eq j k)) [
  | inl e ↦ rw e (d, a.1)
  | inr e ↦ rw e (a.0, insert-RefsAreDistinct k refs m d a.1)
]

pub find-RefsAreDistinct :
    (k : Bytes) (refs : Refs) (m : List (Bytes × Refs))
    → RefsAreDistinct m
    → find k m ≡ some refs
    → AreDistinct refs
unfolding find
find-RefsAreDistinct k refs [] a e = cc
find-RefsAreDistinct k refs ((j, r) ∷ m) a e = elim (Bool-cases (bytes_eq j k)) [
  | inl h ↦ let same : r ≡ refs = ground (arith, h, e) in subst AreDistinct same a.0
  | inr h ↦
      let rest : find k m ≡ some refs = ground (arith, h, e) in
      find-RefsAreDistinct k refs m a.1 rest
]

-- A key that is there stays where it is.
pub keys-insert_found {ℓ} :
    {V : Type ℓ} (k : Bytes) (v w : V) (m : List (Bytes × V))
    → find k m ≡ some w
    → keys (insert k v m) ≡ keys m
unfolding find insert
keys-insert_found k v w [] h = cc
keys-insert_found k v w ((j, u) ∷ m) h = elim (Bool-cases (bytes_eq j k)) [
  | inl e ↦ rw e (ap (λ n. n ∷ keys m) (sym (eq_of_bytes_eq j k e)))
  | inr e ↦
      let rest : find k m ≡ some w = rw e at h in
      rw e (ap (λ l. j ∷ l) (keys-insert_found k v w m rest))
]
