-- ===== src/Sensor/CacheGroups/Distinct.antt =====
-- The groups that `buildCacheGroups` finds.
use hosa.Prelude.{
  ◌≡◌, refl, true, false, ◌||◌, Option, none, some, List, [], ◌∷◌, ◌++◌, Bytes, bytes_eq,
  bytes_eq_refl, eq_of_bytes_eq, arith, Bool-cases, inl, inr,
}
use hosa.Sensor.Discovery.{CpuEntry}
use hosa.Sensor.CacheGroups.{list_of, is_seen, note_list, canonical_lists}

-- No text of the list occurs twice.
abbrev pub AllDistinct : List Bytes → Type 0
AllDistinct [] = Unit
AllDistinct (k ∷ ks) = (is_seen k ks ≡ false) × AllDistinct ks

is_seen-append :
    (key : Bytes) (ks : List Bytes) (k : Bytes)
    → is_seen key (ks ++ k ∷ []) ≡ (is_seen key ks || bytes_eq k key)
unfolding is_seen
is_seen-append key [] k = ground arith
is_seen-append key (x ∷ ks) k = ground (arith, is_seen-append key ks k)

bytes_eq_symm : (a b : Bytes) → bytes_eq a b ≡ false → bytes_eq b a ≡ false
bytes_eq_symm a b h = elim (Bool-cases (bytes_eq b a)) [
  | inr e ↦ e
  | inl e ↦
      let t : bytes_eq a b ≡ true = rw (eq_of_bytes_eq b a e) (bytes_eq_refl a) in ground arith
]

AllDistinct-append :
    (ks : List Bytes) (key : Bytes)
    → is_seen key ks ≡ false
    → AllDistinct ks
    → AllDistinct (ks ++ key ∷ [])
unfolding is_seen
AllDistinct-append [] key h d = (refl, tt)
AllDistinct-append (k ∷ ks) key h d = (
  rw (is_seen-append k ks key) (ground (arith, d.0, bytes_eq_symm k key)),
  AllDistinct-append ks key (ground arith) d.1,
)

note_list-AllDistinct :
    (l : Option Bytes) (order : List Bytes) → AllDistinct order → AllDistinct (note_list l order)
unfolding note_list
note_list-AllDistinct none order d = d
note_list-AllDistinct (some key) order d = elim (Bool-cases (is_seen key order)) [
  | inl e ↦ rw e d
  | inr e ↦ rw e (AllDistinct-append order key e d)
]

note_list-is_seen :
    (l : Option Bytes) (order : List Bytes) (key : Bytes)
    → is_seen key order ≡ true
    → is_seen key (note_list l order) ≡ true
unfolding note_list
note_list-is_seen none order key h = h
note_list-is_seen (some k) order key h = elim (Bool-cases (is_seen k order)) [
  | inl e ↦ rw e h
  | inr e ↦ rw (e, is_seen-append key order k, h)
]

note_list_self :
    (key : Bytes) (order : List Bytes) → is_seen key (note_list (some key) order) ≡ true
unfolding note_list
note_list_self key order = elim (Bool-cases (is_seen key order)) [
  | inl e ↦ rw e e
  | inr e ↦ rw (e, is_seen-append key order key) (ground (arith, bytes_eq_refl key))
]

canonical_lists-AllDistinct :
    (es : List CpuEntry) (order : List Bytes)
    → AllDistinct order
    → AllDistinct (canonical_lists es order)
unfolding canonical_lists
canonical_lists-AllDistinct [] order d = d
canonical_lists-AllDistinct (e ∷ es) order d =
    canonical_lists-AllDistinct es (note_list (list_of e) order)
      (note_list-AllDistinct (list_of e) order d)

canonical_lists-is_seen :
    (es : List CpuEntry) (order : List Bytes) (key : Bytes)
    → is_seen key order ≡ true
    → is_seen key (canonical_lists es order) ≡ true
unfolding canonical_lists
canonical_lists-is_seen [] order key h = h
canonical_lists-is_seen (e ∷ es) order key h =
    canonical_lists-is_seen es (note_list (list_of e) order) key
      (note_list-is_seen (list_of e) order key h)

finds_list :
    (es fs : List CpuEntry) (e : CpuEntry) (order : List Bytes) (key : Bytes)
    → list_of e ≡ some key
    → is_seen key (canonical_lists (es ++ e ∷ fs) order) ≡ true
unfolding canonical_lists
finds_list [] fs e order key h =
    canonical_lists-is_seen fs (note_list (list_of e) order) key (rw h (note_list_self key order))
finds_list (x ∷ es) fs e order key h = finds_list es fs e (note_list (list_of x) order) key h

-- The groups come from the lists of the third cache level: each CPU whose list can be read has its
-- list among them, and no list makes two groups, however many CPUs share it.
pub canonical_lists_lem :
    (es fs : List CpuEntry) (e : CpuEntry) (key : Bytes)
    → list_of e ≡ some key
    → (is_seen key (canonical_lists (es ++ e ∷ fs) []) ≡ true)
      × AllDistinct (canonical_lists (es ++ e ∷ fs) [])
canonical_lists_lem es fs e key h =
    (finds_list es fs e [] key h, canonical_lists-AllDistinct (es ++ e ∷ fs) [] tt)
