-- ===== src/Sensor/Fragmentation/Headroom.antt =====
-- `LargestFreeOrderNormal` of internal/sensor/fragmentation.go.
use hosa.Prelude.{
  ℕ, zero, suc, ◌-◌, ◌≤◌, ◌<◌, ◌≡◌, refl, Option, none, some, List, [], ◌∷◌, arith, ◌⊎◌, inl, inr,
  codes, bytes_eq, if◌then◌else◌, Bool-cases, drop, ltb, subst,
}
use hosa.Float.{Float, nought}
use hosa.Sensor.Fragmentation.{
  BuddyZone, FragSums, raise_order, largest_order, add_zone, add_zones, compute_frag_state,
}
use hosa.Sensor.Fragmentation.Compaction.{AllZero, IsHighest, IsHighest-from}

-- The counts of the zones whose name is Normal, one for each node.
abbrev pub normal_counts : List BuddyZone → List (List ℕ)
normal_counts [] = []
normal_counts (z ∷ zs) =
    if bytes_eq z.zone (codes "Normal") then z.counts ∷ normal_counts zs else normal_counts zs

abbrev pub count_at : List ℕ → ℕ → ℕ
count_at [] k = 0
count_at (c ∷ cs) zero = c
count_at (c ∷ cs) (suc k) = count_at cs k

-- Above the order `k` no zone has a free block.
abbrev pub AllEmptyAbove : ℕ → List (List ℕ) → Type 0
AllEmptyAbove k [] = Unit
AllEmptyAbove k (cs ∷ css) = AllZero (drop (suc k) cs) × AllEmptyAbove k css

-- At the order `k` one of the zones has a free block.
abbrev pub HasFree : ℕ → List (List ℕ) → Type 0
HasFree k [] = ⊥
HasFree k (cs ∷ css) = (0 < count_at cs k) ⊎ HasFree k css

AllZero-drop : (m : ℕ) (cs : List ℕ) → AllZero cs → AllZero (drop m cs)
AllZero-drop zero cs z = z
AllZero-drop (suc m) [] z = tt
AllZero-drop (suc m) (c ∷ cs) z = AllZero-drop m cs z.1

AllZero-drop_le : (m n : ℕ) (cs : List ℕ) → m ≤ n → AllZero (drop m cs) → AllZero (drop n cs)
AllZero-drop_le zero n cs le z = AllZero-drop n cs z
AllZero-drop_le (suc m) zero cs le z = absurd (omega arith)
AllZero-drop_le (suc m) (suc n) [] le z = tt
AllZero-drop_le (suc m) (suc n) (c ∷ cs) le z = AllZero-drop_le m n cs (omega arith) z

highest-count : (o : ℕ) (cs : List ℕ) (k : ℕ) → IsHighest o cs (some k) → 0 < count_at cs (k - o)
highest-count o [] k h = absurd h
highest-count o (c ∷ cs) k (inl (e, free, z)) = let here : k - o ≡ 0 = omega arith in rw here free
highest-count o (c ∷ cs) k (inr (lt, h)) =
    let next : k - o ≡ suc (k - suc o) = omega arith in rw next (highest-count (suc o) cs k h)

highest-above :
    (o : ℕ) (cs : List ℕ) (k : ℕ) → IsHighest o cs (some k) → AllZero (drop (suc k - o) cs)
highest-above o [] k h = absurd h
highest-above o (c ∷ cs) k (inl (e, free, z)) = let here : suc k - o ≡ 1 = omega arith in rw here z
highest-above o (c ∷ cs) k (inr (lt, h)) =
    let next : suc k - o ≡ suc (suc k - suc o) = omega arith in
    rw next (highest-above (suc o) cs k h)

-- The largest order so far, raised to that of one zone.
raise_order_lem :
    (old : ℕ) (cs : List ℕ) (r : Option ℕ)
    → IsHighest 0 cs r
    → let k = raise_order old r in
      (old ≤ k) × AllZero (drop (suc k) cs) × ((k ≡ old) ⊎ (0 < count_at cs k))
raise_order_lem old cs none z = (omega arith, AllZero-drop (suc old) cs z, inl refl)
raise_order_lem old cs (some o) h =
    let here : o - 0 ≡ o = omega arith in
    let next : suc o - 0 ≡ suc o = omega arith in
    let free = subst (λ x. 0 < count_at cs x) here (highest-count 0 cs o h) in
    let empty = subst (λ x. AllZero (drop x cs)) next (highest-above 0 cs o h) in
    elim (Bool-cases (ltb old o)) [
      | inl lt ↦ let le : old ≤ o = ground arith in rw lt (le, empty, inr free)
      | inr ge ↦
          let le : o ≤ old = ground arith in
          rw ge (omega arith, AllZero-drop_le (suc o) (suc old) cs (omega arith) empty, inl refl)
    ]

-- What a loop over zones leaves as the largest order, from the order `old`.
abbrev Headroom : ℕ → List (List ℕ) → ℕ → Type 0
Headroom old css k = (old ≤ k) × AllEmptyAbove k css × ((k ≡ old) ⊎ HasFree k css)

-- A zone that raised the order to `mid` before the loop went on.
cons-Headroom :
    (old mid k : ℕ) (cs : List ℕ) (css : List (List ℕ))
    → old ≤ mid
    → AllZero (drop (suc mid) cs)
    → (mid ≡ old) ⊎ (0 < count_at cs mid)
    → Headroom mid css k
    → Headroom old (cs ∷ css) k
cons-Headroom old mid k cs css le empty from (le', empties, from') = (
  omega arith,
  (AllZero-drop_le (suc mid) (suc k) cs (omega arith) empty, empties),
  reached from from',
)
  where
    reached :
        (mid ≡ old) ⊎ (0 < count_at cs mid)
        → (k ≡ mid) ⊎ HasFree k css
        → (k ≡ old) ⊎ HasFree k (cs ∷ css)
    reached f (inr later) = inr (inr later)
    reached (inl e) (inl e') = inl (omega arith)
    reached (inr free) (inl e') = inr (inl (rw e' free))

module _ {F : Type 0} ⦃fl : Float F⦄ where
  add_zones-Headroom :
      (s : FragSums F) (zs : List BuddyZone)
      → Headroom s.largest (normal_counts zs) (add_zones s zs).largest
  unfolding add_zones
  add_zones-Headroom s [] = (omega arith, tt, inl refl)
  add_zones-Headroom s (z ∷ zs) =
      let k = (add_zones (add_zone s z) zs).largest in
      let rest = add_zones-Headroom (add_zone s z) zs in
      elim (Bool-cases (bytes_eq z.zone (codes "Normal"))) [
        | inl normal ↦
            let raised : (add_zone s z).largest ≡ raise_order s.largest (largest_order 0 z.counts) =
              rw normal refl in
            let (le, empty, from) =
              raise_order_lem s.largest z.counts (largest_order 0 z.counts)
                (IsHighest-from 0 z.counts) in
            rw normal (
              cons-Headroom s.largest (raise_order s.largest (largest_order 0 z.counts)) k z.counts
                (normal_counts zs) le empty from
                (subst (λ m. Headroom m (normal_counts zs) k) raised rest))
        | inr other ↦
            let kept : (add_zone s z).largest ≡ s.largest = rw other refl in
            rw other (subst (λ m. Headroom m (normal_counts zs) k) kept rest)
      ]

-- The largest free order that is reported: above it no zone that is called Normal, of whatever node,
-- has a free block; and it is 0, or one of these zones has a free block of that order. So it is 0
-- without a zone Normal, and also where the zones Normal have free blocks of the order 0 only, or none.
pub largest_free_order_lem :
    (F : Type 0) ⦃fl : Float F⦄ (zones : List BuddyZone)
    → let k = (compute_frag_state {F = F} zones).largest_free_order_normal in
      AllEmptyAbove k (normal_counts zones) × ((k ≡ 0) ⊎ HasFree k (normal_counts zones))
unfolding compute_frag_state
largest_free_order_lem F zones =
    let (_, empty, from) =
      add_zones-Headroom {F = F}
        (record { entropies = []; free_mb = nought; weighted = nought; pages = 0; largest = 0 })
        zones in
    (empty, from)
