-- ===== src/Sensor/Fragmentation/Compaction.antt =====
-- The counts of pages that the entropy and the headroom rest on.
use hosa.Prelude.{
  lt→ltb, ℕ, zero, suc, ◌+◌, ◌*◌, ◌%◌, ◌^◌, ◌≤◌, ◌<◌, ◌≡◌, refl, Option, none, some, List, [], ◌∷◌,
  arith, ◌⊎◌, inl, inr,
}
use hosa.Sensor.Fragmentation.{total_pages, or_here, largest_order}

-- The base pages of the blocks, with no bound.
abbrev pub pages_from : ℕ → List ℕ → ℕ
pages_from o [] = 0
pages_from o (c ∷ cs) = c * 2 ^ o + pages_from (suc o) cs

total_pages_from :
    (o : ℕ) (cs : List ℕ) (total : ℕ)
    → total + pages_from o cs < 2 ^ 64
    → total_pages o cs total ≡ total + pages_from o cs
unfolding total_pages
total_pages_from o [] total h = omega arith
total_pages_from o (c ∷ cs) total h =
    let e : (total + c * 2 ^ o) % 2 ^ 64 ≡ total + c * 2 ^ o = omega arith in
    rw e (omega (arith, total_pages_from (suc o) cs (total + c * 2 ^ o) (omega arith)))

-- The total of a zone is the number of base pages of its free blocks, a block of order o being 2^o
-- pages, wherever that number fits a uint64.
pub total_pages-exact :
    (counts : List ℕ) → pages_from 0 counts < 2 ^ 64 → total_pages 0 counts 0 ≡ pages_from 0 counts
total_pages-exact counts h = omega (arith, total_pages_from 0 counts 0 (omega arith))

abbrev pub AllZero : List ℕ → Type 0
AllZero [] = Unit
AllZero (c ∷ cs) = (c ≡ 0) × AllZero cs

-- The order `k`, counted from the order `o` of the first count, has free blocks, and none above it
-- has; or there is no free block at all.
abbrev pub IsHighest : ℕ → List ℕ → Option ℕ → Type 0
IsHighest o cs none = AllZero cs
IsHighest o [] (some k) = ⊥
IsHighest o (c ∷ cs) (some k) =
    ((k ≡ o) × (0 < c) × AllZero cs) ⊎ ((o < k) × IsHighest (suc o) cs (some k))

highest_ge : (o : ℕ) (cs : List ℕ) (k : ℕ) → IsHighest o cs (some k) → o ≤ k
highest_ge o [] k h = elim h [ ]
highest_ge o (c ∷ cs) k (inl h) = omega arith
highest_ge o (c ∷ cs) k (inr h) = omega arith

or_here-IsHighest :
    (o c : ℕ) (cs : List ℕ) (r : Option ℕ)
    → IsHighest (suc o) cs r
    → IsHighest o (c ∷ cs) (or_here r c o)
or_here-IsHighest o zero cs none h = (refl, h)
or_here-IsHighest o (suc c) cs none h =
    rw (lt→ltb 0 (suc c) (omega arith)) (inl (refl, omega arith, h))
or_here-IsHighest o c cs (some k) h = inr (highest_ge (suc o) cs k h, h)

-- The highest order with a free block, and none where every count is 0.
pub IsHighest-from : (o : ℕ) (cs : List ℕ) → IsHighest o cs (largest_order o cs)
unfolding largest_order
IsHighest-from o [] = tt
IsHighest-from o (c ∷ cs) =
    or_here-IsHighest o c cs (largest_order (suc o) cs) (IsHighest-from (suc o) cs)
