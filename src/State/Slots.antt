-- ===== src/State/Slots.antt =====
-- The arithmetic of the slots of a ring buffer: remainders by the capacity.
use hosa.Prelude.{
  ℕ, suc, ◌+◌, ◌-◌, ◌*◌, ◌/◌, ◌%◌, ◌≤◌, ◌<◌, ◌≡◌, ◌≢◌, ap, ◌⊎◌, inl, inr, arith, ltb, if◌then◌else◌,
}
use native.Mathlib.Nat.{mod-lt, mod-eq_of_lt, div-add-mod', mul-add-mod_self_right, suc-mul}
use hosa.Linalg.Cells.{mul_mono, trichotomy}

-- Two numbers less than `c` apart have different remainders by `c`.
pub mod_apart : (c k n : ℕ) → k < n → n < k + c → k % c ≢ n % c
mod_apart c k n l u e = elim (trichotomy (k / c) (n / c)) [
  | inl lt ↦ omega (arith, mul_mono (suc (k / c)) (n / c) c lt, div-add-mod' k c, div-add-mod' n c)
  | inr (inl eq) ↦ omega (arith, ap (λ q. q * c) eq, div-add-mod' k c, div-add-mod' n c)
  | inr (inr gt) ↦
      omega (arith, mul_mono (suc (n / c)) (k / c) c gt, div-add-mod' k c, div-add-mod' n c)
]

pub less_or_not : (a b : ℕ) → (a < b) ⊎ (b ≤ a)
less_or_not a b = omega arith

abbrev pub counted : ℕ → ℕ → ℕ
counted n capacity = if ltb n capacity then n else capacity

pub filled :
    (n capacity : ℕ)
    → (counted n capacity ≡ capacity)
      ⊎ ((counted n capacity < capacity) × (n % capacity ≡ counted n capacity))
filled n capacity = elim (less_or_not n capacity) [
  | inl l ↦ ground (arith, mod-eq_of_lt l)
  | inr g ↦ ground arith
]

pub same_or_earlier : (k n : ℕ) → k < suc n → (k ≡ n) ⊎ (k < n)
same_or_earlier k n l = omega arith

pub quotient_pos : (n capacity : ℕ) → 0 < capacity → capacity ≤ n → 1 ≤ n / capacity
quotient_pos n capacity pos le = elim (less_or_not 0 (n / capacity)) [
  | inl l ↦ omega arith
  | inr z ↦
      omega (arith, mul_mono (n / capacity) 0 capacity z, div-add-mod' n capacity, mod-lt n pos)
]

pub last_slot :
    (n capacity : ℕ)
    → 0 < capacity
    → capacity ≤ n
    → (n - 1 - n % capacity) % capacity ≡ capacity - 1
last_slot n capacity pos le =
    let p = n / capacity - 1 in
    let whole = quotient_pos n capacity pos le in
    let split : n / capacity * capacity ≡ p * capacity + capacity = omega (
      arith,
      ap (λ q. q * capacity) (let e : n / capacity ≡ suc p = omega arith in e),
      suc-mul p capacity,
    ) in
    let e : n - 1 - n % capacity ≡ p * capacity + (capacity - 1) =
      omega (arith, div-add-mod' n capacity, mod-lt n pos) in
    rw (e, mul-add-mod_self_right p capacity (capacity - 1)) (mod-eq_of_lt (omega arith))

-- The slot of a reading that the buffer remembers is one of the counted ones.
pub slot_counted : (k n capacity : ℕ) → 0 < capacity → k < n → k % capacity < counted n capacity
slot_counted k n capacity pos l = elim (less_or_not n capacity) [
  | inl small ↦ ground (arith, mod-eq_of_lt (let lt : k < capacity = omega arith in lt))
  | inr full ↦ ground (arith, mod-lt k pos)
]
