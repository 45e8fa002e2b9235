-- ===== src/State/History.antt =====
-- The ring buffer against the stream of readings inserted into it.
use hosa.Prelude.{
  ℕ, suc, ◌+◌, ◌%◌, ◌≤◌, ◌<◌, ◌≡◌, ◌≢◌, ap, inl, inr, List, arith, length, ltb, if◌then◌else◌,
}
use native.Mathlib.Nat.{mod-lt, mod-add-mod}
use hosa.Outcome.Loops.{Returns}
use hosa.Linalg.{index, get}
use hosa.Linalg.Cells.{IsShaped}
use hosa.State.{RingBuffer, insert}
use hosa.State.Slots.{mod_apart, counted, filled, same_or_earlier}
use hosa.State.Ring.{IsWellFormed, RowIs, insert_lem}

module _ {F : Type 0} where
  -- After `n` readings the buffer counts them up to its capacity, and the reading `k` of the last
  -- `capacity` ones is in the slot `k % capacity`.
  abbrev pub Remembers : ℕ → ℕ → (ℕ → List F) → ℕ → RingBuffer F → Type 0
  Remembers capacity vars h n rb =
      (rb.capacity ≡ capacity)
      × (rb.vars ≡ vars)
      × IsShaped rb.rows capacity vars
      × (rb.head ≡ n % capacity)
      × (rb.count ≡ counted n capacity)
      × ((k j : ℕ)
          → k < n
          → n ≤ k + capacity
          → j < vars
          → get rb.rows (k % capacity) j ≡ index (h k) j)

  -- The shape is that of a well-formed buffer.
  pub Remembers-IsWellFormed :
      (capacity vars : ℕ) (h : ℕ → List F) (n : ℕ) (rb : RingBuffer F)
      → 0 < capacity
      → Remembers capacity vars h n rb
      → IsWellFormed rb
  Remembers-IsWellFormed capacity vars h n rb pos (ec, ev, sh, eh, en, held) = (
    omega arith,
    (omega arith, omega arith, rw (ec, ev) (sh.2)),
    omega (arith, mod-lt n pos),
    ground (arith, filled n capacity),
  )

  -- What `Insert` does to a buffer, from `insert_lem`.
  abbrev pub Inserted : RingBuffer F → List F → RingBuffer F → Type 0
  Inserted rb reading rb' =
      IsWellFormed rb'
      × (rb'.head ≡ (rb.head + 1) % rb.capacity)
      × (rb'.count ≡ (if ltb rb.count rb.capacity then rb.count + 1 else rb.capacity))
      × (rb'.capacity ≡ rb.capacity)
      × (rb'.vars ≡ rb.vars)
      × RowIs rb reading rb.vars rb'.rows

  Remembers-next :
      (capacity vars : ℕ) (h : ℕ → List F) (n : ℕ) (rb rb' : RingBuffer F)
      → Remembers capacity vars h n rb
      → Inserted rb (h n) rb'
      → Remembers capacity vars h (suc n) rb'
  Remembers-next capacity vars h n rb rb' mem new =
      let (ec, ev, sh, eh, en, held) = mem in
      let (_, hd, cnt, cap, vs, (sh', now, others)) = new in
      (
        omega arith,
        omega arith,
        (omega arith, omega arith, rw (← ec, ← ev) (sh'.2)),
        next_head,
        ground arith,
        λ k j l u b. elim (same_or_earlier k n l) [
          | inl same ↦ rw (same, ← eh) (now j (omega arith) (omega arith))
          | inr l' ↦
              rw (others (k % capacity) j (omega arith) (λ e. apart k l' u (rw (← e, eh))))
                (held k j l' (omega arith) b)
        ],
      )
    where
      next_head : rb'.head ≡ suc n % capacity
      next_head =
          rw (new.1, mem.0, mem.3, mod-add-mod n capacity 1)
            (ap (λ m. m % capacity) (let e : n + 1 ≡ suc n = omega arith in e))

      apart : (k : ℕ) → k < n → suc n ≤ k + capacity → k % capacity ≢ n % capacity
      apart k l u = mod_apart capacity k n l (omega arith)

  pub insert-Remembers :
      (capacity vars : ℕ) (h : ℕ → List F) (n : ℕ) (rb : RingBuffer F)
      → 0 < capacity
      → length (h n) ≡ vars
      → Remembers capacity vars h n rb
      → Returns (insert rb (h n)) (Remembers capacity vars h (suc n))
  insert-Remembers capacity vars h n rb pos len mem =
      let wf = Remembers-IsWellFormed capacity vars h n rb pos mem in
      let (rb', e, new) = insert_lem rb (h n) wf (rw (mem.1) len) in
      (rb', e, Remembers-next capacity vars h n rb rb' mem new)
