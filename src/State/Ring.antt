-- ===== src/State/Ring.antt =====
-- The shape of the ring buffer, and one `Insert`.
use hosa.Prelude.{
  ℕ, suc, ◌+◌, ◌%◌, ◌≤◌, ◌<◌, ◌≡◌, ◌≢◌, refl, ◌⊎◌, inl, inr, true, List, arith, length, ltb, ◌==◌,
  ==_iff, if◌then◌else◌,
}
use hosa.Outcome.{ok}
use hosa.Outcome.Loops.{Returns, for_range_ok}
use hosa.Linalg.{Matrix, index, get}
use hosa.Linalg.Cells.{IsShaped, Wrote, put_ok, index_ok}
use native.Mathlib.Nat.{mod-lt, mod-eq_of_lt}
use hosa.State.{RingBuffer, write_row, insert}

slots :
    (head count capacity : ℕ)
    → head < capacity
    → ((count ≡ capacity) ⊎ ((count < capacity) × (head ≡ count)))
    → let count' = if ltb count capacity then count + 1 else count in
      ((count' ≡ capacity) ⊎ ((count' < capacity) × ((head + 1) % capacity ≡ count')))
slots head count capacity hd f = elim (full_or_less (head + 1) capacity (omega arith)) [
  | inl full ↦ ground arith
  | inr less ↦ ground (arith, mod-eq_of_lt less)
]
  where
    full_or_less : (a b : ℕ) → a ≤ b → (a ≡ b) ⊎ (a < b)
    full_or_less a b h = omega arith

module _ {F : Type 0} where
  -- The buffer is not empty of rows, its matrix has one row for each slot, the next slot exists, and
  -- the buffer is full or is filled from the first slot on.
  abbrev pub IsWellFormed : RingBuffer F → Type 0
  IsWellFormed rb =
      (0 < rb.capacity)
      × IsShaped rb.rows rb.capacity rb.vars
      × (rb.head < rb.capacity)
      × ((rb.count ≡ rb.capacity) ⊎ ((rb.count < rb.capacity) × (rb.head ≡ rb.count)))

  -- The first `n` cells of the row hold the reading, and the other rows are as before.
  abbrev pub RowIs : RingBuffer F → List F → ℕ → Matrix F → Type 0
  RowIs rb reading n m =
      IsShaped m rb.capacity rb.vars
      × ((j : ℕ) → j < n → j < rb.vars → get m rb.head j ≡ index reading j)
      × ((i j : ℕ) → j < rb.vars → rb.head ≢ i → get m i j ≡ get rb.rows i j)

  row_next :
      (rb : RingBuffer F) (reading : List F) (j : ℕ) (x : F) (m m' : Matrix F)
      → j < rb.vars
      → index reading j ≡ ok x
      → RowIs rb reading j m
      → Wrote m rb.capacity rb.vars rb.head j x m'
      → RowIs rb reading (suc j) m'
  row_next rb reading j x m m' b e (sh, row, rest) (sh', now, others) = (
    sh',
    λ j' l b'. elim (earlier j' l) [
      | inl same ↦ rw (← same) (rw (now, e))
      | inr l' ↦ rw (others rb.head j' b' (λ (_, d). omega arith)) (row j' l' b')
    ],
    λ i j' b' ne. rw (others i j' b' (λ (d, _). ne d)) (rest i j' b' ne),
  )
    where
      earlier : (j' : ℕ) → j' < suc j → (j ≡ j') ⊎ (j' < j)
      earlier j' l = omega arith

  write_row_ok :
      (rb : RingBuffer F) (reading : List F)
      → IsWellFormed rb
      → length reading ≡ rb.vars
      → Returns (write_row rb reading) (RowIs rb reading rb.vars)
  unfolding write_row
  write_row_ok rb reading (pos, sh, hd, fill) len =
      for_range_ok (RowIs rb reading) rb.vars _ rb.rows
        (λ j m b w.
          let (x, e) = index_ok reading j (omega arith) in
          let (m', e', wr) = put_ok m rb.capacity rb.vars rb.head j x w.0 hd b in
          (m', rw e e', row_next rb reading j x m m' b e w wr))
        (sh, λ j l _. absurd (omega arith), λ i j _ _. refl)

  -- On a well-formed buffer, `Insert` of a reading of the right size succeeds and keeps the buffer
  -- well-formed. The reading is then in the slot that was next, the other slots are as before, and
  -- the count has grown by one up to the capacity.
  pub insert_lem :
      (rb : RingBuffer F) (reading : List F)
      → IsWellFormed rb
      → length reading ≡ rb.vars
      → Returns (insert rb reading) (λ rb'.
        IsWellFormed rb'
        × (rb'.head ≡ (rb.head + 1) % rb.capacity)
        × (rb'.count ≡ (if ltb rb.count rb.capacity then rb.count + 1 else rb.capacity))
        × (rb'.capacity ≡ rb.capacity)
        × (rb'.vars ≡ rb.vars)
        × RowIs rb reading rb.vars rb'.rows)
  unfolding insert
  insert_lem rb reading wf len =
      let (rows, e, w) = write_row_ok rb reading wf len in
      let size : (length reading == rb.vars) ≡ true = (==_iff (length reading) rb.vars).1 len in
      let next = mod-lt (rb.head + 1) wf.0 in
      let rb' : RingBuffer F = record rb {
        rows = rows;
        head = (rb.head + 1) % rb.capacity;
        count = if ltb rb.count rb.capacity then rb.count + 1 else rb.count;
      } in
      (
        rb',
        rw (size, e),
        (
          (wf.0, w.0, next, slots rb.head rb.count rb.capacity wf.2 wf.3),
          refl,
          ground arith,
          refl,
          refl,
          w,
        ),
      )
