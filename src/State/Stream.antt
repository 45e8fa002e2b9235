-- ===== src/State/Stream.antt =====
-- `Snapshot` after a stream of readings.
use hosa.Prelude.{
  ℕ, zero, suc, ◌+◌, ◌-◌, ◌*◌, ◌%◌, ◌≤◌, ◌<◌, ◌≡◌, refl, List, [], ◌∷◌, arith, length, get_or,
}
use native.Mathlib.Nat.{mod-lt, mod-eq_of_lt}
use hosa.Float.{Float, nought}
use hosa.Outcome.{Outcome, ok, ◌>>=◌}
use hosa.Outcome.Loops.{Returns, Returns-bind}
use hosa.Linalg.{Matrix, index, new_matrix, get}
use hosa.Linalg.Cells.{IsShaped, fill_ok, new_matrix-IsShaped, cell_within}
use hosa.State.{RingBuffer, new_ring_buffer, insert, snapshot}
use hosa.State.Slots.{counted, last_slot, slot_counted}
use hosa.State.Ring.{IsWellFormed}
use hosa.State.History.{Remembers, Remembers-IsWellFormed, insert-Remembers}

index-get_or :
    {F : Type 0} (xs : List F) (i : ℕ) (d : F) → i < length xs → index xs i ≡ ok (get_or xs i d)
unfolding index
index-get_or [] i d l = absurd (omega arith)
index-get_or (x ∷ xs) zero d l = refl
index-get_or (x ∷ xs) (suc i) d l = index-get_or xs i d (omega arith)

module _ {F : Type 0} ⦃fl : Float F⦄ where
  -- The first `n` readings of `h`, inserted into a new buffer.
  unfoldable pub fed : ℕ → ℕ → (ℕ → List F) → ℕ → Outcome (RingBuffer F)
  unfolding insert new_ring_buffer
  fed capacity vars h zero = ok (new_ring_buffer capacity vars)
  fed capacity vars h (suc n) = fed capacity vars h n >>= (λ rb. insert rb (h n))

  new_ring_buffer-Remembers :
      (capacity vars : ℕ) (h : ℕ → List F)
      → 0 < capacity
      → Remembers capacity vars h 0 (new_ring_buffer capacity vars)
  unfolding new_ring_buffer
  new_ring_buffer-Remembers capacity vars h pos = (
    refl,
    refl,
    new_matrix-IsShaped F capacity vars,
    rw (mod-eq_of_lt pos),
    ground arith,
    λ k j l _ _. absurd (omega arith),
  )

  fed-Remembers :
      (capacity vars : ℕ) (h : ℕ → List F) (n : ℕ)
      → 0 < capacity
      → ((k : ℕ) → length (h k) ≡ vars)
      → Returns (fed capacity vars h n) (Remembers capacity vars h n)
  unfolding fed
  fed-Remembers capacity vars h zero pos len =
      (new_ring_buffer capacity vars, refl, new_ring_buffer-Remembers capacity vars h pos)
  fed-Remembers capacity vars h (suc n) pos len =
      Returns-bind (Remembers capacity vars h n) (Remembers capacity vars h (suc n)) _ _
        (fed-Remembers capacity vars h n pos len)
        (λ rb w. insert-Remembers capacity vars h n rb pos (len n) w)

  cell_at : Matrix F → ℕ → ℕ → F
  cell_at m i j = get_or m.cells (i * m.cols + j) nought

  -- `Snapshot` of a well-formed buffer succeeds, with the first `count` slots as its rows.
  pub snapshot_lem :
      (rb : RingBuffer F)
      → IsWellFormed rb
      → Returns (snapshot rb) (λ s.
        IsShaped s rb.count rb.vars
        × ((i j : ℕ) → i < rb.count → j < rb.vars → get s i j ≡ get rb.rows i j))
  unfolding snapshot get cell_at
  snapshot_lem rb (pos, (er, ec, el), hd, fill) =
      let le : rb.count ≤ rb.capacity = ground arith in
      let at : (i j : ℕ) → i < rb.count → j < rb.vars → get rb.rows i j ≡ ok (cell_at rb.rows i j) =
        (λ i j a b.
          index-get_or rb.rows.cells (i * rb.rows.cols + j) nought
            (rw (ec, el) (cell_within rb.capacity rb.vars i j (omega arith) b))) in
      let (s, e, (sh, held)) =
        fill_ok rb.count rb.vars (cell_at rb.rows) (get rb.rows) (new_matrix rb.count rb.vars) at
          (new_matrix-IsShaped F rb.count rb.vars) in
      (s, e, (sh, λ i j a b. rw (held i j a b, at i j a b)))

  fed_then_snapshot :
      (capacity vars : ℕ) (h : ℕ → List F) (n : ℕ)
      → 0 < capacity
      → ((k : ℕ) → length (h k) ≡ vars)
      → Returns (fed capacity vars h n >>= snapshot) (λ s.
        IsShaped s (counted n capacity) vars
        × ((k j : ℕ)
            → k < n
            → n ≤ k + capacity
            → j < vars
            → get s (k % capacity) j ≡ index (h k) j))
  fed_then_snapshot capacity vars h n pos len =
      Returns-bind (Remembers capacity vars h n) _ (fed capacity vars h n) snapshot
        (fed-Remembers capacity vars h n pos len)
        (λ rb mem.
          let (ec, ev, sh, eh, en, held) = mem in
          let (s, e, ((er, ec', el), same)) =
            snapshot_lem rb (Remembers-IsWellFormed capacity vars h n rb pos mem) in
          let counts : rb.count * rb.vars ≡ counted n capacity * vars = rw (en, ev) in
          (
            s,
            e,
            (
              (omega arith, omega arith, omega arith),
              λ k j l u b.
                  rw (same (k % capacity) j (rw en (slot_counted k n capacity pos l)) (omega arith))
                    (held k j l u b),
            ),
          ))

  -- `Snapshot` after `n` readings of the right size, inserted into a new buffer of a positive
  -- capacity: none of the calls fails, the snapshot has min(n, capacity) rows, and reading `k` of
  -- the last `capacity` readings is the row `k % capacity` of it.
  pub fed-snapshot :
      (capacity vars : ℕ) (h : ℕ → List F) (n k j : ℕ)
      → 0 < capacity
      → ((k' : ℕ) → length (h k') ≡ vars)
      → k < n
      → n ≤ k + capacity
      → j < vars
      → Returns (fed capacity vars h n >>= snapshot) (λ s.
        (s.rows ≡ counted n capacity) × (s.cols ≡ vars) × (get s (k % capacity) j ≡ index (h k) j))
  fed-snapshot capacity vars h n k j pos len l u b =
      let (s, e, (sh, held)) = fed_then_snapshot capacity vars h n pos len in
      (s, e, (sh.0, sh.1, held k j l u b))

  -- The last row of the snapshot, which `Analyze` takes for the newest reading, after `n` readings
  -- of the right size inserted into a new buffer of a positive capacity: once the buffer has been
  -- full, it is the reading before the last `n % capacity` ones, so the newest one only when the
  -- capacity divides `n`.
  pub last_row-stale :
      (capacity vars : ℕ) (h : ℕ → List F) (n j : ℕ)
      → 0 < capacity
      → capacity ≤ n
      → ((k : ℕ) → length (h k) ≡ vars)
      → j < vars
      → Returns
          (fed capacity vars h n >>= snapshot)
          (λ s. get s (s.rows - 1) j ≡ index (h (n - 1 - n % capacity)) j)
  last_row-stale capacity vars h n j pos le len b =
      let (s, e, (sh, held)) = fed_then_snapshot capacity vars h n pos len in
      let rows : s.rows ≡ capacity = ground arith in
      let k = n - 1 - n % capacity in
      (
        s,
        e,
        rw (rows, ← last_slot n capacity pos le)
            (held k j (omega arith) (omega (arith, mod-lt n pos)) b),
      )
