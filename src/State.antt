-- ===== src/State.antt =====
-- internal/state/memory.go: the ring buffer of sensor readings. The lock is left out: the code has
-- one goroutine that inserts and takes snapshots. `Insert` writes a reading cell by cell.
pub mod Ring
pub mod Slots
pub mod History
pub mod Stream
use hosa.Prelude.{ℕ, ◌+◌, ◌%◌, Bool, List, ltb, ◌==◌, if◌then◌else◌, length, not}
use hosa.Float.{Float}
use hosa.Outcome.{Outcome, ok, err, ◌>>=◌, for_range, for_cells, reading_size}
use hosa.Linalg.{Matrix, new_matrix, get, put, index}

pub record RingBuffer (F : Type 0) : Type 0 where
  pub rows : Matrix F
  pub head : ℕ
  pub count : ℕ
  pub capacity : ℕ
  pub vars : ℕ

module _ {F : Type 0} ⦃fl : Float F⦄ where
  unfoldable pub new_ring_buffer : ℕ → ℕ → RingBuffer F
  unfolding new_matrix
  new_ring_buffer capacity vars = record {
    rows = new_matrix capacity vars;
    head = 0;
    count = 0;
    capacity = capacity;
    vars = vars;
  }

module _ {F : Type 0} where
  -- The loop of `Insert`, which writes the reading into the row `head`.
  unfoldable pub write_row : RingBuffer F → List F → Outcome (Matrix F)
  write_row rb reading =
      for_range rb.vars (λ j rows. do x ← index reading j; put rows rb.head j x) rb.rows

  unfoldable pub insert : RingBuffer F → List F → Outcome (RingBuffer F)
  unfolding write_row
  insert rb reading = if not (length reading == rb.vars) then err reading_size else do
    rows ← write_row rb reading
    ok (record rb {
      rows = rows;
      head = (rb.head + 1) % rb.capacity;
      count = if ltb rb.count rb.capacity then rb.count + 1 else rb.count;
    })

  unfoldable pub is_ready : RingBuffer F → Bool
  is_ready rb = ltb 1 rb.count

module _ {F : Type 0} ⦃fl : Float F⦄ where
  unfoldable pub snapshot : RingBuffer F → Outcome (Matrix F)
  snapshot rb =
      for_cells rb.count rb.vars (λ i j snap. do x ← get rb.rows i j; put snap i j x)
        (new_matrix rb.count rb.vars)
