-- ===== src/Tests/StateTests.antt =====
-- internal/state and internal/linalg on concrete readings.
use hosa.Tests.Residue.{Residue, r0, r1, r2, r3, r4, r5, residue_float, residue-IsExact}
use hosa.Brain.Welford.{new_welford_state, covariance}
use hosa.Brain.Welford.Sums.{update_all}
use hosa.Brain.Welford.Batch.{IsBatchCovariance, covariance-update_all}
use hosa.Prelude.{ℕ, zero, suc, ◌-◌, ◌<◌, ◌≡◌, refl, List, [], ◌∷◌, arith, length}
use hosa.Float.Fixed.{Fixed, fixed_float}
use hosa.Outcome.{ok, ◌>>=◌}
use hosa.Outcome.Loops.{Returns}
use hosa.Linalg.{Matrix, index, get, mul}
use hosa.Linalg.Product.{sum_of_products, mul_lem}
use hosa.Prelude.{inl}
use hosa.Prelude.Int.{pos, negsuc}
use hosa.Float.Fixed.{fixed}
use hosa.Outcome.{for_range, for_between, for_cells}
use hosa.Linalg.{put, new_matrix}
use hosa.Linalg.Inverse.{inverse}
use hosa.State.{RingBuffer, snapshot}
use hosa.State.Ring.{IsWellFormed}
use hosa.Brain.Cortex.{analyze}
use hosa.Brain.Cortex.Safety.{IsSound, Analyzed, analyze_ok}
use hosa.Tests.Data.{cortex_at}
use hosa.State.Stream.{fed, fed-snapshot, last_row-stale}
use hosa.Tests.Data.{tenths}

-- The reading `k` is [k / 10].
abbrev stream : ℕ → List Fixed
stream k = tenths k ∷ []

stream_sized : (k : ℕ) → length (stream k) ≡ 1
stream_sized k = refl

fed-snapshot_example :
    Returns
      (fed 3 1 stream 4 >>= snapshot)
      (λ s. (s.rows ≡ 3) × (s.cols ≡ 1) × (get s 2 0 ≡ index (stream 2) 0))
fed-snapshot_example =
    fed-snapshot 3 1 stream 4 2 0 (omega arith) stream_sized (omega arith) (omega arith)
      (omega arith)

-- After four readings in a buffer of three, the last row is the reading 2, not the newest one, 3.
last_row-stale_example :
    Returns (fed 3 1 stream 4 >>= snapshot) (λ s. get s (s.rows - 1) 0 ≡ index (stream 2) 0)
last_row-stale_example =
    last_row-stale 3 1 stream 4 0 (omega arith) (omega arith) stream_sized (omega arith)

abbrev row : Matrix Fixed
row = record { rows = 1; cols = 2; cells = tenths 20 ∷ tenths 30 ∷ [] }

abbrev column : Matrix Fixed
column = record { rows = 2; cols = 1; cells = tenths 40 ∷ tenths 50 ∷ [] }

abbrev row_entry : ℕ → ℕ → Fixed
row_entry i zero = tenths 20
row_entry i (suc j) = tenths 30

abbrev column_entry : ℕ → ℕ → Fixed
column_entry zero j = tenths 40
column_entry (suc i) j = tenths 50

row_held : (i j : ℕ) → i < 1 → j < 2 → get row i j ≡ ok (row_entry i j)
unfolding get index
row_held zero zero a b = refl
row_held zero (suc zero) a b = refl
row_held zero (suc (suc j)) a b = absurd (omega arith)
row_held (suc i) j a b = absurd (omega arith)

column_held : (i j : ℕ) → i < 2 → j < 1 → get column i j ≡ ok (column_entry i j)
unfolding get index
column_held zero zero a b = refl
column_held (suc zero) zero a b = refl
column_held (suc (suc i)) zero a b = absurd (omega arith)
column_held i (suc j) a b = absurd (omega arith)

product_is : sum_of_products 2 (row_entry 0) (λ k. column_entry k 0) ≡ tenths 230
unfolding sum_of_products
product_is = refl

mul_lem_example : Returns (mul row column) (λ p.
    (p.rows ≡ 1)
    × (p.cols ≡ 1)
    × (get p 0 0 ≡ ok (sum_of_products 2 (row_entry 0) (λ k. column_entry k 0))))
mul_lem_example =
    mul_lem row column 1 2 1 0 0 row_entry column_entry ((refl, refl, refl), row_held)
      ((refl, refl, refl), column_held) (omega arith) (omega arith)

abbrev square : Matrix Fixed
square = record { rows = 2; cols = 2; cells = tenths 20 ∷ tenths 10 ∷ tenths 0 ∷ tenths 40 ∷ [] }

inverse_is :
    inverse square
    ≡ ok (record {
      rows = 2;
      cols = 2;
      cells = tenths 5 ∷ fixed (negsuc 1249) ∷ tenths 0 ∷ fixed (pos 2500) ∷ [];
    })
unfolding inverse for_range for_between for_cells get put new_matrix
inverse_is = refl

abbrev filled_buffer : RingBuffer Fixed
filled_buffer = record {
  rows = record { rows = 2; cols = 1; cells = tenths 10 ∷ tenths 30 ∷ [] };
  head = 0;
  count = 2;
  capacity = 2;
  vars = 1;
}

filled_buffer-IsWellFormed : IsWellFormed filled_buffer
filled_buffer-IsWellFormed = (omega arith, (refl, refl, refl), omega arith, inl refl)

cortex-IsSound : IsSound 1 (cortex_at 2)
cortex-IsSound = ((refl, refl, refl), ground arith)

analyze_ok_example : Returns (analyze (cortex_at 2) filled_buffer 9) (Analyzed 1)
analyze_ok_example =
    analyze_ok (cortex_at 2) filled_buffer 9 filled_buffer-IsWellFormed cortex-IsSound

-- Three readings of two variables, modulo 7.
abbrev three_readings : List (List Residue)
three_readings = (r1 ∷ r2 ∷ []) ∷ (r3 ∷ r5 ∷ []) ∷ (r0 ∷ r4 ∷ []) ∷ []

covariance-update_all_example :
    Returns
      (do w ← update_all (new_welford_state 2) three_readings; covariance w)
      (IsBatchCovariance 2 three_readings)
covariance-update_all_example =
    covariance-update_all 2 three_readings residue-IsExact (omega arith) (refl, (refl, (refl, tt)))
