-- ===== src/Linalg/Safety.antt =====
-- The indices of the loops of internal/linalg.
use hosa.Prelude.{
  ℕ, ◌*◌, ◌<◌, ◌≡◌, List, arith, length, length-set, set, length-replicate, replicate, ◌==◌, ==_iff,
  true,
}
use hosa.Float.{Float, ◌⊖◌, nought}
use hosa.Outcome.{Outcome, ◌>>=◌}
use hosa.Outcome.Loops.{Returns}
use hosa.Outcome.Safe.{Safe, Any, ok-Safe, Safe-bind, for_range-Safe, for_cells-Safe}
use hosa.Linalg.{Matrix, index, assign, new_matrix, get, put, dot, mul, sub, transpose}
use hosa.Linalg.Cells.{IsShaped, index_ok, get_ok, put_ok, new_matrix-IsShaped}

module _ {F : Type 0} where
  pub index-Safe : (xs : List F) (i : ℕ) → i < length xs → Safe Any (index xs i)
  index-Safe xs i h = ok-Safe (index xs i) (index_ok xs i h)

  pub assign_ok :
      (xs : List F) (i n : ℕ) (v : F)
      → length xs ≡ n
      → i < n
      → Returns (assign xs i v) (λ ys. length ys ≡ n)
  unfolding assign
  assign_ok xs i n v e h = (set xs i v, ground arith, rw (length-set xs i v) e)

  pub assign-Safe :
      (xs : List F) (i n : ℕ) (v : F)
      → length xs ≡ n
      → i < n
      → Safe (λ ys. length ys ≡ n) (assign xs i v)
  unfolding assign
  assign-Safe xs i n v e h = ground (arith, length-set xs i v)

  pub get-Safe :
      (m : Matrix F) (r c i j : ℕ) → IsShaped m r c → i < r → j < c → Safe Any (get m i j)
  get-Safe m r c i j sh a b = ok-Safe (get m i j) (get_ok m r c i j sh a b)

  pub put-Safe :
      (m : Matrix F) (r c i j : ℕ) (v : F)
      → IsShaped m r c
      → i < r
      → j < c
      → Safe (λ m'. IsShaped m' r c) (put m i j v)
  put-Safe m r c i j v sh a b = let (m', e, w) = put_ok m r c i j v sh a b in rw e (w.0)

  -- A round that computes a value and writes it to a cell.
  pub write-Safe :
      (a : Outcome F) (m : Matrix F) (r c i j : ℕ)
      → Safe Any a
      → IsShaped m r c
      → i < r
      → j < c
      → Safe (λ m'. IsShaped m' r c) (do x ← a; put m i j x)
  write-Safe a m r c i j s sh p q =
      Safe-bind Any (λ m'. IsShaped m' r c) a (λ x. put m i j x) s
        (λ x _. put-Safe m r c i j x sh p q)

module _ {F : Type 0} ⦃fl : Float F⦄ where
  pub dot-Safe :
      (m b : Matrix F) (r n c i j : ℕ)
      → IsShaped m r n
      → IsShaped b n c
      → i < r
      → j < c
      → Safe Any (dot m b i j)
  unfolding dot
  dot-Safe m b r n c i j sm sb p q =
      for_range-Safe Any m.cols _ nought
        (λ k t l _. Safe-bind Any Any (get m i k) _ (get-Safe m r n i k sm p (omega arith)) (λ x _.
          Safe-bind Any Any (get b k j) _ (get-Safe b n c k j sb (omega arith) q) (λ y _. tt)))
        tt

  pub mul-Safe :
      (m b : Matrix F) (r n c : ℕ)
      → IsShaped m r n
      → IsShaped b n c
      → Safe (λ p. IsShaped p r c) (mul m b)
  unfolding mul
  mul-Safe m b r n c sm sb =
      let cols : (m.cols == b.rows) ≡ true = (==_iff m.cols b.rows).1 (omega arith) in
      rw (cols, ← sm.0, ← sb.1)
        (for_cells-Safe (λ p. IsShaped p m.rows b.cols) m.rows b.cols _ (new_matrix m.rows b.cols)
          (λ i j t p q w.
            write-Safe (dot m b i j) t m.rows b.cols i j
              (dot-Safe m b r n c i j sm sb (omega arith) (omega arith)) w p q)
          (new_matrix-IsShaped F m.rows b.cols))

  pub transpose-Safe :
      (m : Matrix F) (r c : ℕ) → IsShaped m r c → Safe (λ t. IsShaped t c r) (transpose m)
  unfolding transpose
  transpose-Safe m r c sm =
      rw (← sm.0, ← sm.1)
        (for_cells-Safe (λ t. IsShaped t m.cols m.rows) m.rows m.cols _ (new_matrix m.cols m.rows)
          (λ i j t p q w.
            write-Safe (get m i j) t m.cols m.rows j i
              (get-Safe m r c i j sm (omega arith) (omega arith)) w q p)
          (new_matrix-IsShaped F m.cols m.rows))

  pub sub-Safe :
      (m b : Matrix F) (r c : ℕ)
      → IsShaped m r c
      → IsShaped b r c
      → Safe (λ d. IsShaped d r c) (sub m b)
  unfolding sub
  sub-Safe m b r c sm sb =
      let same_rows : (m.rows == b.rows) ≡ true = (==_iff m.rows b.rows).1 (omega arith) in
      let same_cols : (m.cols == b.cols) ≡ true = (==_iff m.cols b.cols).1 (omega arith) in
      let area : m.rows * m.cols ≡ r * c = rw (sm.0, sm.1) in
      rw (same_rows, same_cols)
        (Safe-bind (λ zs. length zs ≡ r * c) (λ d. IsShaped d r c) _ _
          (for_range-Safe (λ zs. length zs ≡ r * c) (length m.cells) _
            (replicate (m.rows * m.cols) nought)
            (λ i zs l e.
              Safe-bind Any (λ ys. length ys ≡ r * c) (index m.cells i) _ (index-Safe m.cells i l)
                (λ x _.
                  Safe-bind Any (λ ys. length ys ≡ r * c) (index b.cells i) _
                    (index-Safe b.cells i (omega arith))
                    (λ y _. assign-Safe zs i (r * c) (x ⊖ y) e (omega arith))))
            (rw (length-replicate (m.rows * m.cols) nought, area)))
          (λ zs e. (sm.0, sm.1, e)))
