-- ===== src/Brain/Cortex/Safety.antt =====
-- `Analyze` of internal/brain/predictor.go: the indices of its loops and its results.
use hosa.Prelude.{
  ℕ, ◌+◌, ◌-◌, ◌≤◌, ◌<◌, ◌≡◌, refl, arith, List, length, length-replicate, replicate, true,
  Bool-cases, inl, inr, ltb, if◌then◌else◌, Option, none, some,
}
use hosa.Float.{Float, nought}
use hosa.Outcome.{GoError, Outcome, ok, err, panic, ◌>>=◌}
use hosa.Outcome.Loops.{Returns, Returns-bind, for_range_ok}
use hosa.Outcome.Safe.{Safe, Any, Safe-bind}
use hosa.Linalg.{Matrix, get, sub, mul, transpose}
use hosa.Linalg.Cells.{IsShaped, get_ok}
use hosa.Linalg.Safety.{get-Safe, sub-Safe, mul-Safe, transpose-Safe, assign_ok}
use hosa.Linalg.Inverse.{inverse}
use hosa.Linalg.Inverse.Safety.{inverse-Safe}
use hosa.State.{RingBuffer, is_ready, snapshot}
use hosa.State.Ring.{IsWellFormed}
use hosa.State.Stream.{snapshot_lem}
use hosa.Brain.Welford
use hosa.Brain.Welford.{WelfordState, update, mean_matrix, covariance, welford_ready}
use hosa.Brain.Welford.Safety.{
  IsSized, HasLength, update-Safe, column_ok, mean_matrix_ok, covariance-Safe,
}
use hosa.Brain.Mahalanobis.{HomeostasisModel, deviation, calculate_stress}
use hosa.Brain.Cortex.{
  PredictiveCortex, Analysis, classify, smooth, calc_derivative, respond, quiet, attempt, assess,
  last_row, analyze,
}
use hosa.Brain.Cortex.Hysteresis.{IsSettled, classify-IsSettled}

pub attempt_ok :
    {A B : Type 0} (P : A → Type 0) (Q : B → Type 0) (m : Outcome A) (handle : GoError → Outcome B)
    (f : A → Outcome B)
    → Safe P m
    → ((e : GoError) → Returns (handle e) Q)
    → ((a : A) → P a → Returns (f a) Q)
    → Returns (attempt m handle f) Q
attempt_ok P Q (ok a) handle f s h k = k a s
attempt_ok P Q (err e) handle f s h k = h e
attempt_ok P Q panic handle f s h k = absurd s

module _ {F : Type 0} ⦃fl : Float F⦄ where
  deviation-Safe :
      (m : Outcome (Matrix F)) (r c : ℕ)
      → Safe (λ d. IsShaped d r c) m
      → Safe (λ d. IsShaped d r c) (deviation m)
  unfolding deviation
  deviation-Safe (ok d) r c s = s
  deviation-Safe (err e) r c s = tt
  deviation-Safe panic r c s = s

  calculate_stress-Safe :
      (h : HomeostasisModel F) (current : Matrix F) (p : ℕ)
      → IsShaped h.mean_vector p 1
      → IsShaped h.inverse_covariance p p
      → IsShaped current p 1
      → Safe Any (calculate_stress h current)
  unfolding calculate_stress
  calculate_stress-Safe h current p sm si sc =
      Safe-bind (λ d. IsShaped d p 1) Any _ _
        (deviation-Safe (sub current h.mean_vector) p 1 (sub-Safe current h.mean_vector p 1 sc sm))
        (λ diff sd.
          Safe-bind (λ d. IsShaped d 1 p) Any (transpose diff) _ (transpose-Safe diff p 1 sd)
            (λ diff_t st.
              Safe-bind (λ d. IsShaped d 1 p) Any (mul diff_t h.inverse_covariance) _
                (mul-Safe diff_t h.inverse_covariance 1 p p st si)
                (λ step3 s3.
                  Safe-bind (λ d. IsShaped d 1 1) Any (mul step3 diff) _
                    (mul-Safe step3 diff 1 p 1 s3 sd)
                    (λ step4 s4.
                      Safe-bind Any Any (get step4 0 0) _
                        (get-Safe step4 1 1 0 0 s4 (omega arith) (omega arith)) (λ x _. tt)))))

  -- What holds between two rounds: the statistics are those of `p` variables, and the level is
  -- settled.
  abbrev pub IsSound : ℕ → PredictiveCortex F → Type 0
  IsSound p pc = IsSized pc.welford p × IsSettled pc

  abbrev pub Analyzed : ℕ → PredictiveCortex F × Analysis F → Type 0
  Analyzed p (pc, a) = IsSound p pc × (a.level ≤ 4)

  classify-welford :
      (pc : PredictiveCortex F) (dm dm_dot : F) → (classify pc dm dm_dot).welford ≡ pc.welford
  unfolding classify
  classify-welford pc dm dm_dot = ground arith

  respond-Analyzed :
      (pc : PredictiveCortex F) (p : ℕ) (dm : F) (now : ℕ)
      → IsSound p pc
      → Analyzed p (respond pc dm now)
  unfolding respond
  respond-Analyzed pc p dm now (sz, st) =
      let s = smooth pc dm in
      let d = calc_derivative pc.prev s now in
      let pc1 : PredictiveCortex F = record pc { ewma_value = s; ewma_ready = true } in
      let st1 : IsSettled pc1 = record {
        level_bounded = st.level_bounded;
        count_bounded = st.count_bounded;
      } in
      let c = classify-IsSettled pc1 s d st1 in
      (
        (
          rw (classify-welford pc1 s d) sz,
          record { level_bounded = c.level_bounded; count_bounded = c.count_bounded },
        ),
        c.level_bounded,
      )

  last_row_ok :
      (snap : Matrix F) (r c : ℕ)
      → IsShaped snap r c
      → 0 < r
      → Returns (last_row snap) (HasLength c)
  unfolding last_row
  last_row_ok snap r c (er, ec, el) pos = rw (← ec) (
      for_range_ok (λ _ xs. length xs ≡ snap.cols) snap.cols _ (replicate snap.cols nought)
        (λ j xs l h.
          let (x, e) = get_ok snap r c (snap.rows - 1) j (er, ec, el) (omega arith) (omega arith) in
          let (ys, e', k) = assign_ok xs j snap.cols x h l in (ys, rw e e', k))
        (length-replicate snap.cols nought))

  quiet_ok :
      (p : ℕ) (pc : PredictiveCortex F) (e : Option GoError)
      → IsSound p pc
      → Returns (ok (pc, quiet e)) (Analyzed p)
  quiet_ok p pc e s = (_, refl, (s, omega arith))

  assess_ok :
      (pc : PredictiveCortex F) (p : ℕ) (reading : List F) (now : ℕ)
      → IsSound p pc
      → length reading ≡ p
      → Returns (assess pc p reading now) (Analyzed p)
  unfolding assess
  assess_ok pc p reading now s e =
      elim (Bool-cases (welford_ready pc.welford pc.config.min_samples)) [
        | inr e' ↦ rw e' (quiet_ok p pc none s)
        | inl e' ↦ rw e' (
            Returns-bind (λ m. IsShaped m p 1) (Analyzed p) (mean_matrix pc.welford) _
              (mean_matrix_ok pc.welford p s.0)
              (λ mean sm.
                attempt_ok (λ m. IsShaped m p p) (Analyzed p) (covariance pc.welford) _ _
                  (covariance-Safe pc.welford p s.0) (λ er. quiet_ok p pc (some er) s)
                  (λ cov sc.
                    attempt_ok (λ m. IsShaped m p p) (Analyzed p) (inverse cov) _ _
                      (inverse-Safe cov p sc) (λ er. quiet_ok p pc none s)
                      (λ inv si.
                        Returns-bind (λ m. IsShaped m p 1) (Analyzed p) _ _ (column_ok p reading e)
                          (λ current sx.
                            attempt_ok Any (Analyzed p)
                              (calculate_stress
                                (record { mean_vector = mean; inverse_covariance = inv }) current)
                              _ _
                              (calculate_stress-Safe
                                (record { mean_vector = mean; inverse_covariance = inv }) current p
                                sm si sx)
                              (λ er. quiet_ok p pc (some er) s)
                              (λ dm _. (_, refl, respond-Analyzed pc p dm now s)))))))
      ]

  -- The rest of `Analyze` works on the cortex with the new statistics.
  with_welford-IsSound :
      (pc : PredictiveCortex F) (p : ℕ) (w : WelfordState F)
      → IsSettled pc
      → IsSized w p
      → IsSound p (record pc { welford = w })
  with_welford-IsSound pc p w st sz =
      (sz, record { level_bounded = st.level_bounded; count_bounded = st.count_bounded })

  -- `Analyze` returns on every well-formed buffer, whatever the readings in it, NaN and infinities
  -- included: no index is out of range in the statistics, the inversion and the distance. It keeps
  -- the statistics at the size of the readings and the cortex settled, and reports one of the five
  -- levels.
  pub analyze_ok :
      (pc : PredictiveCortex F) (buf : RingBuffer F) (now : ℕ)
      → IsWellFormed buf
      → IsSound buf.vars pc
      → Returns (analyze pc buf now) (Analyzed buf.vars)
  unfolding analyze
  analyze_ok pc buf now wf s = elim (Bool-cases (is_ready buf)) [
    | inr e ↦ rw e (quiet_ok buf.vars pc none s)
    | inl e ↦ rw e (
        Returns-bind (λ snap. IsShaped snap buf.count buf.vars) (Analyzed buf.vars) (snapshot buf) _
          (shaped (snapshot_lem buf wf)) analyze_snapshot)
  ]
    where
      shaped :
          Returns (snapshot buf) (λ m.
            IsShaped m buf.count buf.vars
            × ((i j : ℕ) → i < buf.count → j < buf.vars → get m i j ≡ get buf.rows i j))
          → Returns (snapshot buf) (λ m. IsShaped m buf.count buf.vars)
      shaped (m, e, (sh, _)) = (m, e, sh)

      analyze_snapshot :
          (snap : Matrix F)
          → IsShaped snap buf.count buf.vars
          → Returns
              (if ltb snap.rows 2 then ok (pc, quiet none) else do
                reading ← last_row snap
                attempt
                    (Welford.update pc.welford reading)
                    (λ e. ok (pc, quiet (some e)))
                    (λ w. assess (record pc { welford = w }) snap.cols reading now))
              (Analyzed buf.vars)
      analyze_snapshot snap sh = elim (Bool-cases (ltb snap.rows 2)) [
        | inl e ↦ rw e (quiet_ok buf.vars pc none s)
        | inr e ↦ rw e (
            Returns-bind (HasLength buf.vars) (Analyzed buf.vars) (last_row snap) _
              (last_row_ok snap buf.count buf.vars sh (ground arith))
              (λ reading len.
                attempt_ok (λ w. IsSized w buf.vars × (w.n ≡ pc.welford.n + 1)) (Analyzed buf.vars)
                  (Welford.update pc.welford reading) _ _
                  (update-Safe pc.welford buf.vars reading s.0)
                  (λ er. quiet_ok buf.vars pc (some er) s)
                  (λ w sz. rw (sh.1) (
                    assess_ok (record pc { welford = w }) buf.vars reading now
                      (with_welford-IsSound pc buf.vars w (s.1) (sz.0)) len))))
      ]
