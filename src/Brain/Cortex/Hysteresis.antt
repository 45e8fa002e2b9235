-- ===== src/Brain/Cortex/Hysteresis.antt =====
-- Runs of `classify` of internal/brain/predictor.go: the invariant of the cortex, and descents.
use hosa.Prelude.{
  ℕ, suc, ◌≤◌, ◌<◌, ◌≡◌, refl, Bool, true, ◌&&◌, List, [], ◌∷◌, ◌++◌, arith, ltb, if◌then◌else◌,
  ◌∙◌, ap,
}
use hosa.Prelude.Int.{pos, ◌≤ℤ◌, ◌<ℤ◌}
use hosa.Float.{Float, ◌<?◌}
use hosa.State.{RingBuffer}
use hosa.Brain.Cortex.{
  PredictorConfig, PredictiveCortex, hysteresis, relax, candidate_level, settle, classify,
  new_predictive_cortex,
}
use hosa.Brain.Cortex.Candidate.{candidate_level-le}

module _ {F : Type 0} ⦃fl : Float F⦄ where
  -- The cortex after a list of pairs of a distance and its derivative, the oldest first.
  unfoldable pub run : PredictiveCortex F → List (F × F) → PredictiveCortex F
  run pc [] = pc
  run pc ((dm, dm_dot) ∷ rs) = run (classify pc dm dm_dot) rs

  -- The reading asks for less than the level held, and the distance is not growing.
  abbrev pub is_calm : PredictiveCortex F → F → F → Bool
  is_calm pc dm dm_dot =
      ltb (candidate_level pc.config dm dm_dot) pc.current_level && (dm_dot <? relax pc.config)

  -- How many readings at the end of the run were calm, `n` of them before it.
  unfoldable pub streak : ℕ → PredictiveCortex F → List (F × F) → ℕ
  streak n pc [] = n
  streak n pc ((dm, dm_dot) ∷ rs) =
      streak (if is_calm pc dm dm_dot then suc n else 0) (classify pc dm dm_dot) rs

  -- What holds of a cortex between two cycles.
  pub record IsSettled (pc : PredictiveCortex F) : Type 0 where
    pub level_bounded : pc.current_level ≤ 4
    pub count_bounded : pos pc.below_count <ℤ hysteresis pc.config

  pub new_predictive_cortex-IsSettled :
      (buf : RingBuffer F) (cfg : PredictorConfig F) → IsSettled (new_predictive_cortex buf cfg)
  unfolding new_predictive_cortex
  new_predictive_cortex-IsSettled buf cfg = ground arith

  pub classify-config :
      (pc : PredictiveCortex F) (dm dm_dot : F) → (classify pc dm dm_dot).config ≡ pc.config
  unfolding classify
  classify-config pc dm dm_dot = ground arith

  pub settle-IsSettled :
      (pc : PredictiveCortex F) (candidate : ℕ) (dm_dot : F)
      → candidate ≤ 4
      → IsSettled pc
      → IsSettled (settle pc candidate dm_dot)
  unfolding settle
  settle-IsSettled pc candidate dm_dot c h = ground arith

  pub classify-IsSettled :
      (pc : PredictiveCortex F) (dm dm_dot : F) → IsSettled pc → IsSettled (classify pc dm dm_dot)
  unfolding classify
  classify-IsSettled pc dm dm_dot h =
      settle-IsSettled pc _ dm_dot (candidate_level-le pc.config dm dm_dot) h

  -- Over any readings, the level stays within the five levels, and the count of calm cycles stays
  -- below the hysteresis.
  pub run-IsSettled :
      (pc : PredictiveCortex F) (rs : List (F × F)) → IsSettled pc → IsSettled (run pc rs)
  unfolding run
  run-IsSettled pc [] h = h
  run-IsSettled pc ((dm, dm_dot) ∷ rs) h =
      run-IsSettled (classify pc dm dm_dot) rs (classify-IsSettled pc dm dm_dot h)

  count_step :
      (pc : PredictiveCortex F) (dm dm_dot : F) (n : ℕ)
      → pc.below_count ≤ n
      → (classify pc dm dm_dot).below_count ≤ (if is_calm pc dm dm_dot then suc n else 0)
  unfolding classify
  count_step pc dm dm_dot n h = ground arith

  count-le-streak :
      (pc : PredictiveCortex F) (rs : List (F × F)) (n : ℕ)
      → pc.below_count ≤ n
      → (run pc rs).below_count ≤ streak n pc rs
  unfolding run streak
  count-le-streak pc [] n h = h
  count-le-streak pc ((dm, dm_dot) ∷ rs) n h =
      count-le-streak (classify pc dm dm_dot) rs _ (count_step pc dm dm_dot n h)

  streak-append :
      (pc : PredictiveCortex F) (rs : List (F × F)) (dm dm_dot : F) (n : ℕ)
      → streak n pc (rs ++ (dm, dm_dot) ∷ [])
        ≡ (if is_calm (run pc rs) dm dm_dot then suc (streak n pc rs) else 0)
  unfolding run streak
  streak-append pc [] dm dm_dot n = refl
  streak-append pc ((x, y) ∷ rs) dm dm_dot n = streak-append (classify pc x y) rs dm dm_dot _

  descent_step :
      (pc : PredictiveCortex F) (dm dm_dot : F)
      → (classify pc dm dm_dot).current_level < pc.current_level
      → (is_calm pc dm dm_dot ≡ true) × (hysteresis pc.config ≤ℤ pos (suc pc.below_count))
  unfolding classify
  descent_step pc dm dm_dot h = ground arith

  pub run-config : (pc : PredictiveCortex F) (rs : List (F × F)) → (run pc rs).config ≡ pc.config
  unfolding run
  run-config pc [] = refl
  run-config pc ((dm, dm_dot) ∷ rs) =
      run-config (classify pc dm dm_dot) rs ∙ classify-config pc dm dm_dot

  -- If a reading lowers the level, at whatever point of whatever run that starts with no calm
  -- cycle counted, then that reading ends a streak of calm readings that is at least as long as
  -- the hysteresis of the configuration.
  pub descent_needs_calm :
      (pc : PredictiveCortex F) (rs : List (F × F)) (dm dm_dot : F)
      → pc.below_count ≡ 0
      → (classify (run pc rs) dm dm_dot).current_level < (run pc rs).current_level
      → hysteresis pc.config ≤ℤ pos (streak 0 pc (rs ++ (dm, dm_dot) ∷ []))
  descent_needs_calm pc rs dm dm_dot z h =
      let (calm, enough) = descent_step (run pc rs) dm dm_dot h in
      let e : hysteresis (run pc rs).config ≡ hysteresis pc.config =
        ap hysteresis (run-config pc rs) in
      let e' : hysteresis pc.config ≤ℤ pos (suc (run pc rs).below_count) = rw e at enough in
      rw (streak-append pc rs dm dm_dot 0, calm)
        (ground (arith, count-le-streak pc rs 0 (omega arith)))
