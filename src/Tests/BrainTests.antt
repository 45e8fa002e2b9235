-- ===== src/Tests/BrainTests.antt =====
-- internal/brain on concrete readings.
use hosa.Prelude.{ℕ, ◌≤◌, ◌<◌, ◌≡◌, refl, List, [], ◌∷◌, ◌++◌, ◌⊎◌, arith}
use hosa.Prelude.Int.{pos, ◌≤ℤ◌}
use hosa.Float.Fixed.{Fixed, fixed_float, Fixed-IsOrdered}
use hosa.Brain.Cortex.{default_config, hysteresis, candidate_level, classify}
use hosa.Brain.Cortex.Candidate.{classify-ge-candidate, candidate_level_mono}
use hosa.Brain.Cortex.Hysteresis.{run, streak, IsSettled, run-IsSettled, descent_needs_calm}
use hosa.Brain.Cortex.Recovery.{run-recovers}
use hosa.Brain.Thalamus.{ThalamicFilter, observe, homeostasis_restored}
use hosa.Brain.Thalamus.Events.{observe-change, types}
use hosa.Brain.Thalamus.Heartbeat.{Observation, observe_all, Spaced, observe_all-Spaced}
use hosa.Tests.Data.{tenths, cortex_at}

-- A low distance that does not grow.
abbrev calm : Fixed × Fixed
calm = (tenths 10, tenths 0)

abbrev four_calm : List (Fixed × Fixed)
four_calm = calm ∷ calm ∷ calm ∷ calm ∷ []

settled : (level : ℕ) → level ≤ 4 → IsSettled (cortex_at level)
settled level h = ground arith

fifth_calm_lowers :
    (classify (run (cortex_at 3) four_calm) (tenths 10) (tenths 0)).current_level ≡ 0
unfolding classify run
fifth_calm_lowers = refl

fourth_calm_stays : (run (cortex_at 3) four_calm).current_level ≡ 3
unfolding run classify
fourth_calm_stays = refl

escalated : (classify (cortex_at 0) (tenths 60) (tenths 30)).current_level ≡ 3
unfolding classify
escalated = refl

fall :
    (classify (run (cortex_at 3) four_calm) (tenths 10) (tenths 0)).current_level
    < (run (cortex_at 3) four_calm).current_level
fall = rw (fifth_calm_lowers, fourth_calm_stays) (omega arith)

descent_needs_calm_example :
    hysteresis (cortex_at 3).config ≤ℤ pos (streak 0 (cortex_at 3) (four_calm ++ calm ∷ []))
descent_needs_calm_example =
    descent_needs_calm (cortex_at 3) four_calm (tenths 10) (tenths 0) refl fall

run-recovers_example : (run (cortex_at 4) (calm ∷ four_calm)).current_level ≡ 0
unfolding candidate_level
run-recovers_example =
    run-recovers (cortex_at 4) (calm ∷ four_calm) (settled 4 (omega arith))
      (refl, refl, (refl, refl, (refl, refl, (refl, refl, (refl, refl, tt))))) (ground arith)

run-IsSettled_example : IsSettled (run (cortex_at 2) four_calm)
run-IsSettled_example = run-IsSettled (cortex_at 2) four_calm (settled 2 (omega arith))

classify-ge-candidate_example :
    let level = (classify (cortex_at 2) (tenths 60) (tenths 30)).current_level in
    let candidate = candidate_level default_config (tenths 60) (tenths 30) in
    (candidate ≤ level) × ((level ≡ candidate) ⊎ (level ≡ 2))
classify-ge-candidate_example = classify-ge-candidate (cortex_at 2) (tenths 60) (tenths 30)

candidate_level_mono_example :
    candidate_level default_config (tenths 40) (tenths 0)
    ≤ candidate_level default_config (tenths 60) (tenths 30)
candidate_level_mono_example =
    candidate_level_mono Fixed-IsOrdered default_config (tenths 40) (tenths 60) (tenths 0)
      (tenths 30) refl refl

abbrev filter_at : ℕ → ThalamicFilter
filter_at level = record {
  config = record { heartbeat_interval = pos 30 };
  current_level = level;
  prev_level = 0;
  last_heartbeat = 0;
}

observe-change_example :
    types (observe (filter_at 3) 0 (tenths 10) (tenths 0) 5).1 ≡ homeostasis_restored ∷ []
observe-change_example = observe-change (filter_at 3) 0 (tenths 10) (tenths 0) 5 (omega arith)

abbrev observed : ℕ → ℕ → Observation Fixed
observed level now = record { level = level; dm = tenths 10; dm_dot = tenths 0; now = now }

observe_all-Spaced_example :
    Spaced 30 0 (observe_all (filter_at 0) (observed 0 10 ∷ observed 0 31 ∷ observed 2 40 ∷ []))
observe_all-Spaced_example =
    observe_all-Spaced (filter_at 0) (observed 0 10 ∷ observed 0 31 ∷ observed 2 40 ∷ []) 30 refl
