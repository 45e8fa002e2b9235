-- ===== src/Brain/Cortex/Recovery.antt =====
-- Runs of `classify` of internal/brain/predictor.go on quiet readings.
use hosa.Prelude.{suc, ◌+◌, ◌≡◌, true, List, [], ◌∷◌, arith, length, ◌⊎◌, inl, inr}
use hosa.Prelude.Int.{pos, ◌≤ℤ◌}
use hosa.Float.{Float, ◌<?◌}
use hosa.Brain.Level.{homeostasis}
use hosa.Brain.Cortex.{
  PredictorConfig, PredictiveCortex, hysteresis, relax, candidate_level, classify,
}
use hosa.Brain.Cortex.Hysteresis.{run, IsSettled, classify-config, classify-IsSettled}

module _ {F : Type 0} ⦃fl : Float F⦄ where
  -- Every reading of the list asks for no response and shows no growth.
  abbrev pub AllQuiet : PredictorConfig F → List (F × F) → Type 0
  AllQuiet cfg [] = Unit
  AllQuiet cfg ((dm, dm_dot) ∷ rs) =
      (candidate_level cfg dm dm_dot ≡ 0) × ((dm_dot <? relax cfg) ≡ true) × AllQuiet cfg rs

  quiet_step :
      (pc : PredictiveCortex F) (dm dm_dot : F)
      → candidate_level pc.config dm dm_dot ≡ 0
      → (dm_dot <? relax pc.config) ≡ true
      → ((classify pc dm dm_dot).current_level ≡ 0)
        ⊎ ((classify pc dm dm_dot).below_count ≡ suc pc.below_count)
  unfolding classify
  quiet_step pc dm dm_dot c q = ground arith

  stays_step :
      (pc : PredictiveCortex F) (dm dm_dot : F)
      → candidate_level pc.config dm dm_dot ≡ 0
      → pc.current_level ≡ 0
      → (classify pc dm dm_dot).current_level ≡ 0
  unfolding classify
  stays_step pc dm dm_dot c z = ground arith

  stays_home :
      (pc : PredictiveCortex F) (rs : List (F × F))
      → AllQuiet pc.config rs
      → pc.current_level ≡ 0
      → (run pc rs).current_level ≡ 0
  unfolding run
  stays_home pc [] h z = z
  stays_home pc ((dm, dm_dot) ∷ rs) h z =
      stays_home (classify pc dm dm_dot) rs (rw classify-config h.2) (stays_step pc dm dm_dot h.0 z)

  -- From any state between two cycles, as many quiet readings in a row as the hysteresis still
  -- wants bring the level to homeostasis, and it is there after any more of them.
  pub run-recovers :
      (pc : PredictiveCortex F) (rs : List (F × F))
      → IsSettled pc
      → AllQuiet pc.config rs
      → hysteresis pc.config ≤ℤ pos (pc.below_count + length rs)
      → (run pc rs).current_level ≡ homeostasis
  unfolding run
  run-recovers pc [] s h enough = absurd (omega arith)
  run-recovers pc ((dm, dm_dot) ∷ rs) s h enough = elim (quiet_step pc dm dm_dot h.0 h.1) [
    | inl home ↦ stays_home (classify pc dm dm_dot) rs (rw classify-config h.2) home
    | inr more ↦
        run-recovers (classify pc dm dm_dot) rs (classify-IsSettled pc dm dm_dot s)
          (rw classify-config h.2) (rw (classify-config, more) (omega arith))
  ]
