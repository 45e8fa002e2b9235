-- ===== src/Agent/React/Shutdown.antt =====
-- The shutdown of `main`.
use hosa.Prelude.{ℕ, ◌≡◌, ◌≢◌, Bool, false, Option, none, some, codes, arith}
use hosa.Float.{Float}
use hosa.Brain.Level.{homeostasis}
use hosa.Syscgroup.{Kernel, content, memory_high, memory_max}
use hosa.Syscgroup.Files.{AcceptsAll}
use hosa.Motor.Cgroups.{CgroupMotor}
use hosa.Motor.Cgroups.Limits.{apply-limits}
use hosa.Motor.Survival.{SurvivalMotor, release}
use hosa.Agent.React.{release_phase2, shutdown}
use hosa.Agent.React.Phase.{is_active, release_phase2-inactive}

release-accepts :
    (sm : SurvivalMotor) (closes : Bool) (k : Kernel) (n : ℕ)
    → (release sm closes k).kernel.accepts n ≡ k.accepts n
unfolding release
release-accepts sm closes k n = ground arith

release_phase2-AcceptsAll :
    (sm : Option SurvivalMotor) (closes : Bool) (k : Kernel)
    → AcceptsAll k
    → AcceptsAll (release_phase2 sm closes k).1
unfolding release_phase2
release_phase2-AcceptsAll none closes k all n = all n
release_phase2-AcceptsAll (some sm) closes k all n = rw (release-accepts sm closes k n) (all n)

module _ {F : Type 0} ⦃fl : Float F⦄ where
  -- A shutdown while the memory motor is at a level above homeostasis, where the kernel accepts
  -- every write: the intervention of phase 2 is over, the last call of `Apply` reports no error, and
  -- the agent's memory.high and memory.max hold no limit.
  pub shutdown_lem :
      (mot : CgroupMotor F) (sm : Option SurvivalMotor) (mem_total : ℕ) (closes : Bool) (k : Kernel)
      → AcceptsAll k
      → homeostasis ≢ mot.last_level
      → let (sm', a) = shutdown mot sm mem_total closes k in
        (is_active sm' ≡ false)
        × (a.error ≡ none)
        × (content a.kernel mot.cg_path memory_high ≡ some (codes "max"))
        × (content a.kernel mot.cg_path memory_max ≡ some (codes "max"))
  unfolding shutdown
  shutdown_lem mot sm mem_total closes k all ne =
      let all' = release_phase2-AcceptsAll sm closes k all in
      let (_, e, _, high, max) =
        apply-limits mot homeostasis mem_total (release_phase2 sm closes k).1 all' (omega arith)
          ne in
      (release_phase2-inactive sm closes k, e, high, max)
