-- ===== src/Motor/Cgroups/Retry.antt =====
-- A second call of `Apply` of internal/motor/cgroups.go at the same level.
use hosa.Prelude.{ℕ, ◌≡◌, false, none, arith}
use hosa.Float.{Float}
use hosa.Syscgroup.{Kernel}
use hosa.Motor.Cgroups.{CgroupMotor, apply}

module _ {F : Type 0} ⦃fl : Float F⦄ where
  -- Whatever the first call of `Apply` did, its failures included, a second call at the same level
  -- makes no write and reports neither an action nor an error: a write that failed is not tried
  -- again while the level stays.
  pub apply-apply :
      (m : CgroupMotor F) (level mem_total mem_total' : ℕ) (k k' : Kernel)
      → let m' = (apply m level mem_total k).motor in
        apply m' level mem_total' k'
        ≡ record { motor = m'; kernel = k'; changed = false; error = none }
  unfolding apply
  apply-apply m level mem_total mem_total' k k' = ground arith
