-- ===== src/Motor/Cgroups/Limits.antt =====
-- memory.high and memory.max after `Apply` of internal/motor/cgroups.go.
use hosa.Prelude.{
  ℕ, suc, ◌≤◌, ◌≡◌, ◌≢◌, true, Option, none, some, Bytes, bytes_eq_refl, arith, leb, ◌==◌,
  if◌then◌else◌,
}
use hosa.Float.{Float}
use hosa.Brain.Level.{containment}
use hosa.Strings.Path.{clean}
use hosa.Syscgroup.{Kernel, content, newest, limit_text, memory_high, memory_max}
use hosa.Syscgroup.Files.{AcceptsAll}
use hosa.Motor.Cgroups.{MotorConfig, CgroupMotor, apply, contain_limit, protect_high, protect_max}

module _ {F : Type 0} ⦃fl : Float F⦄ where
  -- The soft limit that a level calls for; 0 is no limit.
  abbrev pub high_limit : MotorConfig F → ℕ → ℕ → ℕ
  high_limit cfg level mem_total =
      if leb level 1
      then 0
      else if level == containment
      then contain_limit cfg mem_total
      else protect_high cfg mem_total

  -- What memory.max holds at a level, from what it held before: containment leaves it.
  abbrev pub max_text : MotorConfig F → ℕ → ℕ → Option Bytes → Option Bytes
  max_text cfg level mem_total before =
      if leb level 1
      then some (limit_text 0)
      else if level == containment
      then before
      else some (limit_text (protect_max cfg mem_total))

  -- A change to one of the five levels, where the kernel accepts every write, succeeds and reports
  -- an action. Afterwards memory.high holds the soft limit of the new level: none up to vigilance,
  -- the containment fraction at containment and the protection fraction above it. memory.max holds
  -- no limit up to vigilance and the protection maximum from protection on, and containment leaves
  -- in it whatever it held.
  pub apply-limits :
      (m : CgroupMotor F) (level mem_total : ℕ) (k : Kernel)
      → AcceptsAll k
      → level ≤ 4
      → level ≢ m.last_level
      → let r = apply m level mem_total k in
        (r.changed ≡ true)
        × (r.error ≡ none)
        × (r.motor.last_level ≡ level)
        × (content r.kernel m.cg_path memory_high
            ≡ some (limit_text (high_limit m.cfg level mem_total)))
        × (content r.kernel m.cg_path memory_max
            ≡ max_text m.cfg level mem_total (content k m.cg_path memory_max))
  unfolding apply newest
  apply-limits m level mem_total k all le ne =
      ground (arith, all k.tried, all (suc k.tried), bytes_eq_refl (clean m.cg_path))
