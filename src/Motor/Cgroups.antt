-- ===== src/Motor/Cgroups.antt =====
-- internal/motor/cgroups.go: the graduated response. A method returns the motor, the kernel, whether
-- an action was taken, and the error.
pub mod Limits
pub mod Retry
use hosa.Prelude.{
  ℕ, ◌*◌, ◌/◌, ◌^◌, Bool, true, false, ◌||◌, Option, none, some, List, [], ◌∷◌, Bytes, codes, ltb,
  ◌==◌, if◌then◌else◌,
}
use hosa.Strings.{format_uint}
use hosa.Prelude.{◌++◌, codes, ◌/◌, ◌^◌}
use hosa.Float.{Float, ◌≤?◌, ◌⊗◌, lit, nought}
use hosa.Brain.Level.{homeostasis, vigilance, containment, protection, survival}
use hosa.Syscgroup.{Kernel, WriteError, set_memory_high, set_memory_max}
use hosa.Syscgroup.Reads.{ReadResult, get_memory_current}

abbrev pub ContainmentLevel : Type 0
ContainmentLevel = ℕ

pub record MotorConfig (F : Type 0) : Type 0 where
  pub containment_fraction : F
  pub protection_high_frac : F
  pub protection_max_frac : F

pub record CgroupMotor (F : Type 0) : Type 0 where
  pub cg_path : Bytes
  pub cfg : MotorConfig F
  pub last_level : ContainmentLevel

pub data MotorError : Type 0 where
  write_error : WriteError → MotorError
  unknown_level : ℕ → MotorError

-- The texts of `ActionSummary`; the limits are in MB.
abbrev pub high_text : ℕ → Bytes
high_text high = codes "memory.high=" ++ (format_uint (high / 2 ^ 20) ++ codes "MB")

abbrev pub high_max_text : ℕ → ℕ → Bytes
high_max_text high max =
    high_text high ++ (codes " memory.max=" ++ (format_uint (max / 2 ^ 20) ++ codes "MB"))

-- What `Apply` returns, with the motor and the kernel.
pub record Applied (F : Type 0) : Type 0 where
  pub motor : CgroupMotor F
  pub kernel : Kernel
  pub changed : Bool
  pub error : Option MotorError

abbrev pub wrap : Kernel × Option WriteError → Kernel × Option MotorError
wrap (k, none) = (k, none)
wrap (k, some e) = (k, some (write_error e))

-- The second write is made only if the first one is accepted.
abbrev pub and_then :
    Kernel × Option WriteError → (Kernel → Kernel × Option WriteError) → Kernel × Option MotorError
and_then (k, none) next = wrap (next k)
and_then (k, some e) next = (k, some (write_error e))

module _ {F : Type 0} ⦃fl : Float F⦄ where
  unfoldable pub new_cgroup_motor : Bytes → MotorConfig F → CgroupMotor F
  new_cgroup_motor path cfg = record { cg_path = path; cfg = cfg; last_level = 0 }

  abbrev pub default_motor_config : MotorConfig F
  default_motor_config = record {
    containment_fraction = lit 75 2;
    protection_high_frac = lit 50 2;
    protection_max_frac = lit 90 2;
  }

  -- A fraction of the configuration, or the default if it is not positive, as a limit in bytes.
  abbrev pub limit_of : F → F → ℕ → ℕ
  limit_of frac default mem_total =
      fl.to_ℕ (fl.of_ℕ mem_total ⊗ (if frac ≤? nought then default else frac))

  abbrev pub contain_limit : MotorConfig F → ℕ → ℕ
  contain_limit cfg = limit_of cfg.containment_fraction (lit 75 2)

  abbrev pub protect_high : MotorConfig F → ℕ → ℕ
  protect_high cfg = limit_of cfg.protection_high_frac (lit 50 2)

  abbrev pub protect_max : MotorConfig F → ℕ → ℕ
  protect_max cfg = limit_of cfg.protection_max_frac (lit 90 2)

  unfoldable pub release : CgroupMotor F → Kernel → Kernel × Option MotorError
  unfolding set_memory_high set_memory_max
  release m k = and_then (set_memory_high m.cg_path 0 k) (set_memory_max m.cg_path 0)

  unfoldable pub contain : CgroupMotor F → ℕ → Kernel → Kernel × Option MotorError
  unfolding set_memory_high
  contain m mem_total k = wrap (set_memory_high m.cg_path (contain_limit m.cfg mem_total) k)

  unfoldable pub protect : CgroupMotor F → ℕ → Kernel → Kernel × Option MotorError
  unfolding set_memory_high set_memory_max
  protect m mem_total k =
      and_then (set_memory_high m.cg_path (protect_high m.cfg mem_total) k)
        (set_memory_max m.cg_path (protect_max m.cfg mem_total))

  abbrev pub acted : CgroupMotor F → Kernel × Option MotorError → Applied F
  acted m (k, e) = record { motor = m; kernel = k; changed = true; error = e }

  unfoldable pub apply : CgroupMotor F → ContainmentLevel → ℕ → Kernel → Applied F
  unfolding release contain protect
  apply m level mem_total k =
      if level == m.last_level
      then record { motor = m; kernel = k; changed = false; error = none }
      else (let m' = record m { last_level = level } in
          if level == homeostasis || level == vigilance
          then acted m' (release m' k)
          else if level == containment
          then acted m' (contain m' mem_total k)
          else if level == protection
          then acted m' (protect m' mem_total k)
          else if level == survival
          then acted m' (protect m' mem_total k)
          else record {
            motor = m';
            kernel = k;
            changed = false;
            error = some (unknown_level level);
          })

  unfoldable pub action_summary_with_config : ContainmentLevel → ℕ → MotorConfig F → Bytes
  action_summary_with_config level mem_total cfg =
      if level == homeostasis || level == vigilance
      then codes "limits_removed"
      else if level == containment
      then high_text (contain_limit cfg mem_total)
      else if level == protection
      then high_max_text (protect_high cfg mem_total) (protect_max cfg mem_total)
      else if level == survival
      then high_max_text (protect_high cfg mem_total) (protect_max cfg mem_total)
        ++ codes " sched_ext=engaging"
      else codes "unknown"

-- `ActionSummary`, at the float64 arithmetic `F`.
unfoldable pub action_summary : (F : Type 0) ⦃fl : Float F⦄ → ContainmentLevel → ℕ → Bytes
unfolding action_summary_with_config
action_summary F level mem_total =
    action_summary_with_config {F = F} level mem_total default_motor_config

module _ {F : Type 0} where
  -- `CurrentMemory`, over what the files hold.
  unfoldable pub current_memory : CgroupMotor F → (Bytes → Option Bytes) → ReadResult ℕ
  unfolding get_memory_current
  current_memory m files = get_memory_current files m.cg_path
