-- ===== src/Agent/React.antt =====
-- `react` of cmd/hosa/main.go, with what it may log, and the shutdown of `main`.
pub mod Phase
pub mod Shutdown
use hosa.Prelude.{
  ℕ, ◌+◌, ◌%◌, Bool, true, false, ◌&&◌, ◌||◌, not, Option, none, some, List, [], ◌∷◌, ◌++◌, Bytes,
  ltb, leb, ◌==◌, if◌then◌else◌,
}
use hosa.Prelude.Int.{ℤ}
use hosa.Float.{Float, ◌≤?◌, nought}
use hosa.Brain.Level.{AlertLevel, homeostasis, vigilance, containment, protection, survival}
use hosa.Brain.Thalamus.{TelemetryEvent, notify_containment, notify_survival}
use hosa.Syscgroup.{Kernel}
use hosa.Motor.Cgroups.{CgroupMotor, MotorError, Applied, apply, action_summary}
use hosa.Motor.Survival
use hosa.Outcome.{Outcome, ok, err, panic, ◌>>=◌}
use hosa.Motor.Survival.{SurvivalMotor, Intervention, MotorFault, engage}

-- The lines that `main` logs by itself.
pub data Line (F : Type 0) : Type 0 where
  motor_apply_error survival_engage_error survival_release_error : Line F
  buffer_insert_error cortex_analyze_error : Line F
  compaction_line : F → ℕ → Line F
  vigilance_line containment_line protection_line : F → F → Line F
  survival_line : F → F → F → Line F

-- Phase 2 as `react` sees it; `lastFragState` is represented by its entropy.
pub record Phase2State (F : Type 0) : Type 0 where
  pub survival_motor : Option SurvivalMotor
  pub last_h_frag : F
  pub enabled : Bool

-- What the environment contributes to one call: the clock, the memory, what `loadSchedExt` does if
-- it is called (the descriptor of its link, an error, or a panic), the outcome of closing the link,
-- and the list of present CPUs.
pub record Surroundings : Type 0 where
  pub now : ℕ
  pub mem_total : ℕ
  pub loaded : Outcome ℕ
  pub closes : Bool
  pub present : Option Bytes

pub record Intervals : Type 0 where
  pub normal : ℤ
  pub vigilance : ℤ

-- What a part of `react` changes: the survival motor, the kernel, the events and the lines.
pub record Effects (F : Type 0) : Type 0 where
  pub survival_motor : Option SurvivalMotor
  pub kernel : Kernel
  pub events : List (TelemetryEvent F)
  pub lines : List (Line F)

pub record Reaction (F : Type 0) : Type 0 where
  pub motor : CgroupMotor F
  pub survival_motor : Option SurvivalMotor
  pub kernel : Kernel
  pub events : List (TelemetryEvent F)
  pub lines : List (Line F)
  pub interval : ℤ

abbrev pub when {ℓ} : {A : Type ℓ} → Bool → A → List A
when true a = a ∷ []
when false a = []

abbrev pub failed : Option MotorError → Bool
failed none = false
failed (some e) = true

abbrev pub log_every_n : ℕ
log_every_n = 10

abbrev pub interval_of : AlertLevel → Intervals → ℤ
interval_of level intervals =
    if leb 1 level && leb level survival then intervals.vigilance else intervals.normal

unfoldable pub release_phase2 : Option SurvivalMotor → Bool → Kernel → Option SurvivalMotor × Kernel
release_phase2 none closes k = (none, k)
release_phase2 (some sm) closes k = let r = Survival.release sm closes k in (some r.motor, r.kernel)

module _ {F : Type 0} ⦃fl : Float F⦄ where
  -- The event of a successful `Engage`, or the line of its error.
  abbrev pub after_engage : F → F → F → ℕ → SurvivalMotor → Kernel → List MotorFault → Effects F
  after_engage dm dm_dot h_frag now sm k [] = record {
    survival_motor = some sm;
    kernel = k;
    events = notify_survival dm dm_dot h_frag (Survival.action_summary sm) now ∷ [];
    lines = [];
  }
  after_engage dm dm_dot h_frag now sm k (e ∷ es) = record {
    survival_motor = some sm;
    kernel = k;
    events = [];
    lines = survival_engage_error ∷ [];
  }

  abbrev pub after_release : SurvivalMotor → Kernel → List MotorFault → Effects F
  after_release sm k [] = record { survival_motor = some sm; kernel = k; events = []; lines = [] }
  after_release sm k (e ∷ es) = record {
    survival_motor = some sm;
    kernel = k;
    events = [];
    lines = survival_release_error ∷ [];
  }

  -- Phase 2 of `react`, for a survival motor that exists. A panic of `Engage` goes on.
  unfoldable pub steer :
      F → F → F → AlertLevel → Surroundings → SurvivalMotor → Kernel → Outcome (Effects F)
  steer dm dm_dot h_frag level env sm k =
      let engaged = do
        e ← engage sm env.present env.loaded k
        ok (after_engage dm dm_dot h_frag env.now e.motor e.kernel e.errors)
      in let r = Survival.release sm env.closes k in
        if level == survival && not sm.active
        then engaged
        else if ltb level survival && sm.active
        then ok (after_release r.motor r.kernel r.errors)
        else ok (record { survival_motor = some sm; kernel = k; events = []; lines = [] })

  unfoldable pub phase2 :
      F → F → AlertLevel → Surroundings → Phase2State F → Kernel → Outcome (Effects F)
  unfolding steer
  phase2 dm dm_dot level env p2 k = elim p2.survival_motor [
    | none ↦ ok (record { survival_motor = none; kernel = k; events = []; lines = [] })
    | some sm ↦
        if p2.enabled
        then steer dm dm_dot p2.last_h_frag level env sm k
        else ok (record { survival_motor = some sm; kernel = k; events = []; lines = [] })
  ]

  -- The last `switch`: the line of the level.
  abbrev pub level_lines : F → F → F → AlertLevel → ℕ → List (Line F)
  level_lines dm dm_dot h_frag level tick =
      if level == vigilance
      then when (nought ≤? dm_dot || tick % log_every_n == 0) (vigilance_line dm dm_dot)
      else if level == containment
      then containment_line dm dm_dot ∷ []
      else if level == protection
      then protection_line dm dm_dot ∷ []
      else when (level == survival) (survival_line dm dm_dot h_frag)

  unfoldable pub react :
      CgroupMotor F
      → F
      → F
      → AlertLevel
      → ℕ
      → Intervals
      → Phase2State F
      → Surroundings
      → Kernel
      → Outcome (Reaction F)
  unfolding phase2
  react mot dm dm_dot level tick intervals p2 env k =
      let a = apply mot level env.mem_total k in
      phase2 dm dm_dot level env p2 a.kernel >>= λ fx. ok (record {
        motor = a.motor;
        survival_motor = fx.survival_motor;
        kernel = fx.kernel;
        events =
            when (a.changed && leb containment level)
              (notify_containment level dm (action_summary F level env.mem_total) env.now)
            ++ fx.events;
        lines =
            when (failed a.error) motor_apply_error
            ++ (fx.lines ++ level_lines dm dm_dot p2.last_h_frag level tick);
        interval = interval_of level intervals;
      })

  -- The shutdown: phase 2 is released, and homeostasis applied.
  unfoldable pub shutdown :
      CgroupMotor F → Option SurvivalMotor → ℕ → Bool → Kernel → Option SurvivalMotor × Applied F
  unfolding release_phase2
  shutdown mot sm mem_total closes k =
      let (sm', k') = release_phase2 sm closes k in (sm', apply mot homeostasis mem_total k')
