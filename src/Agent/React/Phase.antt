-- ===== src/Agent/React/Phase.antt =====
-- The intervention, the level and the interval after a call of `react`.
use hosa.Prelude.{
  Bytes, subst, ℕ, ◌≤◌, ◌≡◌, refl, Bool, true, false, Option, none, some, List, [], ◌∷◌, arith,
  ◌==◌, if◌then◌else◌, leb, not, ◌&&◌, Bool-cases, inl, inr, ◌∙◌, ltb,
}
use hosa.Float.{Float}
use hosa.Linalg.Cells.{trichotomy}
use hosa.Brain.Level.{homeostasis, survival}
use hosa.Syscgroup.{Kernel}
use hosa.Motor.Cgroups.{CgroupMotor, apply}
use hosa.Motor.Survival
use hosa.Outcome.{Outcome, ok, err, panic}
use hosa.Outcome.Partly.{ReturnsOr, ReturnsOr-bind, ReturnsOr-map}
use hosa.Motor.Survival.{
  SurvivalMotor, Intervention, Loaded, load_result, wants_sched_ext, engage, engage_loaded,
}
use hosa.Motor.Survival.Activity.{engage_loaded-engage_loaded, release-release}
use hosa.Agent.React.{
  Phase2State, Surroundings, Intervals, Reaction, react, steer, phase2, interval_of, after_engage,
  after_release, release_phase2,
}

abbrev pub is_active : Option SurvivalMotor → Bool
is_active none = false
is_active (some sm) = sm.active

after_release-active :
    (F : Type 0) ⦃fl : Float F⦄ (sm : SurvivalMotor) (k : Kernel) (errs : List Survival.MotorFault)
    → is_active (after_release {F = F} sm k errs).survival_motor ≡ sm.active
after_release-active F sm k [] = refl
after_release-active F sm k (e ∷ es) = refl

pub release_phase2-inactive :
    (sm : Option SurvivalMotor) (closes : Bool) (k : Kernel)
    → is_active (release_phase2 sm closes k).0 ≡ false
unfolding release_phase2
release_phase2-inactive none closes k = refl
release_phase2-inactive (some sm) closes k = (release-release sm closes closes k k).0

-- Whether the intervention is active after `react`, from the motor before it.
abbrev pub active_after : Bool → Option SurvivalMotor → ℕ → Bool
active_after enabled none level = false
active_after enabled (some sm) level =
    if enabled && leb level survival then level == survival else sm.active

-- An inactive motor of phase 2 meets the survival level, loads a scheduler, and the load panics.
abbrev pub LoadPanics : Bool → Option SurvivalMotor → ℕ → Outcome ℕ → Type 0
LoadPanics enabled none level result = ⊥
LoadPanics enabled (some sm) level result =
    (enabled ≡ true)
    × (level ≡ survival)
    × (sm.active ≡ false)
    × (wants_sched_ext sm ≡ true)
    × (result ≡ panic)

load_result-ReturnsOr :
    (b : Bool) (r : Outcome ℕ)
    → ReturnsOr (λ l. Unit {0}) ((b ≡ true) × (r ≡ panic)) (load_result b r)
load_result-ReturnsOr false r = tt
load_result-ReturnsOr true (ok fd) = tt
load_result-ReturnsOr true (err e) = tt
load_result-ReturnsOr true panic = (refl, refl)

-- `Engage` returns an active motor, and panics only where it calls for a load that does.
engage-active :
    (sm : SurvivalMotor) (present : Option Bytes) (r : Outcome ℕ) (k : Kernel)
    → ReturnsOr
        (λ i. i.motor.active ≡ true)
        ((not sm.active && wants_sched_ext sm ≡ true) × (r ≡ panic))
        (engage sm present r k)
unfolding engage
engage-active sm present r k =
    ReturnsOr-bind (λ l. Unit {0}) (λ i. i.motor.active ≡ true) _
      (load_result (not sm.active && wants_sched_ext sm) r) (λ l. ok (engage_loaded sm present l k))
      (load_result-ReturnsOr (not sm.active && wants_sched_ext sm) r)
      (λ l u. (engage_loaded-engage_loaded sm present l l k k).0)

module _ {F : Type 0} ⦃fl : Float F⦄ where
  after_engage-active :
      (dm dm_dot h : F) (now : ℕ) (sm : SurvivalMotor) (k : Kernel)
      (errs : List Survival.MotorFault)
      → is_active (after_engage dm dm_dot h now sm k errs).survival_motor ≡ sm.active
  after_engage-active dm dm_dot h now sm k [] = refl
  after_engage-active dm dm_dot h now sm k (e ∷ es) = refl

  steer-active :
      (dm dm_dot h : F) (level : ℕ) (env : Surroundings) (sm : SurvivalMotor) (k : Kernel)
      → ReturnsOr
          (λ fx. is_active fx.survival_motor ≡ active_after true (some sm) level)
          (LoadPanics true (some sm) level env.loaded)
          (steer dm dm_dot h level env sm k)
  unfolding steer
  steer-active dm dm_dot h level env sm k = elim (trichotomy level survival) [
    | inl l ↦
        let apart : (level == survival) ≡ false = ground arith in
        let under : ltb level survival ≡ true = ground arith in
        let within : leb level survival ≡ true = ground arith in
        elim (Bool-cases sm.active) [
          | inl a ↦
              let r = Survival.release sm env.closes k in
              simp (apart, under, within, a)
                (after_release-active F r.motor r.kernel r.errors
                  ∙ (release-release sm env.closes env.closes k k).0)
          | inr a ↦ simp (apart, under, within, a) refl
        ]
    | inr (inl e) ↦ elim (Bool-cases sm.active) [
      | inl a ↦ simp (e, a) refl
      | inr a ↦
          simp (e, a)
            (ReturnsOr-bind (λ i. i.motor.active ≡ true) _ _ (engage sm env.present env.loaded k) _
              (ReturnsOr-map (λ i. i.motor.active ≡ true) (λ i. i.motor.active ≡ true) _ _
                (engage sm env.present env.loaded k) (λ i p. p)
                (λ (w, p). (refl, refl, refl, (rw a at w), p))
                (engage-active sm env.present env.loaded k))
              (λ i p. after_engage-active dm dm_dot h env.now i.motor i.kernel i.errors ∙ p))
    ]
    | inr (inr g) ↦
        let apart : (level == survival) ≡ false = ground arith in
        let over : ltb level survival ≡ false = ground arith in
        let beyond : leb level survival ≡ false = ground arith in rw (apart, over, beyond) refl
  ]

  phase2-active :
      (dm dm_dot : F) (level : ℕ) (env : Surroundings) (p2 : Phase2State F) (k : Kernel)
      → ReturnsOr
          (λ fx. is_active fx.survival_motor ≡ active_after p2.enabled p2.survival_motor level)
          (LoadPanics p2.enabled p2.survival_motor level env.loaded)
          (phase2 dm dm_dot level env p2 k)
  unfolding phase2
  phase2-active dm dm_dot level env p2 k = with_motor p2.survival_motor refl
    where
      with_motor :
          (m : Option SurvivalMotor)
          → p2.survival_motor ≡ m
          → ReturnsOr
              (λ fx. is_active fx.survival_motor ≡ active_after p2.enabled p2.survival_motor level)
              (LoadPanics p2.enabled p2.survival_motor level env.loaded)
              (phase2 dm dm_dot level env p2 k)
      with_motor none e = rw e refl
      with_motor (some sm) e = elim (Bool-cases p2.enabled) [
        | inl on ↦ rw (e, on) (steer-active dm dm_dot p2.last_h_frag level env sm k)
        | inr off ↦ rw (e, off) refl
      ]

  apply-last_level :
      (m : CgroupMotor F) (level mem_total : ℕ) (k : Kernel)
      → (apply m level mem_total k).motor.last_level ≡ level
  unfolding apply
  apply-last_level m level mem_total k = ground arith

  -- What holds after `react`, in every case.
  abbrev pub Reacted : ℕ → Intervals → Phase2State F → Reaction F → Type 0
  Reacted level iv p2 r =
      (is_active r.survival_motor ≡ active_after p2.enabled p2.survival_motor level)
      × (r.motor.last_level ≡ level)
      × (r.interval ≡ interval_of level iv)

  pub react-Reacted :
      (mot : CgroupMotor F) (dm dm_dot : F) (level tick : ℕ) (iv : Intervals) (p2 : Phase2State F)
      (env : Surroundings) (k : Kernel)
      → ReturnsOr
          (Reacted level iv p2)
          (LoadPanics p2.enabled p2.survival_motor level env.loaded)
          (react mot dm dm_dot level tick iv p2 env k)
  unfolding react
  react-Reacted mot dm dm_dot level tick iv p2 env k =
      let k' = (apply mot level env.mem_total k).kernel in
      ReturnsOr-bind
        (λ fx. is_active fx.survival_motor ≡ active_after p2.enabled p2.survival_motor level)
        (Reacted level iv p2) (LoadPanics p2.enabled p2.survival_motor level env.loaded)
        (phase2 dm dm_dot level env p2 k') _ (phase2-active dm dm_dot level env p2 k')
        (λ fx p. (p, apply-last_level mot level env.mem_total k, refl))

  -- Where phase 2 is enabled and its motor exists, and the level is one of the five, `react` returns,
  -- or its motor was inactive, the level is survival, and the load of the scheduler panicked, which
  -- ends the program. Where it returns, the intervention is active exactly at the survival level,
  -- whatever it was before and whichever writes fail; the memory motor holds the level; and the next
  -- sample comes after the normal interval exactly in homeostasis, after the interval of vigilance
  -- at each of the four levels above it.
  pub react-active :
      (mot : CgroupMotor F) (dm dm_dot : F) (level tick : ℕ) (iv : Intervals) (p2 : Phase2State F)
      (env : Surroundings) (k : Kernel) (sm : SurvivalMotor)
      → p2.enabled ≡ true
      → p2.survival_motor ≡ some sm
      → level ≤ survival
      → ReturnsOr
          (λ r.
            (is_active r.survival_motor ≡ (level == survival))
            × (r.motor.last_level ≡ level)
            × (r.interval ≡ (if level == homeostasis then iv.normal else iv.vigilance)))
          ((sm.active ≡ false) × (level ≡ survival) × (env.loaded ≡ panic))
          (react mot dm dm_dot level tick iv p2 env k)
  react-active mot dm dm_dot level tick iv p2 env k sm on e le =
      let within : leb level survival ≡ true = ground arith in
      let timed : interval_of level iv
          ≡ (if level == homeostasis then iv.normal else iv.vigilance) =
        ground arith in
      let expected : active_after p2.enabled p2.survival_motor level ≡ (level == survival) =
        rw (on, e, within) refl in
      ReturnsOr-map (Reacted level iv p2) _
        (LoadPanics p2.enabled p2.survival_motor level env.loaded) _
        (react mot dm dm_dot level tick iv p2 env k) (λ r (a, l, t). (a ∙ expected, l, t ∙ timed))
        (λ q. let (_, at_survival, idle, _, p) = panics q in (idle, at_survival, p))
        (react-Reacted mot dm dm_dot level tick iv p2 env k)
    where
      panics :
          LoadPanics p2.enabled p2.survival_motor level env.loaded
          → LoadPanics p2.enabled (some sm) level env.loaded
      panics q = subst (λ m. LoadPanics p2.enabled m level env.loaded) e q
