-- ===== src/Motor/Survival/Restore.antt =====
-- The control files after `Engage` and after `Release` of internal/motor/survival.go.
use hosa.Prelude.{
  Option, ℕ, suc, refl, subst, List, [], ◌∷◌, ◌≡◌, ◌≢◌, Bool, true, false, some, Bytes, codes,
  is_empty, not, ◌&&◌, bytes_eq, bytes_eq_refl, eq_of_bytes_eq, arith, Bool-cases, inl, inr, sym,
}
use hosa.Prelude.Int.{pos}
use hosa.Strings.Path.{clean}
use hosa.Strings.{format_uint, format_int}
use hosa.Outcome.{Outcome, ok, err, panic, ◌>>=◌}
use hosa.Outcome.Partly.{ReturnsOr}
use hosa.Syscgroup.{
  Kernel, content, newest, cpuset_cpus, cpu_weight, memory_swappiness, memory_swap_max,
}
use hosa.Syscgroup.Files.{AcceptsAll}
use hosa.Motor.Cpuset.{clamp_weight, clamp_swappiness}
use hosa.Motor.Survival.{
  Loaded, load_error, link, wants_sched_ext, apply_fallback, sched_ext_failed, load_result,
  SurvivalMotor, Intervention, MotorFault, engage, engage_loaded, release,
}

pub bytes_eq_of_ne : (a b : Bytes) → a ≢ b → bytes_eq a b ≡ false
bytes_eq_of_ne a b h = elim (Bool-cases (bytes_eq a b)) [
  | inl e ↦ absurd (h (eq_of_bytes_eq a b e))
  | inr e ↦ e
]

-- `Release` writes no cpuset.cpus: the CPUs to which `Engage` confined a cgroup stay as they are,
-- for every cgroup and whichever writes the kernel accepts.
pub release-cpuset :
    (sm : SurvivalMotor) (closes : Bool) (k : Kernel) (path : Bytes)
    → content (release sm closes k).kernel path cpuset_cpus ≡ content k path cpuset_cpus
unfolding release newest
release-cpuset sm closes k path = ground arith

-- After `Release` of an active intervention on an offender and a vital cgroup that differ, where the
-- kernel accepts every write: cpu.weight of the offender is 100 again, both swappiness files hold 60,
-- and the vital cgroup may swap without limit.
pub release_restores :
    (sm : SurvivalMotor) (closes : Bool) (k : Kernel)
    → sm.active ≡ true
    → is_empty sm.cfg.offender_cgroup_path ≡ false
    → is_empty sm.cfg.vital_cgroup_path ≡ false
    → sm.cfg.offender_cgroup_path ≢ sm.cfg.vital_cgroup_path
    → AcceptsAll k
    → let k' = (release sm closes k).kernel in
      let offender = sm.cfg.offender_cgroup_path in
      let vital = sm.cfg.vital_cgroup_path in
      (content k' offender cpu_weight ≡ some (format_uint 100))
      × (content k' offender memory_swappiness ≡ some (format_int (pos 60)))
      × (content k' vital memory_swap_max ≡ some (codes "max"))
      × (content k' vital memory_swappiness ≡ some (format_int (pos 60)))
unfolding release newest
release_restores sm closes k act off vit ne all =
    let o = clean sm.cfg.offender_cgroup_path in
    let v = clean sm.cfg.vital_cgroup_path in
    elim (Bool-cases (bytes_eq v o)) [
      | inl same ↦ ground (
        arith,
        all k.tried,
        all (suc k.tried),
        all (suc (suc k.tried)),
        all (suc (suc (suc k.tried))),
        bytes_eq_refl o,
        bytes_eq_refl v,
        same,
      )
      | inr apart ↦ ground (
        arith,
        all k.tried,
        all (suc k.tried),
        all (suc (suc k.tried)),
        all (suc (suc (suc k.tried))),
        bytes_eq_refl o,
        bytes_eq_refl v,
        apart,
      )
    ]

engage_loaded_applies :
    (sm : SurvivalMotor) (present : Option Bytes) (loaded : Loaded) (k : Kernel)
    → sm.active ≡ false
    → is_empty sm.cfg.offender_cgroup_path ≡ false
    → is_empty sm.cfg.vital_cgroup_path ≡ false
    → clean sm.cfg.offender_cgroup_path ≢ clean sm.cfg.vital_cgroup_path
    → AcceptsAll k
    → let k' = (engage_loaded sm present loaded k).kernel in
      let offender = sm.cfg.offender_cgroup_path in
      let vital = sm.cfg.vital_cgroup_path in
      (content k' offender cpu_weight ≡ some (format_uint (clamp_weight sm.cfg.cpu_weight_starve)))
      × (content k' offender memory_swappiness
          ≡ some (format_int (clamp_swappiness sm.cfg.swappiness_offender)))
      × (content k' vital memory_swap_max ≡ some (codes "0"))
      × (content k' vital memory_swappiness
          ≡ some (format_int (clamp_swappiness sm.cfg.swappiness_vital)))
unfolding engage_loaded newest
engage_loaded_applies sm present loaded k act off vit ne all =
    let o = clean sm.cfg.offender_cgroup_path in
    let v = clean sm.cfg.vital_cgroup_path in
    ground (
      arith,
      all k.tried,
      all (suc k.tried),
      all (suc (suc k.tried)),
      all (suc (suc (suc k.tried))),
      all (suc (suc (suc (suc k.tried)))),
      all (suc (suc (suc (suc (suc k.tried))))),
      bytes_eq_refl o,
      bytes_eq_refl v,
      bytes_eq_of_ne v o (λ e. ne (sym e)),
    )

-- No error of the fallback, and `sched_ext_failed` where the load of a scheduler fails.
abbrev pub load_errors : Bool → Loaded → List MotorFault
load_errors true load_error = sched_ext_failed ∷ []
load_errors true (link fd) = []
load_errors false l = []

-- The control files after `Engage`, and its errors.
abbrev pub Applied : SurvivalMotor → List MotorFault → Intervention → Type 0
Applied sm errors i =
    let k' = i.kernel in
    let offender = sm.cfg.offender_cgroup_path in
    let vital = sm.cfg.vital_cgroup_path in
    (content k' offender cpu_weight ≡ some (format_uint (clamp_weight sm.cfg.cpu_weight_starve)))
    × (content k' offender memory_swappiness
        ≡ some (format_int (clamp_swappiness sm.cfg.swappiness_offender)))
    × (content k' vital memory_swap_max ≡ some (codes "0"))
    × (content k' vital memory_swappiness
        ≡ some (format_int (clamp_swappiness sm.cfg.swappiness_vital)))
    × (i.errors ≡ errors)

apply_fallback-errors :
    (sm : SurvivalMotor) (present : Option Bytes) (k : Kernel)
    → AcceptsAll k
    → (apply_fallback sm present k).1 ≡ []
unfolding apply_fallback
apply_fallback-errors sm present k all = ground (
  arith,
  all k.tried,
  all (suc k.tried),
  all (suc (suc k.tried)),
  all (suc (suc (suc k.tried))),
  all (suc (suc (suc (suc k.tried)))),
  all (suc (suc (suc (suc (suc k.tried))))),
)

engage_loaded-errors :
    (sm : SurvivalMotor) (present : Option Bytes) (loaded : Loaded) (k : Kernel)
    → sm.active ≡ false
    → AcceptsAll k
    → (engage_loaded sm present loaded k).errors ≡ load_errors (wants_sched_ext sm) loaded
unfolding engage_loaded
engage_loaded-errors sm present loaded k act all = elim (Bool-cases (wants_sched_ext sm)) [
  | inl w ↦ by_load w loaded
  | inr w ↦ simp (act, w, apply_fallback-errors sm present k all) refl
]
  where
    by_load :
        wants_sched_ext sm ≡ true
        → (l : Loaded) → (engage_loaded sm present l k).errors ≡ load_errors (wants_sched_ext sm) l
    by_load w load_error = simp (act, w, apply_fallback-errors sm present k all) refl
    by_load w (link fd) = simp (act, w, apply_fallback-errors sm present k all) refl

-- What `loadSchedExt` leaves to report: `sched_ext_failed` where it is called and fails.
abbrev pub expected_errors : Bool → Outcome ℕ → List MotorFault
expected_errors true (err e) = sched_ext_failed ∷ []
expected_errors true (ok fd) = []
expected_errors true panic = []
expected_errors false r = []

-- `Engage` on an inactive motor whose offender and vital cgroups are different cgroups, where the
-- kernel accepts every write, returns, or it loads a scheduler and the load panics. Where it returns,
-- it reports no error of the fallback, and one of the load exactly if it loads a scheduler and the
-- load fails; the offender has the configured weight and swappiness, brought into their ranges, and
-- the vital cgroup may not swap and has its configured swappiness, brought into its range.
pub engage_applies :
    (sm : SurvivalMotor) (present : Option Bytes) (result : Outcome ℕ) (k : Kernel)
    → sm.active ≡ false
    → is_empty sm.cfg.offender_cgroup_path ≡ false
    → is_empty sm.cfg.vital_cgroup_path ≡ false
    → clean sm.cfg.offender_cgroup_path ≢ clean sm.cfg.vital_cgroup_path
    → AcceptsAll k
    → ReturnsOr
        (Applied sm (expected_errors (wants_sched_ext sm) result))
        ((wants_sched_ext sm ≡ true) × (result ≡ panic))
        (engage sm present result k)
unfolding engage
engage_applies sm present result k act off vit ne all =
    let idle : (not sm.active && wants_sched_ext sm) ≡ wants_sched_ext sm = simp act refl in
    subst
      (λ b.
        ReturnsOr (Applied sm (expected_errors (wants_sched_ext sm) result))
          ((wants_sched_ext sm ≡ true) × (result ≡ panic))
          (load_result b result >>= λ l. ok (engage_loaded sm present l k)))
      (sym idle) (by_result (wants_sched_ext sm) refl result)
  where
    applied :
        (l : Loaded)
        → Applied sm (load_errors (wants_sched_ext sm) l) (engage_loaded sm present l k)
    applied l =
        let (a, b, c, d) = engage_loaded_applies sm present l k act off vit ne all in
        (a, b, c, d, engage_loaded-errors sm present l k act all)

    by_result :
        (w : Bool)
        → wants_sched_ext sm ≡ w
        → (r : Outcome ℕ)
        → ReturnsOr
            (Applied sm (expected_errors w r))
            ((w ≡ true) × (r ≡ panic))
            (load_result w r >>= λ l. ok (engage_loaded sm present l k))
    by_result false e r =
        subst (λ w. Applied sm (load_errors w load_error) (engage_loaded sm present load_error k)) e
          (applied load_error)
    by_result true e (ok fd) =
        subst (λ w. Applied sm (load_errors w (link fd)) (engage_loaded sm present (link fd) k)) e
          (applied (link fd))
    by_result true e (err er) =
        subst (λ w. Applied sm (load_errors w load_error) (engage_loaded sm present load_error k)) e
          (applied load_error)
    by_result true e panic = (refl, refl)
