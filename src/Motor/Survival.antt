-- ===== src/Motor/Survival.antt =====
-- internal/motor/survival.go: the physical intervention of phase 2. The outcome of `loadSchedExt`,
-- which is a chain of bpf system calls, and that of closing its link are arguments.
pub mod Restore
pub mod Activity
use hosa.Prelude.{
  ℕ, Bool, true, false, ◌&&◌, Option, none, some, List, [], ◌∷◌, ◌++◌, Bytes, codes, is_empty, not,
  ltb, if◌then◌else◌, length,
}
use hosa.Prelude.Int.{ℤ, pos, negsuc, leb_ℤ}
use hosa.Sensor.Topology.{Topology}
use hosa.Strings.{format_uint, format_int}
use hosa.Outcome.{Outcome, ok, err, panic, ◌>>=◌}
use hosa.Syscgroup.{Kernel, WriteError}
use hosa.Motor.Cpuset.{
  CpuSet, set_cgroup_cpu_set, set_cgroup_cpu_weight, set_cgroup_swappiness, set_cgroup_swap_max,
  reset_cgroup_cpu_weight,
}

pub record SurvivalConfig : Type 0 where
  pub sched_ext_bpf_object : Bytes
  pub offender_cgroup_path : Bytes
  pub vital_cgroup_path : Bytes
  pub cpu_weight_starve : ℕ
  pub swappiness_offender : ℤ
  pub swappiness_vital : ℤ

pub record SurvivalMotor : Type 0 where
  pub cfg : SurvivalConfig
  pub topo : Option Topology
  -- -1 while no scheduler is loaded.
  pub sched_ext_fd : ℤ
  pub active : Bool
  pub sched_ext_avail : Bool

pub data MotorFault : Type 0 where
  fallback_failed : List WriteError → MotorFault
  sched_ext_failed close_failed : MotorFault
  control_failed : WriteError → MotorFault

-- A `loadSchedExt` that returns: it fails, or it stores the descriptor of its link.
pub data Loaded : Type 0 where
  load_error : Loaded
  link : ℕ → Loaded

unfoldable pub new_survival_motor : SurvivalConfig → Option Topology → Bool → SurvivalMotor
new_survival_motor cfg topo avail = record {
  cfg = cfg;
  topo = topo;
  sched_ext_fd = negsuc 0;
  active = false;
  sched_ext_avail = avail;
}

abbrev pub cache_groups_of : Option Topology → List (List ℕ)
cache_groups_of none = []
cache_groups_of (some t) = t.cache_groups

-- `selectCacheWarmCPUs` and `selectOffenderCPUs`; `nil` is the empty set.
abbrev pub select_cache_warm_cpus : List (List ℕ) → CpuSet
select_cache_warm_cpus [] = []
select_cache_warm_cpus (g ∷ gs) = g

abbrev pub select_offender_cpus : List (List ℕ) → CpuSet
select_offender_cpus [] = []
select_offender_cpus (g ∷ []) = []
select_offender_cpus (g ∷ h ∷ gs) = h

-- The kernel and the errors so far.
abbrev pub Logged : Type 0 → Type 0
Logged E = Kernel × List E

abbrev pub log : {E : Type 0} → (WriteError → E) → List E → Kernel × Option WriteError → Logged E
log wrap errs (k, none) = (k, errs)
log wrap errs (k, some e) = (k, errs ++ wrap e ∷ [])

-- if err := step(); err != nil { errs = append(errs, err) }
abbrev pub also :
    {E : Type 0} → (WriteError → E) → (Kernel → Kernel × Option WriteError) → Logged E → Logged E
also wrap step (k, errs) = log wrap errs (step k)

abbrev pub keep : WriteError → WriteError
keep e = e

-- A set of CPUs is written only if it is not empty.
abbrev pub pin : Option Bytes → Bytes → CpuSet → Logged WriteError → Logged WriteError
pin present path [] s = s
pin present path (c ∷ cs) s = also keep (set_cgroup_cpu_set present path (c ∷ cs)) s

unfoldable pub restrain_offender :
    SurvivalMotor → Option Bytes → Logged WriteError → Logged WriteError
unfolding set_cgroup_cpu_weight set_cgroup_swappiness set_cgroup_cpu_set
restrain_offender sm present s =
    let path = sm.cfg.offender_cgroup_path in
    if is_empty path
    then s
    else pin present path (select_offender_cpus (cache_groups_of sm.topo)) (
        also keep (set_cgroup_swappiness path sm.cfg.swappiness_offender)
          (also keep (set_cgroup_cpu_weight path sm.cfg.cpu_weight_starve) s))

unfoldable pub protect_vital : SurvivalMotor → Option Bytes → Logged WriteError → Logged WriteError
unfolding set_cgroup_swap_max set_cgroup_swappiness set_cgroup_cpu_set
protect_vital sm present s =
    let path = sm.cfg.vital_cgroup_path in
    if is_empty path
    then s
    else pin present path (select_cache_warm_cpus (cache_groups_of sm.topo)) (
        also keep (set_cgroup_swappiness path sm.cfg.swappiness_vital)
          (also keep (set_cgroup_swap_max path (pos 0)) s))

unfoldable pub apply_fallback : SurvivalMotor → Option Bytes → Kernel → Logged WriteError
unfolding restrain_offender protect_vital
apply_fallback sm present k = protect_vital sm present (restrain_offender sm present (k, []))

abbrev pub fallback_fault : List WriteError → List MotorFault
fallback_fault [] = []
fallback_fault (e ∷ es) = fallback_failed (e ∷ es) ∷ []

-- The result of a method: the motor, the kernel and the errors that it joins, none for `nil`.
pub record Intervention : Type 0 where
  pub motor : SurvivalMotor
  pub kernel : Kernel
  pub errors : List MotorFault

unfoldable pub load_tier1 :
    SurvivalMotor → Loaded → List MotorFault → SurvivalMotor × List MotorFault
load_tier1 sm load_error errs = (sm, errs ++ sched_ext_failed ∷ [])
load_tier1 sm (link fd) errs = (record sm { sched_ext_fd = pos fd }, errs)

-- `Engage`, where the load of the scheduler returns, if it is called.
unfoldable pub engage_loaded : SurvivalMotor → Option Bytes → Loaded → Kernel → Intervention
unfolding apply_fallback load_tier1
engage_loaded sm present loaded k =
    if sm.active
    then record { motor = sm; kernel = k; errors = [] }
    else (let (k', errs) = apply_fallback sm present k in
        let (sm', errs') =
          if sm.sched_ext_avail && not (is_empty sm.cfg.sched_ext_bpf_object)
          then load_tier1 sm loaded (fallback_fault errs)
          else (sm, fallback_fault errs) in
        record { motor = record sm' { active = true }; kernel = k'; errors = errs' })

-- Whether `Engage` loads a scheduler.
abbrev pub wants_sched_ext : SurvivalMotor → Bool
wants_sched_ext sm = sm.sched_ext_avail && not (is_empty sm.cfg.sched_ext_bpf_object)

-- The result of `loadSchedExt`, where it is called. A panic ends the call of `Engage`.
abbrev pub load_result : Bool → Outcome ℕ → Outcome Loaded
load_result false r = ok load_error
load_result true (ok fd) = ok (link fd)
load_result true (err e) = ok load_error
load_result true panic = panic

-- `Engage`, with what `loadSchedExt` does if it is called: it returns a descriptor or an error, or
-- panics.
unfoldable pub engage : SurvivalMotor → Option Bytes → Outcome ℕ → Kernel → Outcome Intervention
unfolding engage_loaded
engage sm present result k = load_result (not sm.active && wants_sched_ext sm) result >>= λ l.
    ok (engage_loaded sm present l k)

-- The link is closed, and its descriptor forgotten whether that fails or not.
unfoldable pub close_link : SurvivalMotor → Bool → SurvivalMotor × List MotorFault
close_link sm closes =
    if leb_ℤ (pos 0) sm.sched_ext_fd
    then (record sm { sched_ext_fd = negsuc 0 }, if closes then [] else close_failed ∷ [])
    else (sm, [])

unfoldable pub reset_offender : SurvivalConfig → Logged MotorFault → Logged MotorFault
unfolding reset_cgroup_cpu_weight set_cgroup_swappiness
reset_offender cfg s =
    let path = cfg.offender_cgroup_path in
    if is_empty path
    then s
    else also control_failed (set_cgroup_swappiness path (pos 60))
        (also control_failed (reset_cgroup_cpu_weight path) s)

unfoldable pub reset_vital : SurvivalConfig → Logged MotorFault → Logged MotorFault
unfolding set_cgroup_swap_max set_cgroup_swappiness
reset_vital cfg s =
    let path = cfg.vital_cgroup_path in
    if is_empty path
    then s
    else also control_failed (set_cgroup_swappiness path (pos 60))
        (also control_failed (set_cgroup_swap_max path (negsuc 0)) s)

unfoldable pub release : SurvivalMotor → Bool → Kernel → Intervention
unfolding close_link reset_offender reset_vital
release sm closes k =
    if not sm.active
    then record { motor = sm; kernel = k; errors = [] }
    else (let (sm', errs) = close_link sm closes in
        let (k', errs') = reset_vital sm.cfg (reset_offender sm.cfg (k, errs)) in
        record { motor = record sm' { active = false }; kernel = k'; errors = errs' })

-- `ActionSummary`.
unfoldable pub action_summary : SurvivalMotor → Bytes
action_summary sm =
    if leb_ℤ (pos 0) sm.sched_ext_fd
    then codes "tier1(sched_ext)+tier2"
    else codes "tier2(cpu.weight=1+swappiness)"

-- strings.Join with a blank.
abbrev pub join_blank : List Bytes → Bytes
join_blank [] = []
join_blank (p ∷ []) = p
join_blank (p ∷ q ∷ ps) = p ++ b' ' ∷ join_blank (q ∷ ps)

abbrev pub affinity_parts : List (List ℕ) → List Bytes
affinity_parts groups =
    if ltb 1 (length groups) then codes "cache_affinity=multi_socket" ∷ [] else []

unfoldable pub survival_action_summary : SurvivalConfig → Option Topology → Bool → Bytes
survival_action_summary cfg topo sched_ext_active = join_blank (
    (codes "cpu.weight=" ++ format_uint cfg.cpu_weight_starve)
    ∷ (codes "swappiness_offender=" ++ format_int cfg.swappiness_offender)
    ∷ codes "swap.max_vital=0"
    ∷ (affinity_parts (cache_groups_of topo)
        ++ (if sched_ext_active
            then codes "sched_ext=active"
            else codes "sched_ext=unavailable(fallback)")
          ∷ []))
