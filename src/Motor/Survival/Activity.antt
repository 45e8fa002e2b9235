-- ===== src/Motor/Survival/Activity.antt =====
-- The flag `active` and the descriptor of the link in internal/motor/survival.go, and repeated calls.
use hosa.Prelude.{ℕ, ◌≡◌, refl, Bool, true, false, Option, [], Bytes, arith}
use hosa.Syscgroup.{Kernel}
use hosa.Prelude.Int.{pos, negsuc, leb_ℤ}
use hosa.Motor.Survival.{
  SurvivalMotor, Loaded, link, engage_loaded, wants_sched_ext, load_tier1, close_link, release,
}

-- `Engage` leaves the intervention active whether or not it reports errors, so that a second
-- `Engage` makes no write and reports none: what failed is not tried again before a `Release`.
pub engage_loaded-engage_loaded :
    (sm : SurvivalMotor) (present : Option Bytes) (loaded loaded' : Loaded) (k k' : Kernel)
    → let sm' = (engage_loaded sm present loaded k).motor in
      (sm'.active ≡ true)
      × (engage_loaded sm' present loaded' k' ≡ record { motor = sm'; kernel = k'; errors = [] })
unfolding engage_loaded
engage_loaded-engage_loaded sm present loaded loaded' k k' = ground arith

-- `Release` leaves the intervention inactive whether or not it reports errors, and a second
-- `Release` makes no write.
pub release-release :
    (sm : SurvivalMotor) (closes closes' : Bool) (k k' : Kernel)
    → let sm' = (release sm closes k).motor in
      (sm'.active ≡ false)
      × (release sm' closes' k' ≡ record { motor = sm'; kernel = k'; errors = [] })
unfolding release
release-release sm closes closes' k k' = ground arith

-- A motor that wants a scheduler and gets a link records it.
pub engage_loaded-link :
    (sm : SurvivalMotor) (present : Option Bytes) (fd : ℕ) (k : Kernel)
    → sm.active ≡ false
    → wants_sched_ext sm ≡ true
    → (engage_loaded sm present (link fd) k).motor
      ≡ record sm { sched_ext_fd = pos fd; active = true }
unfolding engage_loaded load_tier1
engage_loaded-link sm present fd k h w = rw h (rw w refl)

is_open : (fd : ℕ) → leb_ℤ (pos 0) (pos fd) ≡ true
is_open fd = ground arith

-- The link is forgotten.
pub release-link :
    (sm : SurvivalMotor) (closes : Bool) (fd : ℕ) (k : Kernel)
    → sm.active ≡ true
    → sm.sched_ext_fd ≡ pos fd
    → (release sm closes k).motor ≡ record sm { sched_ext_fd = negsuc 0; active = false }
unfolding release close_link
release-link sm closes fd k h e = rw h (rw e (rw (is_open fd) refl))
