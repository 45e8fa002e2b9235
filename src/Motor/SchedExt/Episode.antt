-- ===== src/Motor/SchedExt/Episode.antt =====
-- internal/motor/survival.go: `Engage` with the load of the scheduler that it calls, `Release` with
-- the close of the link, and the episodes of survival that one follows the other in.
use hosa.Prelude.{
  ℕ, suc, ◌+◌, ◌*◌, ◌≡◌, refl, sym, ap, ◌∙◌, subst, arith, Bool, true, false, ◌&&◌, not, Option,
  some, List, [], ◌∷◌, ◌++◌, Bytes, length, length-append, if◌then◌else◌,
}
use hosa.Prelude.Int.{ℤ, pos, negsuc}
use hosa.Outcome.{Outcome, ok, err, panic, ◌>>=◌}
use hosa.Syscgroup.{Kernel}
use hosa.Sysbpf.Kernel.{Environment, Bpf, Called, close}
use hosa.Sysbpf.Kernel.Accounts.{Holds, Holds-refl, Holds-trans, Holds-close, ArePositive}
use hosa.Sysbpf.Elf.Object.{BpfObject}
use hosa.Sysbpf.Elf.Parse.{parse_elf}
use hosa.Motor.Survival.{
  SurvivalMotor, link, load_error, Intervention, wants_sched_ext, engage_loaded, release,
}
use hosa.Motor.Survival.Activity.{engage_loaded-link, release-link}
use hosa.Motor.SchedExt.{load_sched_ext}
use hosa.Motor.SchedExt.Programs.{struct_ops_count}
use hosa.Motor.SchedExt.Leaks.{load_sched_ext-LeavesOpen}

-- The motor with the two parts of the kernel that it acts on.
pub record World : Type 0 where
  pub motor : SurvivalMotor
  pub control : Kernel
  pub bpf : Bpf

-- The errors are joined into one, which the caller logs.
abbrev after : Bpf → Intervention → World
after b i = record { motor = i.motor; control = i.kernel; bpf = b }

abbrev with_load : SurvivalMotor → Option Bytes → Kernel → Called ℕ → Outcome World
with_load sm present k (b, ok fd) = ok (after b (engage_loaded sm present (link fd) k))
with_load sm present k (b, err e) = ok (after b (engage_loaded sm present load_error k))
with_load sm present k (b, panic) = panic

-- `file` is the file of the object, `present` the CPUs of the machine.
unfoldable pub engage_loading :
    Environment → Option (Bytes × ℕ) → Option Bytes → World → Outcome World
engage_loading env file present w =
    let load =
      with_load w.motor present w.control (load_sched_ext env file w.motor.sched_ext_fd w.bpf) in
    if not w.motor.active && wants_sched_ext w.motor
    then load
    else ok (after w.bpf (engage_loaded w.motor present load_error w.control))

-- The descriptor that `Release` closes, if it closes one.
abbrev close_fd : ℤ → Bpf → Bpf
close_fd (pos fd) b = close fd b
close_fd (negsuc n) b = b

-- `closes` says whether the close of the link reports no error.
unfoldable pub release_closing : Bool → World → World
release_closing closes w =
    after (if w.motor.active then close_fd w.motor.sched_ext_fd w.bpf else w.bpf)
      (release w.motor closes w.control)

-- An episode of survival: what the machine answers in it, and `Engage` followed by `Release`.
pub record Episode : Type 0 where
  pub present : Option Bytes
  pub closes : Bool

abbrev close_episode : Episode → World → Outcome World
close_episode e w = ok (release_closing e.closes w)

unfoldable pub episode : Environment → Option (Bytes × ℕ) → Episode → World → Outcome World
unfolding engage_loading release_closing
episode env file e w = engage_loading env file e.present w >>= close_episode e

unfoldable pub episodes : Environment → Option (Bytes × ℕ) → List Episode → World → Outcome World
unfolding episode
episodes env file [] w = ok w
episodes env file (e ∷ es) w = episode env file e w >>= episodes env file es

-- A motor between two episodes that can load a scheduler.
pub record IsReady (sm : SurvivalMotor) : Type 0 where
  pub inactive : sm.active ≡ false
  pub unlinked : sm.sched_ext_fd ≡ negsuc 0
  pub wants : wants_sched_ext sm ≡ true

abbrev settled : SurvivalMotor → SurvivalMotor
settled sm = record sm { sched_ext_fd = negsuc 0; active = false }

module _ (env : Environment) (s : Bytes) (spare : ℕ) where
  -- The world after an episode whose load gives the link `fd` and the state `b`.
  abbrev pub ended : Episode → World → Bpf → ℕ → World
  ended e w b fd =
      release_closing e.closes (after b (engage_loaded w.motor e.present (link fd) w.control))

  episode-ended :
      (e : Episode) (w : World) (b : Bpf) (fd : ℕ)
      → IsReady w.motor
      → load_sched_ext env (some (s, spare)) (negsuc 0) w.bpf ≡ (b, ok fd)
      → episode env (some (s, spare)) e w ≡ ok (ended e w b fd)
  unfolding episode engage_loading
  episode-ended e w b fd r h = rw (r.inactive) (rw (r.unlinked) (rw (r.wants) (rw h refl)))

  ended_motor :
      (e : Episode) (w : World) (b : Bpf) (fd : ℕ)
      → IsReady w.motor
      → (ended e w b fd).motor ≡ settled w.motor
  unfolding release_closing
  ended_motor e w b fd r =
      let i = engage_loaded w.motor e.present (link fd) w.control in
      let linked = engage_loaded-link w.motor e.present fd w.control r.inactive r.wants in
      release-link i.motor e.closes fd i.kernel (ap (λ m. m.active) linked)
        (ap (λ m. m.sched_ext_fd) linked)
      ∙ ap settled linked

  ended_bpf :
      (e : Episode) (w : World) (b : Bpf) (fd : ℕ)
      → IsReady w.motor
      → (ended e w b fd).bpf ≡ close fd b
  unfolding release_closing
  ended_bpf e w b fd r =
      ap (λ m. if m.active then close_fd m.sched_ext_fd b else b)
        (engage_loaded-link w.motor e.present fd w.control r.inactive r.wants)

  ended-IsReady :
      (e : Episode) (w : World) (b : Bpf) (fd : ℕ)
      → IsReady w.motor
      → IsReady (ended e w b fd).motor
  ended-IsReady e w b fd r =
      subst IsReady (sym (ended_motor e w b fd r))
        record { inactive = refl; unlinked = refl; wants = r.wants }

  -- The load succeeds in each of the episodes.
  abbrev pub AllLoad : List Episode → World → Type 0
  AllLoad [] w = Unit
  AllLoad (e ∷ es) w =
      (b : Bpf) × ((fd : ℕ) × ((load_sched_ext env (some (s, spare)) (negsuc 0) w.bpf ≡ (b, ok fd))
          × AllLoad es (ended e w b fd)))

  -- `n` descriptors more are open, and the motor records none of them.
  abbrev pub Leaked : Bpf → ℕ → Outcome World → Type 0
  Leaked k n (ok w) =
      (w.motor.sched_ext_fd ≡ negsuc 0) × ((xs : List ℕ) × (Holds k w.bpf xs × (length xs ≡ n)))
  Leaked k n (err e) = ⊥
  Leaked k n panic = ⊥

  -- An episode keeps the control map and all programs but one, and closes the link.
  ended-Holds :
      (obj : BpfObject) (e : Episode) (w : World) (b : Bpf) (fd : ℕ)
      → ArePositive env
      → parse_elf s spare ≡ ok obj
      → IsReady w.motor
      → load_sched_ext env (some (s, spare)) (negsuc 0) w.bpf ≡ (b, ok fd)
      → (xs : List ℕ) × (Holds w.bpf (ended e w b fd).bpf xs
          × (length xs ≡ struct_ops_count obj.insns_by_section))
  ended-Holds obj e w b fd p q r h =
      let (ctrl_map, (rest, (held, n))) =
        load_sched_ext-LeavesOpen env s spare obj (negsuc 0) w.bpf b fd p q h in
      (
        ctrl_map ∷ rest,
        (
          subst (λ k. Holds w.bpf k (ctrl_map ∷ rest)) (sym (ended_bpf e w b fd r))
              (Holds-close w.bpf b fd (ctrl_map ∷ rest) held),
          n,
        ),
      )

  Leaked-after :
      (k0 k : Bpf) (xs : List ℕ) (n m total : ℕ) (o : Outcome World)
      → Holds k0 k xs
      → length xs ≡ n
      → n + m ≡ total
      → Leaked k m o
      → Leaked k0 total o
  Leaked-after k0 k xs n m total (ok w) h l e (unlinked, (ys, (g, l'))) = (
    unlinked,
    (xs ++ ys, (Holds-trans k0 k w.bpf xs ys h g, omega (arith, length-append xs ys, l, l', e))),
  )
  Leaked-after k0 k xs n m total (err x) h l e a = a
  Leaked-after k0 k xs n m total panic h l e a = a

  -- Episodes of survival that follow each other, in each of which the load of the scheduler succeeds,
  -- all return, and each of them leaves as many descriptors open as the object has sections of
  -- struct_ops, so that after all of them that number times the number of episodes is open that was
  -- not before; the motor records none of them. It starts inactive and without a link, with support
  -- of the kernel for sched_ext and with an object in its configuration. The descriptors that the
  -- kernel returns are positive.
  pub episodes-Leaked :
      (obj : BpfObject) (es : List Episode) (w : World)
      → ArePositive env
      → parse_elf s spare ≡ ok obj
      → IsReady w.motor
      → AllLoad es w
      → Leaked w.bpf
          (length es * struct_ops_count obj.insns_by_section)
          (episodes env (some (s, spare)) es w)
  unfolding episodes
  episodes-Leaked obj [] w p q r a = (r.unlinked, ([], (Holds-refl w.bpf, ground arith)))
  episodes-Leaked obj (e ∷ es) w p q r (b, (fd, (h, a))) =
      let (xs, (held, l)) = ended-Holds obj e w b fd p q r h in
      rw (episode-ended e w b fd r h) (
        Leaked-after w.bpf (ended e w b fd).bpf xs (struct_ops_count obj.insns_by_section)
          (length es * struct_ops_count obj.insns_by_section)
          (suc (length es) * struct_ops_count obj.insns_by_section)
          (episodes env (some (s, spare)) es (ended e w b fd)) held l (ground arith)
          (episodes-Leaked obj es (ended e w b fd) p q (ended-IsReady e w b fd r) a))
