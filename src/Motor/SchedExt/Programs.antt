-- ===== src/Motor/SchedExt/Programs.antt =====
-- internal/motor/survival.go: what the loop of `loadSchedExt` over the sections leaves open.
use hosa.Prelude.{
  ℕ, suc, ◌+◌, ◌≡◌, subst, arith, Bool-cases, inl, inr, Option, none, some, List, [], ◌∷◌, Bytes,
  codes, length, if◌then◌else◌,
}
use hosa.Outcome.{Outcome, ok, err, panic}
use hosa.Strings.{has_prefix}
use hosa.Sysbpf.Kernel.{Environment, Bpf, Called}
use hosa.Sysbpf.Kernel.Accounts.{Holds, ArePositive, Adds, load_prog-Adds}
use hosa.Sysbpf.Elf.Object.{Buffer}
use hosa.Motor.SchedExt.{Progs, load_progs, step_progs}

-- The programs that were loaded: the last one, and the others.
abbrev pub Tracks : Bpf → Bpf → Option ℕ → ℕ → Type 0
Tracks k0 k none n = Holds k0 k [] × (n ≡ 0)
Tracks k0 k (some fd) n = (rest : List ℕ) × (Holds k0 k (fd ∷ rest) × (suc (length rest) ≡ n))

-- The sections of struct_ops programs.
abbrev pub struct_ops_count : List (Bytes × Buffer) → ℕ
struct_ops_count [] = 0
struct_ops_count ((section, b) ∷ m) =
    (if has_prefix section (codes "struct_ops/") then 1 else 0) + struct_ops_count m

module _ (env : Environment) (p : ArePositive env) where
  next-Tracks :
      (k0 k k' : Bpf) (last : Option ℕ) (n fd : ℕ)
      → Tracks k0 k last n
      → Holds k k' (fd ∷ [])
      → Tracks k0 k' (some fd) (suc n)
  next-Tracks k0 k k' none n fd (h, e) g = ([], ((λ x. omega (arith, h x, g x)), omega (arith, e)))
  next-Tracks k0 k k' (some last) n fd (rest, (h, e)) g =
      (last ∷ rest, ((λ x. omega (arith, h x, g x)), omega (arith, e)))

  -- What holds of the state after the loop, if it ends without an error.
  abbrev pub Loaded : Bpf → ℕ → Outcome (Unit {0}) → Progs → Type 0
  Loaded k0 n (ok _) s = Tracks k0 s.kernel s.last n × (s.count ≡ n)
  Loaded k0 n (err e) s = Unit
  Loaded k0 n panic s = Unit

  abbrev IsLoaded : Bpf → ℕ → Progs → Type 0
  IsLoaded k0 n s = Loaded k0 n s.result s

  step_progs-IsLoaded :
      (rest : Option ℕ → ℕ → Bpf → Progs) (last : Option ℕ) (n total : ℕ) (k0 k : Bpf)
      (r : Called ℕ)
      → Tracks k0 k last n
      → Adds k r
      → ((fd : ℕ) (k' : Bpf)
          → Tracks k0 k' (some fd) (suc n)
          → IsLoaded k0 total (rest (some fd) (suc n) k'))
      → IsLoaded k0 total (step_progs rest last n r)
  step_progs-IsLoaded rest last n total k0 k (k', ok fd) t a f =
      f fd k' (next-Tracks k0 k k' last n fd t a.holds)
  step_progs-IsLoaded rest last n total k0 k (k', err e) t a f = tt
  step_progs-IsLoaded rest last n total k0 k (k', panic) t a f = tt

  pub load_progs-IsLoaded :
      (license : Bytes) (m : List (Bytes × Buffer)) (last : Option ℕ) (n total : ℕ) (k0 k : Bpf)
      → Tracks k0 k last n
      → n + struct_ops_count m ≡ total
      → IsLoaded k0 total (load_progs env license m last n k)
  unfolding load_progs
  load_progs-IsLoaded license [] last n total k0 k t e =
      let e' : n ≡ total = omega (arith, e) in (subst (Tracks k0 k last) e' t, e')
  load_progs-IsLoaded license ((section, b) ∷ m) last n total k0 k t e =
      elim (Bool-cases (has_prefix section (codes "struct_ops/"))) [
        | inl h ↦
            let e' : suc n + struct_ops_count m ≡ total = ground (arith, e, h) in
            rw h (
              step_progs-IsLoaded (load_progs env license m) last n total k0 k _ t
                (load_prog-Adds env p _ b.bytes license k)
                (λ fd k' t'. load_progs-IsLoaded license m (some fd) (suc n) total k0 k' t' e'))
        | inr h ↦
            let e' : n + struct_ops_count m ≡ total = ground (arith, e, h) in
            rw h (load_progs-IsLoaded license m last n total k0 k t e')
      ]
