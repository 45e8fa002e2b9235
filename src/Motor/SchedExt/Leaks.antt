-- ===== src/Motor/SchedExt/Leaks.antt =====
-- internal/motor/survival.go: the descriptors that a successful `loadSchedExt` leaves open.
use hosa.Prelude.{
  ℕ, zero, suc, ◌+◌, ◌≡◌, refl, ap, subst, arith, Option, none, some, List, [], ◌∷◌, Bytes, codes,
  length, if◌then◌else◌,
}
use hosa.Prelude.Int.{ℤ, pos, negsuc}
use hosa.Outcome.{Outcome, ok, err, panic}
use hosa.Strings.{has_prefix}
use hosa.Sysbpf.Kernel.{
  Environment, Bpf, Called, close, create_map, open_vmlinux_btf, find_sched_ext_ops_type_id,
  link_struct_ops,
}
use hosa.Sysbpf.Kernel.Accounts.{
  Holds, Holds-refl, ArePositive, Adds, create_map-Adds, open_vmlinux_btf-Adds,
  create_struct_ops_map-Adds, link_struct_ops-Adds,
}
use hosa.Sysbpf.Elf.Object.{Buffer, BpfObject}
use hosa.Sysbpf.Elf.Parse.{relocate_object, relocate_first, share, parse_elf}
use hosa.Sysbpf.Relocate.{MapFds}
use hosa.Motor.SchedExt.Programs.{Tracks, struct_ops_count, Loaded, load_progs-IsLoaded}
use hosa.Motor.SchedExt.{
  Progs, load_progs, close_linked, link_map, with_type_id, close_btf, with_btf, check_count,
  bpf_map_type_array, ctrl_map_name, with_progs, with_relocated, close_ctrl, with_ctrl, load_with,
  load_sched_ext,
}

module _ (env : Environment) (p : ArePositive env) where
  -- A result with the link, which is open beside the descriptors of the list.
  abbrev Keeps : Bpf → List ℕ → Called ℕ → Type 0
  Keeps k0 xs (k, ok link) = Holds k0 k (link ∷ xs)
  Keeps k0 xs (k, err e) = Unit
  Keeps k0 xs (k, panic) = Unit

  link_map-Keeps :
      (fd : ℕ) (xs : List ℕ) (k0 k : Bpf) (r : Called ℕ)
      → Holds k0 k (fd ∷ xs)
      → Adds k r
      → Keeps k0 xs (link_map env (some fd) r)
  unfolding close
  link_map-Keeps fd xs k0 k (k', ok ops_map) h a =
      linked (link_struct_ops env ops_map k') (link_struct_ops-Adds env p ops_map k')
    where
      linked : (r : Called ℕ) → Adds k' r → Keeps k0 xs (close_linked (some fd) ops_map r)
      linked (k'', ok link) b = λ x. omega (arith, h x, a.holds x, b.holds x)
      linked (k'', err e) b = tt
      linked (k'', panic) b = tt
  link_map-Keeps fd xs k0 k (k', err e) h a = tt
  link_map-Keeps fd xs k0 k (k', panic) h a = tt

  with_type_id-Keeps :
      (fd btf_fd : ℕ) (xs : List ℕ) (k0 k : Bpf) (id : Outcome ℕ)
      → Holds k0 k (fd ∷ xs)
      → Keeps k0 xs (with_type_id env (some fd) btf_fd k id)
  with_type_id-Keeps fd btf_fd xs k0 k (ok id) h =
      link_map-Keeps fd xs k0 k _ h (create_struct_ops_map-Adds env p btf_fd id k)
  with_type_id-Keeps fd btf_fd xs k0 k (err e) h = tt
  with_type_id-Keeps fd btf_fd xs k0 k panic h = tt

  close_btf-Keeps :
      (btf_fd : ℕ) (xs : List ℕ) (k0 : Bpf) (r : Called ℕ)
      → Keeps k0 (btf_fd ∷ xs) r
      → Keeps k0 xs (close_btf btf_fd r)
  unfolding close
  close_btf-Keeps btf_fd xs k0 (k, ok link) h = λ x. omega (arith, h x)
  close_btf-Keeps btf_fd xs k0 (k, err e) h = tt
  close_btf-Keeps btf_fd xs k0 (k, panic) h = tt

  with_btf-Keeps :
      (fd : ℕ) (xs : List ℕ) (k0 k : Bpf) (r : Called ℕ)
      → Holds k0 k (fd ∷ xs)
      → Adds k r
      → Keeps k0 xs (with_btf env (some fd) r)
  with_btf-Keeps fd xs k0 k (k', ok btf_fd) h a = close_btf-Keeps btf_fd xs k0 _ (
      with_type_id-Keeps fd btf_fd (btf_fd ∷ xs) k0 k' (find_sched_ext_ops_type_id env)
        (λ x. omega (arith, h x, a.holds x)))
  with_btf-Keeps fd xs k0 k (k', err e) h a = tt
  with_btf-Keeps fd xs k0 k (k', panic) h a = tt

  -- A result with the link, which is open beside all programs but the last one.
  abbrev Leaves : Bpf → ℕ → Called ℕ → Type 0
  Leaves k0 n (k, ok link) = (rest : List ℕ) × (Holds k0 k (link ∷ rest) × (suc (length rest) ≡ n))
  Leaves k0 n (k, err e) = Unit
  Leaves k0 n (k, panic) = Unit

  Keeps-Leaves :
      (k0 : Bpf) (n : ℕ) (rest : List ℕ) (r : Called ℕ)
      → Keeps k0 rest r
      → suc (length rest) ≡ n
      → Leaves k0 n r
  Keeps-Leaves k0 n rest (k, ok link) h e = (rest, (h, e))
  Keeps-Leaves k0 n rest (k, err e') h e = tt
  Keeps-Leaves k0 n rest (k, panic) h e = tt

  check_count-Leaves :
      (k0 k : Bpf) (n : ℕ) (last : Option ℕ) (count : ℕ)
      → Tracks k0 k last n
      → count ≡ n
      → Leaves k0 n (check_count env last count k)
  check_count-Leaves k0 k n last zero t e = tt
  check_count-Leaves k0 k n none (suc c) t e = absurd (omega (arith, t.1, e))
  check_count-Leaves k0 k n (some fd) (suc c) (rest, (h, l)) e =
      Keeps-Leaves k0 n rest (with_btf env (some fd) (open_vmlinux_btf env k))
        (with_btf-Keeps fd rest k0 k _ h (open_vmlinux_btf-Adds env p k)) l

  with_progs-Leaves :
      (k0 : Bpf) (n : ℕ) (r : Outcome (Unit {0})) (s : Progs)
      → Loaded env p k0 n r s
      → Leaves k0 n (with_progs env r s)
  with_progs-Leaves k0 n (ok u) s (t, e) = check_count-Leaves k0 s.kernel n s.last s.count t e
  with_progs-Leaves k0 n (err e) s l = tt
  with_progs-Leaves k0 n panic s l = tt

  with_relocated-Leaves :
      (k : Bpf) (r : BpfObject × Outcome (Unit {0}))
      → Leaves k (struct_ops_count r.0.insns_by_section) (with_relocated env k r)
  with_relocated-Leaves k (obj, ok u) =
      let s = load_progs env obj.license obj.insns_by_section none 0 k in
      with_progs-Leaves k (struct_ops_count obj.insns_by_section) s.result s (
        load_progs-IsLoaded env p obj.license obj.insns_by_section none 0 _ k k (Holds-refl k, refl)
          (omega arith))
  with_relocated-Leaves k (obj, err e) = tt
  with_relocated-Leaves k (obj, panic) = tt

struct_ops_count-share :
    (b : Buffer) (m : List (Bytes × Buffer)) → struct_ops_count (share b m) ≡ struct_ops_count m
struct_ops_count-share b [] = refl
struct_ops_count-share b ((section, a) ∷ m) =
    ap (λ n. (if has_prefix section (codes "struct_ops/") then 1 else 0) + n)
      (struct_ops_count-share b m)

-- The relocation keeps the sections.
relocate_first-sections :
    (fds : MapFds) (obj : BpfObject) (b : Option Buffer)
    → struct_ops_count (relocate_first fds obj b).0.insns_by_section
      ≡ struct_ops_count obj.insns_by_section
relocate_first-sections fds obj none = refl
relocate_first-sections fds obj (some b) = struct_ops_count-share _ obj.insns_by_section

-- Of a result with the link: beside the link, the control map and every program but the last of
-- those that were loaded stay open.
abbrev LeavesOpen : Bpf → ℕ → Called ℕ → Type 0
LeavesOpen k n (k', ok link) =
    (ctrl_map : ℕ) × ((rest : List ℕ) × (Holds k k' (link ∷ ctrl_map ∷ rest)
        × (suc (length rest) ≡ n)))
LeavesOpen k n (k', err e) = Unit
LeavesOpen k n (k', panic) = Unit

module _ (env : Environment) (p : ArePositive env) where
  close_ctrl-LeavesOpen :
      (fd : ℤ) (ctrl_map n : ℕ) (k0 k : Bpf) (r : Called ℕ)
      → Holds k0 k (ctrl_map ∷ [])
      → Leaves env p k n r
      → LeavesOpen k0 n (close_ctrl fd ctrl_map r)
  close_ctrl-LeavesOpen fd ctrl_map n k0 k (k', ok link) h (rest, (g, e)) =
      (ctrl_map, (rest, ((λ x. omega (arith, h x, g x)), e)))
  close_ctrl-LeavesOpen (pos m) ctrl_map n k0 k (k', err e) h l = tt
  close_ctrl-LeavesOpen (negsuc m) ctrl_map n k0 k (k', err e) h l = tt
  close_ctrl-LeavesOpen fd ctrl_map n k0 k (k', panic) h l = tt

  with_ctrl-LeavesOpen :
      (fd : ℤ) (obj : BpfObject) (k : Bpf) (r : Called ℕ)
      → Adds k r
      → LeavesOpen k (struct_ops_count obj.insns_by_section) (with_ctrl env fd obj r)
  unfolding relocate_object
  with_ctrl-LeavesOpen fd obj k (k', ok ctrl_map) a =
      let fds = (ctrl_map_name, pos ctrl_map) ∷ [] in
      let r = relocate_object fds obj in
      close_ctrl-LeavesOpen fd ctrl_map _ k k' _ a.holds (
        subst (λ n. Leaves env p k' n (with_relocated env k' r))
          (relocate_first-sections fds obj obj.insns) (with_relocated-Leaves env p k' r))
  with_ctrl-LeavesOpen fd obj k (k', err e) a = tt
  with_ctrl-LeavesOpen fd obj k (k', panic) a = tt

load_with-LeavesOpen :
    (env : Environment) (obj : BpfObject) (fd : ℤ) (k : Bpf)
    → ArePositive env
    → LeavesOpen k (struct_ops_count obj.insns_by_section) (load_with env fd k (ok obj))
load_with-LeavesOpen env obj fd k p =
    with_ctrl-LeavesOpen env p fd obj k (create_map env bpf_map_type_array 4 8 8 k)
      (create_map-Adds env p bpf_map_type_array 4 8 8 k)

-- After a load that succeeds, beside the link that the motor records, the control map and all
-- programs of the scheduler but one are still open, as many programs as the object has sections of
-- struct_ops less one; the motor keeps no descriptor of them, so nothing closes them later. Every
-- other descriptor that the load opened is closed. The descriptors that the kernel returns are
-- positive.
pub load_sched_ext-LeavesOpen :
    (env : Environment) (s : Bytes) (spare : ℕ) (obj : BpfObject) (fd : ℤ) (k k' : Bpf) (link : ℕ)
    → ArePositive env
    → parse_elf s spare ≡ ok obj
    → load_sched_ext env (some (s, spare)) fd k ≡ (k', ok link)
    → (ctrl_map : ℕ) × ((rest : List ℕ) × (Holds k k' (link ∷ ctrl_map ∷ rest)
          × (suc (length rest) ≡ struct_ops_count obj.insns_by_section)))
unfolding load_sched_ext
load_sched_ext-LeavesOpen env s spare obj fd k k' link p e h =
    let same : load_with env fd k (ok obj) ≡ (k', ok link) = rw e at h in
    subst (LeavesOpen k (struct_ops_count obj.insns_by_section)) same
      (load_with-LeavesOpen env obj fd k p)
