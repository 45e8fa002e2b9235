-- ===== src/Sysbpf/Kernel/Accounts.antt =====
-- The descriptors that were opened and not closed: what each call of internal/sysbpf adds to them.
use hosa.Prelude.{
  ℕ, suc, ◌+◌, ◌<◌, ◌≡◌, refl, arith, Bool, true, false, Option, none, some, List, [], ◌∷◌, ◌++◌,
  Bytes, is_empty, length, not, ◌%◌, ◌^◌, ◌==◌, if◌then◌else◌,
}
use hosa.Outcome.{
  GoError, Outcome, ok, err, panic, bytecode_empty, bytecode_size, type_id_zero, file_unreadable,
}
use hosa.Sysbpf.Kernel.{
  Environment, Bpf, Called, Command, load_btf, btf_load, vmlinux_btf_path, map_create,
  perf_event_open, struct_ops_map_create, link_create, answer, note, open_call, close, create_map,
  load_prog, arm_event, attach_tracepoint, open_vmlinux_btf, create_struct_ops_map, link_struct_ops,
  open_event, with_event,
}

abbrev pub count : ℕ → List ℕ → ℕ
count fd [] = 0
count fd (x ∷ xs) = (if x == fd then 1 else 0) + count fd xs

pub count-append : (fd : ℕ) (xs ys : List ℕ) → count fd (xs ++ ys) ≡ count fd xs + count fd ys
count-append fd [] ys = omega arith
count-append fd (x ∷ xs) ys = omega (arith, count-append fd xs ys)

-- Between two states, the descriptors of the list were opened and are still open, each as often as
-- it occurs; every other one was closed as often as it was opened.
abbrev pub Holds : Bpf → Bpf → List ℕ → Type 0
Holds k k' held =
    (fd : ℕ)
    → count fd k'.opened + count fd k.closed
      ≡ count fd k.opened + count fd k'.closed + count fd held

-- The descriptor that a call returned, if it did.
abbrev pub result_fds : Outcome ℕ → List ℕ
result_fds (ok fd) = fd ∷ []
result_fds (err e) = []
result_fds panic = []

-- A descriptor is positive: 0 is the standard input.
abbrev pub ArePositive : Environment → Type 0
ArePositive env = (n fd : ℕ) → env.descriptors n ≡ some fd → 0 < fd

-- The call adds its descriptor, and no more, to what is held.
pub record Adds (k : Bpf) (c : Called ℕ) : Type 0 where
  pub holds : Holds k (c.0) (result_fds (c.1))
  pub positive : (fd : ℕ) → c.1 ≡ ok fd → 0 < fd

pub Holds-refl : (k : Bpf) → Holds k k []
Holds-refl k fd = omega arith

pub Holds-trans :
    (a b c : Bpf) (xs ys : List ℕ) → Holds a b xs → Holds b c ys → Holds a c (xs ++ ys)
Holds-trans a b c xs ys h g fd = omega (arith, h fd, g fd, count-append fd xs ys)

pub Holds-close : (a b : Bpf) (fd : ℕ) (xs : List ℕ) → Holds a b (fd ∷ xs) → Holds a (close fd b) xs
unfolding close
Holds-close a b fd xs h x = omega (arith, h x)

-- A call that fails without opening anything.
err-Adds : (k : Bpf) (e : GoError) → Adds k (k, err e)
err-Adds k e = record { holds = Holds-refl k; positive = λ fd h. cc }

panic-Adds : (k : Bpf) → Adds k (k, panic)
panic-Adds k = record { holds = Holds-refl k; positive = λ fd h. cc }

answer-Adds :
    (o : Option ℕ) (c : Command) (k : Bpf)
    → ((fd : ℕ) → o ≡ some fd → 0 < fd)
    → Adds k (answer o (note c k))
answer-Adds none c k p = record { holds = λ fd. omega arith; positive = λ fd h. cc }
answer-Adds (some fd) c k p = record { holds = λ x. ground arith; positive = λ x h. p x (cc) }

if-Adds : (b : Bool) (k : Bpf) (c d : Called ℕ) → Adds k c → Adds k d → Adds k (if b then c else d)
if-Adds true k c d h g = h
if-Adds false k c d h g = g

module _ (env : Environment) (p : ArePositive env) where
  pub open_call-Adds : (c : Command) (k : Bpf) → Adds k (open_call env c k)
  unfolding open_call
  open_call-Adds c k = answer-Adds (env.descriptors k.calls) c k (λ fd e. p k.calls fd e)

  pub create_map-Adds : (t ks vs n : ℕ) (k : Bpf) → Adds k (create_map env t ks vs n k)
  unfolding create_map
  create_map-Adds t ks vs n k = open_call-Adds (map_create t ks vs n) k

  pub load_prog-Adds :
      (t : ℕ) (insns license : Bytes) (k : Bpf) → Adds k (load_prog env t insns license k)
  unfolding load_prog
  load_prog-Adds t insns license k =
      if-Adds (is_empty insns) k _ _ (err-Adds k bytecode_empty) (
        if-Adds (not (length insns % 8 == 0)) k _ _ (err-Adds k bytecode_size) (open_call-Adds _ k))

  -- The event is closed again where an ioctl fails.
  arm_event-Adds :
      (prog_fd efd : ℕ) (k0 k : Bpf)
      → 0 < efd
      → Holds k0 k (efd ∷ [])
      → Adds k0 (arm_event env prog_fd efd k)
  unfolding arm_event
  arm_event-Adds prog_fd efd k0 k h g =
      if-Adds (not (env.accepts k.calls)) k0 _ _
        record { holds = λ x. omega (arith, g x); positive = λ fd e. cc }
        (if-Adds (not (env.accepts (suc k.calls))) k0 _ _
          record { holds = λ x. omega (arith, g x); positive = λ fd e. cc }
          record { holds = λ x. omega (arith, g x); positive = λ fd e. ground (arith, e) })

  with_event-Adds :
      (prog_fd : ℕ) (k : Bpf) (c : Called ℕ) → Adds k c → Adds k (with_event env prog_fd c)
  with_event-Adds prog_fd k (k', ok efd) a =
      arm_event-Adds prog_fd efd k k' (a.positive efd refl) a.holds
  with_event-Adds prog_fd k (k', err e) a = a
  with_event-Adds prog_fd k (k', panic) a = a

  open_event-Adds : (prog_fd : ℕ) (k : Bpf) (r : Outcome ℕ) → Adds k (open_event env prog_fd k r)
  open_event-Adds prog_fd k (ok id) =
      with_event-Adds prog_fd k _ (open_call-Adds (perf_event_open id) k)
  open_event-Adds prog_fd k (err e) = err-Adds k e
  open_event-Adds prog_fd k panic = panic-Adds k

  pub attach_tracepoint-Adds :
      (subsystem event : Bytes) (prog_fd : ℕ) (k : Bpf)
      → Adds k (attach_tracepoint env subsystem event prog_fd k)
  unfolding attach_tracepoint
  attach_tracepoint-Adds subsystem event prog_fd k = open_event-Adds prog_fd k _

  load_btf-Adds : (file : Option Bytes) (k : Bpf) → Adds k (load_btf env file k)
  load_btf-Adds none k = err-Adds k file_unreadable
  load_btf-Adds (some text) k =
      if-Adds (is_empty text) k _ _ (panic-Adds k)
        (open_call-Adds (btf_load text (length text % 2 ^ 32)) k)

  pub open_vmlinux_btf-Adds : (k : Bpf) → Adds k (open_vmlinux_btf env k)
  unfolding open_vmlinux_btf
  open_vmlinux_btf-Adds k = load_btf-Adds (env.files vmlinux_btf_path) k

  pub create_struct_ops_map-Adds :
      (btf_fd type_id : ℕ) (k : Bpf) → Adds k (create_struct_ops_map env btf_fd type_id k)
  unfolding create_struct_ops_map
  create_struct_ops_map-Adds btf_fd type_id k =
      if-Adds (type_id == 0) k _ _ (err-Adds k type_id_zero)
        (open_call-Adds (struct_ops_map_create btf_fd type_id) k)

  pub link_struct_ops-Adds : (map_fd : ℕ) (k : Bpf) → Adds k (link_struct_ops env map_fd k)
  unfolding link_struct_ops
  link_struct_ops-Adds map_fd k = open_call-Adds (link_create map_fd) k
