-- ===== src/Sysbpf/Kernel.antt =====
-- internal/sysbpf/syscall.go, helpers.go and the calls of struct_ops.go, over a model of the kernel.
-- What the kernel answers to each call is an argument, a function of how many calls were made before,
-- and for a lookup of its map and its key; so are the files that the code reads. The pointers of an attribute stand for the bytes they point to.
pub mod Accounts
use hosa.Prelude.{
  ℕ, suc, ◌+◌, ◌/◌, ◌%◌, ◌^◌, Bool, true, false, ◌&&◌, Option, none, some, List, [], ◌∷◌, ◌++◌,
  Bytes, codes, length, is_empty, ltb, not, ◌==◌, if◌then◌else◌,
}
use hosa.Outcome.{
  Outcome, ok, err, panic, file_unreadable, id_invalid, bytecode_empty, bytecode_size, type_id_zero,
  call_failed,
}
use hosa.Strings.{parse_uint, trim_space}
use hosa.Sysbpf.Btf.{find_btf_type_by_name}

pub record Environment : Type 0 where
  -- The descriptor that a call returns, `none` for an error.
  pub descriptors : ℕ → Option ℕ
  -- Whether an ioctl succeeds.
  pub accepts : ℕ → Bool
  -- The value that a lookup stores, `none` for an error: by the calls before it, the descriptor of the
  -- map, and the key.
  pub elements : ℕ → ℕ → ℕ → Option ℕ
  -- What a file holds, `none` where there is none.
  pub files : Bytes → Option Bytes

-- The calls with their attributes.
pub data Command : Type 0 where
  map_create : ℕ → ℕ → ℕ → ℕ → Command
  map_lookup : ℕ → ℕ → Command
  prog_load : ℕ → ℕ → Bytes → Bytes → Command
  btf_load : Bytes → ℕ → Command
  struct_ops_map_create : ℕ → ℕ → Command
  link_create : ℕ → Command
  perf_event_open : ℕ → Command
  ioctl_set_bpf : ℕ → ℕ → Command
  ioctl_enable : ℕ → Command

-- What was done so far, the newest first.
pub record Bpf : Type 0 where
  pub calls : ℕ
  pub issued : List Command
  pub opened : List ℕ
  pub closed : List ℕ

-- The state after a call, and its result.
abbrev pub Called : Type 0 → Type 0
Called A = Bpf × Outcome A

abbrev pub note : Command → Bpf → Bpf
note c k = record k { calls = suc k.calls; issued = c ∷ k.issued }

abbrev pub answer : Option ℕ → Bpf → Called ℕ
answer none k = (k, err call_failed)
answer (some fd) k = (record k { opened = fd ∷ k.opened }, ok fd)

module _ (env : Environment) where
  -- A call that returns a descriptor.
  unfoldable pub open_call : Command → Bpf → Called ℕ
  open_call c k = answer (env.descriptors k.calls) (note c k)

  abbrev pub ioctl : Command → Bpf → Bpf × Bool
  ioctl c k = (note c k, env.accepts k.calls)

unfoldable pub close : ℕ → Bpf → Bpf
close fd k = record k { closed = fd ∷ k.closed }

unfoldable pub create_map : Environment → ℕ → ℕ → ℕ → ℕ → Bpf → Called ℕ
unfolding open_call
create_map env map_type key_size value_size max_entries k =
    open_call env (map_create map_type key_size value_size max_entries) k

-- The value, if the lookup succeeds.
unfoldable pub lookup_elem : Environment → ℕ → ℕ → Bpf → Bpf × Option ℕ
lookup_elem env fd key k = (note (map_lookup fd key) k, env.elements k.calls fd key)

-- The number of instructions is a 32-bit word, and the license ends in a byte 0.
unfoldable pub load_prog : Environment → ℕ → Bytes → Bytes → Bpf → Called ℕ
unfolding open_call
load_prog env prog_type insns license k =
    if is_empty insns
    then (k, err bytecode_empty)
    else if not (length insns % 8 == 0)
    then (k, err bytecode_size)
    else open_call env (prog_load prog_type (length insns / 8 % 2 ^ 32) insns (license ++ 0 ∷ [])) k

-- `readTracepointID`.
unfoldable pub read_tracepoint_id : Option Bytes → Outcome ℕ
read_tracepoint_id none = err file_unreadable
read_tracepoint_id (some text) = elim (parse_uint (trim_space text)) [
  | none ↦ err id_invalid
  | some id ↦ ok id
]

abbrev pub event_path : Bytes → Bytes → Bytes → Bytes
event_path root subsystem event =
    root ++ (codes "/tracing/events/" ++ (subsystem ++ b'/' ∷ (event ++ codes "/id")))

-- The file of debugfs, or else that of tracefs.
abbrev pub tracepoint_file : Environment → Bytes → Bytes → Option Bytes
tracepoint_file env subsystem event =
    elim (env.files (event_path (codes "/sys/kernel/debug") subsystem event)) [
      | none ↦ env.files (event_path (codes "/sys/kernel") subsystem event)
      | some text ↦ some text
    ]

-- The two ioctls on a perf event; where one fails, the event is closed.
unfoldable pub arm_event : Environment → ℕ → ℕ → Bpf → Called ℕ
unfolding close
arm_event env prog_fd efd k =
    let (k1, set) = ioctl env (ioctl_set_bpf efd prog_fd) k in
    let (k2, enabled) = ioctl env (ioctl_enable efd) k1 in
    if not set
    then (close efd k1, err call_failed)
    else if not enabled
    then (close efd k2, err call_failed)
    else (k2, ok efd)

abbrev pub with_event : Environment → ℕ → Called ℕ → Called ℕ
with_event env prog_fd (k, ok efd) = arm_event env prog_fd efd k
with_event env prog_fd (k, err e) = (k, err e)
with_event env prog_fd (k, panic) = (k, panic)

abbrev pub open_event : Environment → ℕ → Bpf → Outcome ℕ → Called ℕ
open_event env prog_fd k (ok id) = with_event env prog_fd (open_call env (perf_event_open id) k)
open_event env prog_fd k (err e) = (k, err e)
open_event env prog_fd k panic = (k, panic)

unfoldable pub attach_tracepoint : Environment → Bytes → Bytes → ℕ → Bpf → Called ℕ
unfolding open_call arm_event read_tracepoint_id
attach_tracepoint env subsystem event prog_fd k =
    open_event env prog_fd k (read_tracepoint_id (tracepoint_file env subsystem event))

abbrev pub vmlinux_btf_path : Bytes
vmlinux_btf_path = codes "/sys/kernel/btf/vmlinux"

-- `&data[0]` panics on an empty file.
abbrev pub load_btf : Environment → Option Bytes → Bpf → Called ℕ
load_btf env none k = (k, err file_unreadable)
load_btf env (some text) k =
    if is_empty text then (k, panic) else open_call env (btf_load text (length text % 2 ^ 32)) k

unfoldable pub open_vmlinux_btf : Environment → Bpf → Called ℕ
unfolding open_call
open_vmlinux_btf env k = load_btf env (env.files vmlinux_btf_path) k

abbrev pub sched_ext_ops_type_name : Bytes
sched_ext_ops_type_name = codes "sched_ext_ops"

unfoldable pub find_sched_ext_ops_type_id : Environment → Outcome ℕ
find_sched_ext_ops_type_id env = elim (env.files vmlinux_btf_path) [
  | none ↦ err file_unreadable
  | some text ↦ find_btf_type_by_name text sched_ext_ops_type_name
]

unfoldable pub create_struct_ops_map : Environment → ℕ → ℕ → Bpf → Called ℕ
unfolding open_call
create_struct_ops_map env btf_fd type_id k =
    if type_id == 0
    then (k, err type_id_zero)
    else open_call env (struct_ops_map_create btf_fd type_id) k

unfoldable pub link_struct_ops : Environment → ℕ → Bpf → Called ℕ
unfolding open_call
link_struct_ops env map_fd k = open_call env (link_create map_fd) k

abbrev pub is_found : Outcome ℕ → Outcome Bool
is_found (ok n) = ok (ltb 0 n)
is_found (err e) = ok false
is_found panic = panic

-- `SchedExtSupported`.
unfoldable pub sched_ext_supported : Environment → Outcome Bool
sched_ext_supported env = elim (env.files (codes "/sys/kernel/sched_ext")) [
  | none ↦ ok false
  | some _ ↦ elim (env.files vmlinux_btf_path) [
    | none ↦ ok false
    | some text ↦ is_found (find_btf_type_by_name text sched_ext_ops_type_name)
  ]
]

abbrev pub trimmed : Option Bytes → Bytes
trimmed none = []
trimmed (some text) = trim_space text

unfoldable pub sched_ext_state : Environment → Bytes
sched_ext_state env = trimmed (env.files (codes "/sys/kernel/sched_ext/root/ops"))
