-- ===== src/Sensor/Collector.antt =====
-- internal/sensor/collector.go: the eBPF sensor. The file of the object is an argument, with the
-- capacity that its slice has past the end; it is `none` where it is not found or cannot be read.
pub mod Ownership
pub mod Held
pub mod Metrics
use hosa.Prelude.{
  ℕ, zero, suc, ◌+◌, Bool, true, false, Option, none, some, List, [], ◌∷◌, ◌++◌, Bytes, codes,
  is_empty, ltb, ◌==◌, if◌then◌else◌,
}
use hosa.Prelude.Int.{ℤ, pos, negsuc}
use hosa.Float.{Float, nought}
use hosa.Outcome.{GoError, Outcome, ok, err, panic, file_unreadable, no_map, no_probe}
use hosa.Sysbpf.Dict.{find}
use hosa.Sysbpf.Relocate.{relocate_insns, to_u32}
use hosa.Sysbpf.Elf.{MapDef}
use hosa.Sysbpf.Elf.Object.{Buffer, Refs, BpfObject}
use hosa.Sysbpf.Elf.Parse.{parse_elf}
use hosa.Sysbpf.Kernel.{
  Environment, Bpf, Called, close, create_map, load_prog, attach_tracepoint, lookup_elem,
}

abbrev pub map_name : Bytes
map_name = codes "hosa_metrics"

abbrev pub num_vars : ℕ
num_vars = 4

pub record Probe : Type 0 where
  pub subsystem : Bytes
  pub event : Bytes

abbrev pub probes : List Probe
probes =
    record { subsystem = codes "sched"; event = codes "sched_wakeup" }
    ∷ record { subsystem = codes "syscalls"; event = codes "sys_enter_brk" }
    ∷ record { subsystem = codes "exceptions"; event = codes "page_fault_kernel" }
    ∷ record { subsystem = codes "block"; event = codes "block_rq_issue" }
    ∷ []

pub record Collector : Type 0 where
  -- 0 while the collector is not started.
  pub map_fd : ℤ
  pub prog_fds : List ℕ
  pub event_fds : List ℕ

abbrev pub new_collector : Collector
new_collector = record { map_fd = pos 0; prog_fds = []; event_fds = [] }

-- Only a positive descriptor is closed.
unfoldable pub close_list : List ℕ → Bpf → Bpf
unfolding close
close_list [] k = k
close_list (fd ∷ fds) k = close_list fds (if ltb 0 fd then close fd k else k)

-- The map's descriptor, if it is one.
abbrev pub positive_fd : ℤ → List ℕ
positive_fd (pos zero) = []
positive_fd (pos (suc n)) = suc n ∷ []
positive_fd (negsuc n) = []

unfoldable pub close_all : Collector → Bpf → Collector × Bpf
unfolding close_list
close_all c k = (
  new_collector,
  close_list (positive_fd c.map_fd) (close_list c.prog_fds (close_list c.event_fds k)),
)

-- The state after `Start`, or after a part of it.
pub record Started : Type 0 where
  pub collector : Collector
  pub kernel : Bpf
  pub result : Outcome (Unit {0})

abbrev pub started : Collector → Bpf → Outcome (Unit {0}) → Started
started c k r = record { collector = c; kernel = k; result = r }

-- An error behind the creation of the map closes all that is open.
abbrev pub give_up : GoError → Collector → Bpf → Started
give_up e c k = let (c', k') = close_all c k in started c' k' (err e)

abbrev pub section_name : Probe → Bytes
section_name p = codes "tracepoint/" ++ (p.subsystem ++ b'/' ∷ p.event)

-- Step 3c: the event is kept.
abbrev pub keep_event : Collector → Called ℕ → Started
keep_event c (k, ok fd) = started (record c { event_fds = c.event_fds ++ fd ∷ [] }) k (ok tt)
keep_event c (k, err e) = give_up e c k
keep_event c (k, panic) = started c k panic

abbrev pub attach : Environment → Probe → Collector → Bpf → ℕ → Started
attach env p c k fd = keep_event c (attach_tracepoint env p.subsystem p.event fd k)

-- Step 3b: the program is kept.
abbrev pub keep_prog : Environment → Probe → Collector → Called ℕ → Started
keep_prog env p c (k, ok fd) = attach env p (record c { prog_fds = c.prog_fds ++ fd ∷ [] }) k fd
keep_prog env p c (k, err e) = give_up e c k
keep_prog env p c (k, panic) = started c k panic

abbrev pub bpf_prog_type_tracepoint : ℕ
bpf_prog_type_tracepoint = 5

-- Step 3a, on a copy of the bytecode.
abbrev pub load_relocated :
    Environment → Bytes → Probe → Collector → Bpf → Bytes × Outcome (Unit {0}) → Started
load_relocated env license p c k (insns, ok _) =
    keep_prog env p c (load_prog env bpf_prog_type_tracepoint insns license k)
load_relocated env license p c k (insns, err e) = give_up e c k
load_relocated env license p c k (insns, panic) = started c k panic

abbrev pub refs_of : Option Refs → Refs
refs_of none = []
refs_of (some refs) = refs

-- The loop's body. A probe that the object does not have is skipped.
abbrev pub load_section :
    Environment → BpfObject → Probe → Collector → Bpf → Option Buffer → Started
load_section env obj p c k none = started c k (ok tt)
load_section env obj p c k (some b) = load_relocated env obj.license p c k (
    relocate_insns (refs_of (find (section_name p) obj.insn_map_refs_by_section))
      ((map_name, c.map_fd) ∷ []) b.bytes)

unfoldable pub load_probe : Environment → BpfObject → Probe → Collector → Bpf → Started
unfolding find load_prog attach_tracepoint relocate_insns close_all
load_probe env obj p c k = load_section env obj p c k (find (section_name p) obj.insns_by_section)

abbrev pub continue : Outcome (Unit {0}) → Started → (Collector → Bpf → Started) → Started
continue (ok _) s f = f s.collector s.kernel
continue (err e) s f = s
continue panic s f = s

-- A part that succeeded is followed by the next one.
abbrev pub and_then : Started → (Collector → Bpf → Started) → Started
and_then s f = continue s.result s f

unfoldable pub load_probes : Environment → BpfObject → List Probe → Collector → Bpf → Started
unfolding load_probe
load_probes env obj [] c k = started c k (ok tt)
load_probes env obj (p ∷ ps) c k = and_then (load_probe env obj p c k) (load_probes env obj ps)

-- No event at all is an error.
abbrev pub check_list : List ℕ → Collector → Bpf → Started
check_list [] c k = give_up no_probe c k
check_list (fd ∷ fds) c k = started c k (ok tt)

abbrev pub check_events : Collector → Bpf → Started
check_events c k = check_list c.event_fds c k

-- With the map's descriptor, -1 where its creation failed.
abbrev pub with_map : Environment → BpfObject → Collector → Called ℕ → Started
with_map env obj c (k, ok fd) =
    and_then (load_probes env obj probes (record c { map_fd = pos fd }) k) check_events
with_map env obj c (k, err e) = started (record c { map_fd = negsuc 0 }) k (err e)
with_map env obj c (k, panic) = started c k panic

abbrev pub start_map : Environment → BpfObject → Collector → Bpf → Option MapDef → Started
start_map env obj c k none = started c k (err no_map)
start_map env obj c k (some d) =
    with_map env obj c (create_map env d.map_type d.key_size d.value_size d.max_entries k)

abbrev pub start_object : Environment → Collector → Bpf → Outcome BpfObject → Started
start_object env c k (ok obj) = start_map env obj c k (find map_name obj.map_defs)
start_object env c k (err e) = started c k (err e)
start_object env c k panic = started c k panic

-- `LoadObject`.
abbrev pub load_object : Option (Bytes × ℕ) → Outcome BpfObject
load_object none = err file_unreadable
load_object (some (s, spare)) = parse_elf s spare

unfoldable pub start : Environment → Option (Bytes × ℕ) → Collector → Bpf → Started
unfolding create_map load_probes find close_all
start env file c k = start_object env c k (load_object file)

-- The counters from the index `i` on; one whose lookup fails is 0.
module _ {F : Type 0} ⦃fl : Float F⦄ where
  abbrev pub element : Option ℕ → F
  element none = nought
  element (some v) = fl.of_ℕ v

  unfoldable pub read_from : Environment → ℕ → ℕ → ℕ → Bpf → Bpf × List F
  unfolding lookup_elem
  read_from env fd zero i k = (k, [])
  read_from env fd (suc n) i k =
      let (k', v) = lookup_elem env fd i k in
      let (k'', vs) = read_from env fd n (suc i) k' in (k'', element v ∷ vs)

  abbrev pub zeros : ℕ → List F
  zeros zero = []
  zeros (suc n) = nought ∷ zeros n

  -- Without a map no lookup is made.
  abbrev pub read_map : Environment → ℤ → Bpf → Bpf × List F
  read_map env (pos zero) k = (k, zeros num_vars)
  read_map env (pos (suc n)) k = read_from env (to_u32 (pos (suc n))) num_vars 0 k
  read_map env (negsuc n) k = read_from env (to_u32 (negsuc n)) num_vars 0 k

  unfoldable pub read_metrics : Environment → Collector → Bpf → Bpf × List F
  unfolding read_from
  read_metrics env c k = read_map env c.map_fd k
