-- ===== src/Motor/SchedExt.antt =====
-- internal/motor/survival.go: `loadSchedExt`, which loads the programs of the scheduler and links
-- them. The sections are visited in an order that Go leaves open: it is that of the table.
pub mod Episode
pub mod Leaks
pub mod Programs
use hosa.Prelude.{
  ℕ, zero, suc, Bool, true, false, Option, none, some, List, [], ◌∷◌, ◌++◌, Bytes, codes, leb,
  if◌then◌else◌,
}
use hosa.Prelude.Int.{ℤ, pos, negsuc, leb_ℤ}
use hosa.Outcome.{GoError, Outcome, ok, err, panic, no_struct_ops}
use hosa.Strings.{has_prefix}
use hosa.Sysbpf.Relocate.{relocate_insns}
use hosa.Sysbpf.Elf.Object.{Buffer, BpfObject}
use hosa.Sysbpf.Elf.Parse.{relocate_object}
use hosa.Sysbpf.Kernel.{
  Environment, Bpf, Called, close, create_map, load_prog, open_vmlinux_btf,
  find_sched_ext_ops_type_id, create_struct_ops_map, link_struct_ops,
}
use hosa.Sensor.Collector.{load_object}

abbrev pub bpf_map_type_array : ℕ
bpf_map_type_array = 2

abbrev pub bpf_prog_type_struct_ops : ℕ
bpf_prog_type_struct_ops = 27

abbrev pub ctrl_map_name : Bytes
ctrl_map_name = codes "hosa_sched_ctrl"

-- The variables of the loop over the sections: `last` is `lastProgFD`, `none` for -1.
pub record Progs : Type 0 where
  pub kernel : Bpf
  pub last : Option ℕ
  pub count : ℕ
  pub result : Outcome (Unit {0})

abbrev pub progs_of : Bpf → Option ℕ → ℕ → Outcome (Unit {0}) → Progs
progs_of k last count r = record { kernel = k; last = last; count = count; result = r }

-- `LoadStructOpsProg`.
abbrev pub load_struct_ops_prog : Environment → Bytes → Bytes → Bpf → Called ℕ
load_struct_ops_prog env license insns k = load_prog env bpf_prog_type_struct_ops insns license k

abbrev pub step_progs : (Option ℕ → ℕ → Bpf → Progs) → Option ℕ → ℕ → Called ℕ → Progs
step_progs rest last count (k, ok fd) = rest (some fd) (suc count) k
step_progs rest last count (k, err e) = progs_of k last count (err e)
step_progs rest last count (k, panic) = progs_of k last count panic

-- An error leaves the programs before it open.
unfoldable pub load_progs : Environment → Bytes → List (Bytes × Buffer) → Option ℕ → ℕ → Bpf → Progs
unfolding load_prog has_prefix
load_progs env license [] last count k = progs_of k last count (ok tt)
load_progs env license ((section, b) ∷ m) last count k =
    let skip = load_progs env license m last count k in
    let load =
      step_progs (load_progs env license m) last count
        (load_struct_ops_prog env license b.bytes k) in
    if has_prefix section (codes "struct_ops/") then load else skip

-- if lastProgFD >= 0 { Close(lastProgFD) }
abbrev pub close_last : Option ℕ → Bpf → Bpf
close_last none k = k
close_last (some fd) k = close fd k

-- The map of the operations and the last program are closed, whether the link was made or not.
abbrev pub close_linked : Option ℕ → ℕ → Called ℕ → Called ℕ
close_linked last ops_map (k, r) = (close_last last (close ops_map k), r)

abbrev pub link_map : Environment → Option ℕ → Called ℕ → Called ℕ
link_map env last (k, ok ops_map) = close_linked last ops_map (link_struct_ops env ops_map k)
link_map env last (k, err e) = (close_last last k, err e)
link_map env last (k, panic) = (k, panic)

abbrev pub with_type_id : Environment → Option ℕ → ℕ → Bpf → Outcome ℕ → Called ℕ
with_type_id env last btf_fd k (ok id) = link_map env last (create_struct_ops_map env btf_fd id k)
with_type_id env last btf_fd k (err e) = (k, err e)
with_type_id env last btf_fd k panic = (k, panic)

-- The deferred close of the BTF descriptor.
abbrev pub close_btf : ℕ → Called ℕ → Called ℕ
close_btf btf_fd (k, r) = (close btf_fd k, r)

abbrev pub with_btf : Environment → Option ℕ → Called ℕ → Called ℕ
with_btf env last (k, ok btf_fd) =
    close_btf btf_fd (with_type_id env last btf_fd k (find_sched_ext_ops_type_id env))
with_btf env last (k, err e) = (k, err e)
with_btf env last (k, panic) = (k, panic)

abbrev pub check_count : Environment → Option ℕ → ℕ → Bpf → Called ℕ
check_count env last zero k = (k, err no_struct_ops)
check_count env last (suc n) k = with_btf env last (open_vmlinux_btf env k)

abbrev pub with_progs : Environment → Outcome (Unit {0}) → Progs → Called ℕ
with_progs env (ok _) s = check_count env s.last s.count s.kernel
with_progs env (err e) s = (s.kernel, err e)
with_progs env panic s = (s.kernel, panic)

abbrev pub with_relocated : Environment → Bpf → BpfObject × Outcome (Unit {0}) → Called ℕ
with_relocated env k (obj, ok _) =
    let s = load_progs env obj.license obj.insns_by_section none 0 k in with_progs env s.result s
with_relocated env k (obj, err e) = (k, err e)
with_relocated env k (obj, panic) = (k, panic)

-- The deferred close of the control map: only while no link is recorded.
abbrev pub close_ctrl : ℤ → ℕ → Called ℕ → Called ℕ
close_ctrl fd ctrl_map (k, ok link) = (k, ok link)
close_ctrl (pos n) ctrl_map (k, err e) = (k, err e)
close_ctrl (negsuc n) ctrl_map (k, err e) = (close ctrl_map k, err e)
close_ctrl fd ctrl_map (k, panic) = (k, panic)

abbrev pub with_ctrl : Environment → ℤ → BpfObject → Called ℕ → Called ℕ
with_ctrl env fd obj (k, ok ctrl_map) =
    close_ctrl fd ctrl_map
      (with_relocated env k (relocate_object ((ctrl_map_name, pos ctrl_map) ∷ []) obj))
with_ctrl env fd obj (k, err e) = (k, err e)
with_ctrl env fd obj (k, panic) = (k, panic)

abbrev pub load_with : Environment → ℤ → Bpf → Outcome BpfObject → Called ℕ
load_with env fd k (ok obj) = with_ctrl env fd obj (create_map env bpf_map_type_array 4 8 8 k)
load_with env fd k (err e) = (k, err e)
load_with env fd k panic = (k, panic)

-- The file of the object, and the motor's descriptor before the call. The result is the descriptor
-- of the link, which becomes the motor's.
unfoldable pub load_sched_ext : Environment → Option (Bytes × ℕ) → ℤ → Bpf → Called ℕ
unfolding create_map relocate_object load_progs open_vmlinux_btf find_sched_ext_ops_type_id
    create_struct_ops_map link_struct_ops close
load_sched_ext env file fd k = load_with env fd k (load_object file)
