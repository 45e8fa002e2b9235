-- ===== src/Tests/KernelTests.antt =====
-- The collector and the survival motor on a concrete machine.
use hosa.Prelude.{
  ◌+◌, ◌*◌, ◌≡◌, refl, ap, true, Option, none, some, [], ◌∷◌, codes, length, arith, Bytes, bytes_eq,
  if◌then◌else◌,
}
use hosa.Prelude.Int.{pos, negsuc}
use hosa.Float.Fixed.{Fixed, fixed_float}
use hosa.Outcome.{ok, err, file_unreadable}
use hosa.Strings.{parse_uint, trim_space, has_prefix}
use hosa.Sysbpf.Words.{to_little}
use hosa.Sysbpf.Dict.{find, insert, insert_ref}
use hosa.Sysbpf.Elf.{
  read_headers, read_header, raw_section, symbol_name, text_at, is_prog_section, parse_map_defs,
}
use hosa.Sysbpf.Elf.Object.{scan_sections, note_section, add_program}
use hosa.Sysbpf.Elf.Parse.{
  parse_elf, parse_sections, second_pass, resolve, resolve_with, resolve_sections, resolve_section,
  resolve_rels, add_ref,
}
use hosa.Sysbpf.Btf.{find_btf_type_by_name}
use hosa.Sysbpf.Kernel.{Environment, Bpf, map_lookup, vmlinux_btf_path}
use hosa.Sysbpf.Kernel.Accounts.{ArePositive, Holds}
use hosa.Sensor.Collector.{
  new_collector, start, load_probes, load_probe, close_all, read_metrics, num_vars,
}
use hosa.Sensor.Collector.Held.{held}
use hosa.Sensor.Collector.Ownership.{start-close_all, start_err}
use hosa.Sensor.Collector.Metrics.{expected, read_metrics_lem}
use hosa.Motor.SchedExt.{load_sched_ext, load_progs}
use hosa.Tests.ElfFiles.{sensors_file, scheduler_file, btf_file}
use hosa.Tests.SysbpfTests.{scheduler, scheduler_parses}
use hosa.Tests.Data.{kernel, survival_motor}
use hosa.Motor.Survival.{engage}
use hosa.Motor.SchedExt.Episode.{
  World, Episode, ended, episodes, release_closing, Leaked, episodes-Leaked,
}

abbrev files_of : Bytes → Option Bytes
files_of path =
    if bytes_eq path vmlinux_btf_path
    then some btf_file
    else if bytes_eq path (codes "/sys/kernel/tracing/events/sched/sched_wakeup/id")
    then some (codes "42")
    else none

-- Every call succeeds, with the descriptors 3, 4, 5 and so on.
abbrev machine : Environment
machine = record {
  descriptors = λ n. some (n + 3);
  accepts = λ _. true;
  elements = λ n fd key. some (100 * fd + 10 * key + n);
  files = files_of;
}

abbrev bare_machine : Environment
bare_machine = record machine { files = λ _. none }

abbrev boot : Bpf
boot = record { calls = 0; issued = []; opened = []; closed = [] }

machine-ArePositive : ArePositive machine
machine-ArePositive n fd e = ground (arith, e)

bare_machine-ArePositive : ArePositive bare_machine
bare_machine-ArePositive n fd e = ground (arith, e)

start-close_all_example :
    let s = start machine (some (sensors_file, 0)) new_collector boot in
    Holds boot s.kernel (held s.collector) × Holds boot (close_all s.collector s.kernel).1 []
start-close_all_example = start-close_all machine (some (sensors_file, 0)) boot machine-ArePositive

starts : (start machine (some (sensors_file, 0)) new_collector boot).result ≡ ok tt
unfolding start load_probes load_probe parse_elf parse_sections read_headers read_header
    scan_sections note_section add_program raw_section second_pass resolve resolve_with
    resolve_sections resolve_section resolve_rels add_ref symbol_name text_at is_prog_section insert
    insert_ref find parse_map_defs to_little bytes_eq parse_uint trim_space
starts = refl

start_fails :
    (start bare_machine (some (sensors_file, 0)) new_collector boot).result ≡ err file_unreadable
unfolding start load_probes load_probe parse_elf parse_sections read_headers read_header
    scan_sections note_section add_program raw_section second_pass resolve resolve_with
    resolve_sections resolve_section resolve_rels add_ref symbol_name text_at is_prog_section insert
    insert_ref find parse_map_defs to_little bytes_eq
start_fails = refl

start_err_example :
    Holds boot (start bare_machine (some (sensors_file, 0)) new_collector boot).kernel []
start_err_example =
    start_err bare_machine (some (sensors_file, 0)) boot file_unreadable bare_machine-ArePositive
      start_fails

read_metrics_lem_example :
    let c = record new_collector { map_fd = pos 3 } in
    let r = read_metrics {F = Fixed} machine c boot in
    (r.1 ≡ expected Fixed machine (pos 3) 0)
    × (length r.1 ≡ num_vars)
    × (r.0.issued ≡ map_lookup 3 3 ∷ map_lookup 3 2 ∷ map_lookup 3 1 ∷ map_lookup 3 0 ∷ [])
    × (r.0.opened ≡ [])
    × (r.0.closed ≡ [])
read_metrics_lem_example =
    read_metrics_lem Fixed machine (record new_collector { map_fd = pos 3 }) boot

load_works : (load_sched_ext machine (some (scheduler_file, 0)) (negsuc 0) boot).1 ≡ ok 8
unfolding load_sched_ext load_progs parse_elf parse_sections read_headers read_header scan_sections
    note_section add_program raw_section second_pass resolve resolve_with resolve_sections
    resolve_section resolve_rels add_ref symbol_name text_at is_prog_section insert insert_ref find
    parse_map_defs to_little bytes_eq find_btf_type_by_name
load_works = refl

-- Two episodes of a motor that loads the scheduler.
abbrev loading : World
loading = record {
  motor = record survival_motor { sched_ext_avail = true };
  control = kernel;
  bpf = boot;
}

abbrev quiet : Episode
quiet = record { present = none; closes = true }

abbrev loaded_once : Bpf
loaded_once = (load_sched_ext machine (some (scheduler_file, 0)) (negsuc 0) boot).0

abbrev second : World
second = ended machine scheduler_file 0 quiet loading loaded_once 8

abbrev loaded_twice : Bpf
loaded_twice = (load_sched_ext machine (some (scheduler_file, 0)) (negsuc 0) second.bpf).0

works_again : (load_sched_ext machine (some (scheduler_file, 0)) (negsuc 0) second.bpf).1 ≡ ok 14
unfolding load_sched_ext load_progs parse_elf parse_sections read_headers read_header scan_sections
    note_section add_program raw_section second_pass resolve resolve_with resolve_sections
    resolve_section resolve_rels add_ref symbol_name text_at is_prog_section insert insert_ref find
    parse_map_defs to_little bytes_eq find_btf_type_by_name release_closing engage
works_again = refl

episodes-Leaked_example :
    Leaked machine scheduler_file 0 boot 4
      (episodes machine (some (scheduler_file, 0)) (quiet ∷ quiet ∷ []) loading)
unfolding has_prefix
episodes-Leaked_example =
    episodes-Leaked machine scheduler_file 0 scheduler (quiet ∷ quiet ∷ []) loading
      machine-ArePositive scheduler_parses record { inactive = refl; unlinked = refl; wants = refl }
      (
        loaded_once,
        (
          8,
          (
            ap (λ x. (loaded_once, x)) load_works,
            (loaded_twice, (14, (ap (λ x. (loaded_twice, x)) works_again, tt))),
          ),
        ),
      )
