-- ===== src/Tests/SysbpfTests.antt =====
-- internal/sysbpf on concrete files.
use hosa.Prelude.{
  ◌+◌, ◌≡◌, ◌≢◌, refl, some, [], ◌∷◌, codes, length, arith, bytes_eq, get_elem?, not, leb, take,
  drop, ◌-◌, ◌^◌, if◌then◌else◌,
}
use hosa.Prelude.Int.{pos}
use hosa.Float.Fixed.{fixed_float}
use hosa.Outcome.{ok, panic}
use hosa.Sysbpf.Words.{to_little}
use hosa.Sysbpf.Dict.{find, insert, insert_ref}
use hosa.Sysbpf.Relocate.{MapFds, relocate_insns, fd_of}
use hosa.Sysbpf.Relocate.Imm.{relocate_insns_lem, Resolved, relocated_byte, target}
use hosa.Sysbpf.Elf.{
  SectionHeader, nil_slice, read_headers, read_header, raw_section, symbol_name, text_at,
  is_prog_section, parse_map_defs,
}
use hosa.Sysbpf.Elf.Sections.{is_cut, raw_section_lem}
use hosa.Sysbpf.Elf.Object.{BpfObject, Buffer, Refs, scan_sections, note_section, add_program}
use hosa.Sysbpf.Elf.Parse.{
  parse_elf, parse_sections, second_pass, resolve, resolve_with, resolve_sections, resolve_section,
  resolve_rels, add_ref,
}
use hosa.Sysbpf.Elf.Parse.Loadable.{IsLoadable, parse_elf-IsLoadable}
use hosa.Sysbpf.Btf.{find_btf_type_by_name, find_in, stuck}
use hosa.Sysbpf.Btf.Fuel.{find_in-ne-stuck}
use hosa.Sysbpf.Btf.Search.{encode_all, AreBtfTypes, first_named, find_in-encode_all}
use hosa.Tests.ElfFiles.{scheduler_file, btf_file, btf_types, btf_strings, exit_insns, map_insns}

found : find_btf_type_by_name btf_file (codes "sched_ext_ops") ≡ ok 2
unfolding find_btf_type_by_name to_little bytes_eq
found = refl

find_in-ne-stuck_example : find_in (encode_all btf_types) btf_strings (codes "none") ≢ stuck
find_in-ne-stuck_example = find_in-ne-stuck (encode_all btf_types) btf_strings (codes "none")

btf_types-AreBtfTypes : AreBtfTypes btf_types
btf_types-AreBtfTypes = (
  record { name_off_lt = omega arith; vlen_lt = omega arith; extra_length = refl },
  (record { name_off_lt = omega arith; vlen_lt = omega arith; extra_length = refl }, tt),
)

find_in-encode_all_example :
    find_in (encode_all btf_types) btf_strings (codes "sched_ext_ops")
    ≡ first_named btf_strings (codes "sched_ext_ops") btf_types 1
find_in-encode_all_example =
    find_in-encode_all btf_types btf_strings (codes "sched_ext_ops") btf_types-AreBtfTypes
      (omega arith)

-- A section whose end passes 2^64.
abbrev wrapping_header : SectionHeader
wrapping_header = record {
  name_off = 0;
  sh_type = 1;
  flags = 0;
  addr = 0;
  offset = 2 ^ 64 - 8;
  size = 16;
  link = 0;
  info = 0;
  align = 0;
  entsize = 0;
}

raw_section_lem_example : raw_section exit_insns 0 wrapping_header ≡ (
    if not (is_cut exit_insns wrapping_header)
    then ok nil_slice
    else if leb (2 ^ 64) (2 ^ 64 - 8 + 16)
    then panic
    else ok record {
      bytes = take 16 (drop (2 ^ 64 - 8) exit_insns);
      cap = length exit_insns + 0 - (2 ^ 64 - 8);
    })
raw_section_lem_example =
    raw_section_lem exit_insns 0 wrapping_header
      record { offset_lt = omega arith; size_lt = omega arith } (omega arith)

abbrev map_refs : Refs
map_refs = (pos 0, codes "hosa_metrics") ∷ []

abbrev map_fds : MapFds
map_fds = (codes "hosa_metrics", pos 7) ∷ []

map_refs-Resolved : Resolved (length map_insns) map_fds map_refs
unfolding fd_of bytes_eq
map_refs-Resolved = (omega arith, ((pos 7, refl), tt))

relocate_insns_lem_example :
    ((relocate_insns map_refs map_fds map_insns).1 ≡ ok tt)
    × (length (relocate_insns map_refs map_fds map_insns).0 ≡ length map_insns)
    × (get_elem? (relocate_insns map_refs map_fds map_insns).0 4
        ≡ some (relocated_byte (target 0 map_fds map_refs) 4 0))
relocate_insns_lem_example =
    relocate_insns_lem map_refs map_fds map_insns 4 0 map_refs-Resolved (tt, tt) refl

abbrev pub scheduler : BpfObject
scheduler =
    let init : Buffer = record { id = 2; bytes = exit_insns } in
    record {
      license = codes "GPL";
      map_defs = [];
      insns_by_section =
          (codes "struct_ops/init", init)
          ∷ (codes "struct_ops/exit", record { id = 3; bytes = exit_insns })
          ∷ [];
      insn_map_refs_by_section = (codes "struct_ops/init", []) ∷ (codes "struct_ops/exit", []) ∷ [];
      insns = some init;
      insn_map_refs = [];
    }

pub scheduler_parses : parse_elf scheduler_file 0 ≡ ok scheduler
unfolding parse_elf parse_sections read_headers read_header scan_sections note_section add_program
    raw_section second_pass resolve resolve_with resolve_sections resolve_section resolve_rels
    add_ref symbol_name text_at is_prog_section insert insert_ref find parse_map_defs to_little
    bytes_eq
scheduler_parses = refl

parse_elf-IsLoadable_example : IsLoadable scheduler
parse_elf-IsLoadable_example = parse_elf-IsLoadable scheduler_file 0 scheduler scheduler_parses
