-- ===== src/Sysbpf/Elf/Object.antt =====
-- internal/sysbpf/loader.go: the object that `parseELF` builds, and its first pass over the
-- sections. A byte slice that `make` returns is a buffer with the
-- number of the section that it copies, by which slices that share an array are told apart.
pub mod Linked
pub mod Tables
use hosa.Prelude.{
  ℕ, zero, suc, ◌+◌, ◌/◌, ◌%◌, ◌-◌, ◌^◌, Bool, true, false, ◌&&◌, ◌||◌, not, Option, none, some,
  List, [], ◌∷◌, ◌++◌, take, Bytes, codes, bytes_eq, is_empty, length, get_elem?, get_or, leb, ltb,
  ◌==◌, if◌then◌else◌,
}
use hosa.Prelude.Int.{ℤ, pos, negsuc}
use hosa.Outcome.{
  Outcome, ok, err, panic, ◌>>=◌, elf_size, elf_magic, elf_class, elf_order, elf_no_programs,
}
use hosa.Sysbpf.Dict.{find, insert, insert_ref}
use hosa.Sysbpf.Words.{read_word, read_u16, read_u64}
use hosa.Sysbpf.Relocate.{MapFds, relocate_insns}
use hosa.Sysbpf.Elf.{
  SectionHeader, Relocation, MapDef, Slice, read_headers, raw_section, until_nul, text_at,
  is_prog_section, parse_map_section_legacy, parse_map_defs, parse_rels, rels_from, symbol_name,
}

pub record Buffer : Type 0 where
  pub id : ℕ
  pub bytes : Bytes

-- The indices of instructions with the names of the maps that they refer to.
abbrev pub Refs : Type 0
Refs = List (ℤ × Bytes)

pub record BpfObject : Type 0 where
  pub license : Bytes
  pub map_defs : List (Bytes × MapDef)
  pub insns_by_section : List (Bytes × Buffer)
  pub insn_map_refs_by_section : List (Bytes × Refs)
  -- The first section of a program, for the loader of a single program.
  pub insns : Option Buffer
  pub insn_map_refs : Refs

abbrev pub new_object : BpfObject
new_object = record {
  license = codes "GPL";
  map_defs = [];
  insns_by_section = [];
  insn_map_refs_by_section = [];
  insns = none;
  insn_map_refs = [];
}

-- What the first pass keeps: the names of the sections, and the numbers of two of them.
pub record Scan : Type 0 where
  pub obj : BpfObject
  pub names : List Bytes
  pub symtab_idx : Option ℕ
  pub maps_section_idx : Option ℕ

abbrev pub or_first : Option Buffer → Buffer → Option Buffer
or_first none b = some b
or_first (some a) b = some a

unfoldable pub add_program : Bytes → Buffer → BpfObject → BpfObject
unfolding insert
add_program name b obj = record obj {
  insns_by_section = insert name b obj.insns_by_section;
  insn_map_refs_by_section = insert name [] obj.insn_map_refs_by_section;
  insns = or_first obj.insns b;
}

abbrev pub license_of : Bytes → Bytes → Bytes
license_of raw old = if is_empty raw then old else until_nul raw

-- The cases of the `switch`, in their order.
unfoldable pub note_section : ℕ → Bytes → SectionHeader → Bytes → Scan → Scan
unfolding until_nul parse_map_defs
note_section i name h raw scan =
    let obj = scan.obj in
    if h.sh_type == 1 && is_prog_section name
    then record scan { obj = add_program name (record { id = i; bytes = raw }) obj }
    else if bytes_eq name (codes "license")
    then record scan { obj = record obj { license = license_of raw obj.license } }
    else if bytes_eq name (codes "maps")
    then record scan {
      obj = record obj { map_defs = parse_map_section_legacy raw obj.map_defs };
      maps_section_idx = some i;
    }
    else if h.sh_type == 2
    then record scan { symtab_idx = some i }
    else scan

abbrev pub with_name : Bytes → Scan → Scan
with_name name scan = record scan { names = scan.names ++ name ∷ [] }

unfoldable pub scan_sections : Bytes → ℕ → Slice → List SectionHeader → ℕ → Scan → Outcome Scan
unfolding text_at
scan_sections s spare shstrtab [] i scan = ok scan
scan_sections s spare shstrtab (h ∷ hs) i scan = do
  name ← text_at shstrtab h.name_off
  raw ← raw_section s spare h
  scan_sections s spare shstrtab hs (suc i) (note_section i name h raw.bytes (with_name name scan))
