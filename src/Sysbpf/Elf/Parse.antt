-- ===== src/Sysbpf/Elf/Parse.antt =====
-- internal/sysbpf/loader.go: the second pass of `parseELF`, which resolves the relocations, and the
-- whole function.
pub mod Loadable
use hosa.Prelude.{
  ℕ, zero, suc, ◌+◌, ◌/◌, ◌%◌, ◌-◌, ◌^◌, Bool, true, false, ◌&&◌, ◌||◌, not, Option, none, some,
  List, [], ◌∷◌, ◌++◌, take, Bytes, codes, bytes_eq, is_empty, length, get_elem?, get_or, leb, ltb,
  ◌==◌, if◌then◌else◌,
}
use hosa.Prelude.Int.{ℤ, pos, negsuc}
use hosa.Outcome.{
  Outcome, ok, err, panic, ◌>>=◌, elf_size, elf_magic, elf_class, elf_order, elf_no_programs,
}
use hosa.Sysbpf.Dict.{find, insert, insert_ref}
use hosa.Sysbpf.Words.{read_word, read_u16, read_u64}
use hosa.Sysbpf.Relocate.{MapFds, relocate_insns}
use hosa.Sysbpf.Elf.{
  SectionHeader, Relocation, MapDef, Slice, read_headers, raw_section, until_nul, text_at,
  is_prog_section, parse_map_section_legacy, parse_map_defs, parse_rels, rels_from, symbol_name,
}
use hosa.Sysbpf.Elf.Object.{Buffer, Refs, BpfObject, Scan, new_object, scan_sections}

-- `sameBuf`; a slice that is nil is empty.
abbrev pub same_buf : Buffer → Option Buffer → Bool
same_buf a none = is_empty a.bytes
same_buf a (some b) = length a.bytes == length b.bytes && (is_empty a.bytes || a.id == b.id)

abbrev pub is_first : Option Buffer → Option Buffer → Bool
is_first none first = false
is_first (some b) first = same_buf b first

-- int(offset) / 8, which rounds towards 0.
abbrev pub insn_index : ℕ → ℤ
insn_index offset =
    if ltb offset (2 ^ 63)
    then pos (offset / 8)
    else if (2 ^ 64 - offset) / 8 == 0
    then pos 0
    else negsuc ((2 ^ 64 - offset) / 8 - 1)

-- Writing to the refs of a section that is no program panics: its map is nil.
unfoldable pub add_ref : Bytes → ℤ → Bytes → BpfObject → Outcome BpfObject
add_ref section i name obj = elim (find section obj.insn_map_refs_by_section) [
  | none ↦ panic
  | some refs ↦ ok record obj {
    insn_map_refs_by_section = insert section (insert_ref i name refs) obj.insn_map_refs_by_section;
    insn_map_refs =
        if is_first (find section obj.insns_by_section) obj.insns
        then insert_ref i name obj.insn_map_refs
        else obj.insn_map_refs;
  }
]

unfoldable pub resolve_rels :
    Slice → Slice → Bytes → List Relocation → BpfObject → Outcome BpfObject
unfolding symbol_name
resolve_rels symtab strtab section [] obj = ok obj
resolve_rels symtab strtab section (rel ∷ rels) obj = do
  name ← symbol_name symtab strtab rel.sym_idx
  obj' ← if is_empty name then ok obj else add_ref section (insn_index rel.offset) name obj
  resolve_rels symtab strtab section rels obj'

-- The loop's body for one section, with the name of the section that it is about.
unfoldable pub resolve_section :
    Bytes → ℕ → Slice → Slice → SectionHeader → Bytes → BpfObject → Outcome BpfObject
unfolding rels_from
resolve_section s spare symtab strtab h section obj =
    if h.sh_type == 9 && is_prog_section section
    then (raw_section s spare h >>= λ raw.
        resolve_rels symtab strtab section (parse_rels raw.bytes) obj)
    else ok obj

unfoldable pub resolve_sections :
    Bytes → ℕ → List Bytes → Slice → Slice → List SectionHeader → BpfObject → Outcome BpfObject
resolve_sections s spare names symtab strtab [] obj = ok obj
resolve_sections s spare names symtab strtab (h ∷ hs) obj = do
  obj' ← resolve_section s spare symtab strtab h (get_or names h.info []) obj
  resolve_sections s spare names symtab strtab hs obj'

-- sections[i]
abbrev pub section_at : List SectionHeader → ℕ → Outcome SectionHeader
section_at hs i = elim (get_elem? hs i) [ none ↦ panic | some h ↦ ok h ]

unfoldable pub resolve_with : Bytes → ℕ → List SectionHeader → Scan → ℕ → Outcome BpfObject
resolve_with s spare hs scan symtab_idx = do
  symtab_header ← section_at hs symtab_idx
  symtab ← raw_section s spare symtab_header
  strtab_header ← section_at hs symtab_header.link
  strtab ← raw_section s spare strtab_header
  resolve_sections s spare scan.names symtab strtab hs scan.obj

-- The second pass, if there are a symbol table and a section of maps.
unfoldable pub resolve : Bytes → ℕ → List SectionHeader → Scan → Outcome BpfObject
resolve s spare hs scan = elim (scan.symtab_idx) [
  | none ↦ ok scan.obj
  | some symtab_idx ↦ elim (scan.maps_section_idx) [
    | none ↦ ok scan.obj
    | some _ ↦ resolve_with s spare hs scan symtab_idx
  ]
]

abbrev pub is_no_program : List (Bytes × Buffer) → Bool
is_no_program [] = true
is_no_program (p ∷ ps) = false

unfoldable pub second_pass : Bytes → ℕ → List SectionHeader → Scan → Outcome BpfObject
second_pass s spare hs scan =
    if is_no_program scan.obj.insns_by_section then err elf_no_programs else resolve s spare hs scan

abbrev pub empty_scan : Scan
empty_scan = record { obj = new_object; names = []; symtab_idx = none; maps_section_idx = none }

unfoldable pub parse_sections : Bytes → ℕ → Outcome BpfObject
unfolding read_word
parse_sections s spare = do
  shoff ← read_u64 s 40
  shentsize ← read_u16 s 58
  shnum ← read_u16 s 60
  shstrndx ← read_u16 s 62
  sections ← read_headers s shoff shentsize shnum 0
  names_header ← section_at sections shstrndx
  shstrtab ← raw_section s spare names_header
  scan ← scan_sections s spare shstrtab sections 0 empty_scan
  second_pass s spare sections scan

unfoldable pub parse_elf : Bytes → ℕ → Outcome BpfObject
parse_elf s spare =
    if ltb (length s) 64
    then err elf_size
    else if not (bytes_eq (take 4 s) (0x7f ∷ codes "ELF"))
    then err elf_magic
    else if not (get_or s 4 0 == 2)
    then err elf_class
    else if not (get_or s 5 0 == 1)
    then err elf_order
    else parse_sections s spare

-- The entries of the section map that share the array see the relocated bytes.
abbrev pub share : Buffer → List (Bytes × Buffer) → List (Bytes × Buffer)
share b [] = []
share b ((name, a) ∷ m) = (name, if a.id == b.id then b else a) ∷ share b m

-- Without a program there is nothing to write.
abbrev pub relocate_first : MapFds → BpfObject → Option Buffer → BpfObject × Outcome (Unit {0})
relocate_first fds obj none = (obj, (relocate_insns obj.insn_map_refs fds []).1)
relocate_first fds obj (some b) =
    let (bytes, r) = relocate_insns obj.insn_map_refs fds b.bytes in
    let b' = record b { bytes = bytes } in
    (record obj { insns = some b'; insns_by_section = share b' obj.insns_by_section }, r)

-- `RelocateInsns` of an object: the first program only.
unfoldable pub relocate_object : MapFds → BpfObject → BpfObject × Outcome (Unit {0})
unfolding relocate_insns
relocate_object fds obj = relocate_first fds obj obj.insns
