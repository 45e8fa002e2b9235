-- ===== src/Sysbpf/Elf/Parse/Loadable.antt =====
-- internal/sysbpf/loader.go: what holds of every object that `parseELF` returns.
use hosa.Prelude.{
  ℕ, ◌≡◌, refl, ◌∙◌, arith, Bool, true, false, Bool-cases, Option-cases, inl, inr, List, [], ◌∷◌,
  Bytes, if◌then◌else◌, is_empty, get_or, ◌&&◌, ◌==◌,
}
use hosa.Prelude.Int.{ℤ}
use hosa.Outcome.{ok}
use hosa.Outcome.Ensures.{Ensures, Ensures-bind, Ensures-then, Ensures-ok, Ensures-if}
use hosa.Sysbpf.Dict.{find, insert_ref}
use hosa.Sysbpf.Relocate.Imm.{AreDistinct}
use hosa.Sysbpf.Elf.{
  SectionHeader, Relocation, Slice, is_prog_section, raw_section, symbol_name, parse_rels,
  read_headers,
}
use hosa.Sysbpf.Words.{read_u16, read_u64}
use hosa.Sysbpf.Elf.Object.{Refs, BpfObject, Scan, scan_sections}
use hosa.Sysbpf.Elf.Parse.{
  add_ref, resolve_rels, section_at, is_no_program, insn_index, empty_scan, resolve_section,
  resolve_sections, resolve, resolve_with, second_pass, parse_sections, parse_elf,
}
use hosa.Sysbpf.Elf.Object.Linked.{IsLinked, scan_sections_lem}
use hosa.Sysbpf.Elf.Object.Tables.{
  insert_ref-AreDistinct, insert-RefsAreDistinct, find-RefsAreDistinct, keys-insert_found,
}

-- An object that is returned has a program besides.
pub record IsLoadable (obj : BpfObject) : Type 0 where
  pub linked : IsLinked obj
  pub some_program : is_no_program obj.insns_by_section ≡ false

first_ref-AreDistinct :
    (first : Bool) (i : ℤ) (name : Bytes) (refs : Refs)
    → AreDistinct refs
    → AreDistinct (if first then insert_ref i name refs else refs)
first_ref-AreDistinct true i name refs d = insert_ref-AreDistinct i name refs d
first_ref-AreDistinct false i name refs d = d

add_ref_lem :
    (section : Bytes) (i : ℤ) (name : Bytes) (obj : BpfObject)
    → IsLoadable obj
    → Ensures IsLoadable (add_ref section i name obj)
unfolding add_ref
add_ref_lem section i name obj l = elim (Option-cases (find section obj.insn_map_refs_by_section)) [
  | inl e ↦ rw (e, Ensures) tt
  | inr (refs, e) ↦
      let d =
        find-RefsAreDistinct section refs obj.insn_map_refs_by_section l.linked.refs_distinct e in
      rw (e, Ensures)
        record {
          linked = record {
            same_keys =
                keys-insert_found section _ refs obj.insn_map_refs_by_section e
                ∙ l.linked.same_keys;
            programs = l.linked.programs;
            refs_distinct =
                insert-RefsAreDistinct section _ obj.insn_map_refs_by_section
                  (insert_ref-AreDistinct i name refs d) l.linked.refs_distinct;
            first_distinct =
                first_ref-AreDistinct _ i name obj.insn_map_refs l.linked.first_distinct;
          };
          some_program = l.some_program;
        }
]

resolve_rels_lem :
    (symtab strtab : Slice) (section : Bytes) (rels : List Relocation) (obj : BpfObject)
    → IsLoadable obj
    → Ensures IsLoadable (resolve_rels symtab strtab section rels obj)
unfolding resolve_rels
resolve_rels_lem symtab strtab section [] obj l = l
resolve_rels_lem symtab strtab section (rel ∷ rels) obj l =
    Ensures-then _ (symbol_name symtab strtab rel.sym_idx) _ (λ name.
      Ensures-bind IsLoadable _
        (if is_empty name then ok obj else add_ref section (insn_index rel.offset) name obj) _
        (Ensures-if IsLoadable (is_empty name) _ _ l
          (add_ref_lem section (insn_index rel.offset) name obj l))
        (λ obj' l'. resolve_rels_lem symtab strtab section rels obj' l'))

resolve_section_lem :
    (s : Bytes) (spare : ℕ) (symtab strtab : Slice) (h : SectionHeader) (section : Bytes)
    (obj : BpfObject)
    → IsLoadable obj
    → Ensures IsLoadable (resolve_section s spare symtab strtab h section obj)
unfolding resolve_section
resolve_section_lem s spare symtab strtab h section obj l =
    Ensures-if IsLoadable (h.sh_type == 9 && is_prog_section section) _ _
      (Ensures-then _ (raw_section s spare h) _
        (λ raw. resolve_rels_lem symtab strtab section (parse_rels raw.bytes) obj l))
      l

resolve_sections_lem :
    (s : Bytes) (spare : ℕ) (names : List Bytes) (symtab strtab : Slice) (hs : List SectionHeader)
    (obj : BpfObject)
    → IsLoadable obj
    → Ensures IsLoadable (resolve_sections s spare names symtab strtab hs obj)
unfolding resolve_sections
resolve_sections_lem s spare names symtab strtab [] obj l = l
resolve_sections_lem s spare names symtab strtab (h ∷ hs) obj l =
    Ensures-bind IsLoadable _ (resolve_section s spare symtab strtab h (get_or names h.info []) obj)
      _ (resolve_section_lem s spare symtab strtab h (get_or names h.info []) obj l)
      (λ obj' l'. resolve_sections_lem s spare names symtab strtab hs obj' l')

resolve_with_lem :
    (s : Bytes) (spare : ℕ) (hs : List SectionHeader) (scan : Scan) (symtab_idx : ℕ)
    → IsLoadable scan.obj
    → Ensures IsLoadable (resolve_with s spare hs scan symtab_idx)
unfolding resolve_with
resolve_with_lem s spare hs scan symtab_idx l =
    Ensures-then _ (section_at hs symtab_idx) _ (λ symtab_header.
      Ensures-then _ (raw_section s spare symtab_header) _ (λ symtab.
        Ensures-then _ (section_at hs symtab_header.link) _ (λ strtab_header.
          Ensures-then _ (raw_section s spare strtab_header) _
            (λ strtab. resolve_sections_lem s spare scan.names symtab strtab hs scan.obj l))))

resolve_lem :
    (s : Bytes) (spare : ℕ) (hs : List SectionHeader) (scan : Scan)
    → IsLoadable scan.obj
    → Ensures IsLoadable (resolve s spare hs scan)
unfolding resolve
resolve_lem s spare hs scan l = elim (Option-cases scan.symtab_idx) [
  | inl e ↦ rw (e, Ensures) l
  | inr (symtab_idx, e) ↦
      rw (e, Ensures)
        (elim (Option-cases scan.maps_section_idx) [
          | inl f ↦ rw (f, Ensures) l
          | inr (m, f) ↦ rw (f, Ensures) (resolve_with_lem s spare hs scan symtab_idx l)
        ])
]

second_pass_lem :
    (s : Bytes) (spare : ℕ) (hs : List SectionHeader) (scan : Scan)
    → IsLinked scan.obj
    → Ensures IsLoadable (second_pass s spare hs scan)
unfolding second_pass
second_pass_lem s spare hs scan l = elim (Bool-cases (is_no_program scan.obj.insns_by_section)) [
  | inl e ↦ rw e tt
  | inr e ↦ rw e (resolve_lem s spare hs scan record { linked = l; some_program = e })
]

empty_scan-IsLinked : IsLinked empty_scan.obj
empty_scan-IsLinked = record {
  same_keys = refl;
  programs = tt;
  refs_distinct = tt;
  first_distinct = tt;
}

parse_sections_lem : (s : Bytes) (spare : ℕ) → Ensures IsLoadable (parse_sections s spare)
unfolding parse_sections
parse_sections_lem s spare = Ensures-then _ (read_u64 s 40) _ (λ shoff.
    Ensures-then _ (read_u16 s 58) _ (λ shentsize. Ensures-then _ (read_u16 s 60) _ (λ shnum.
      Ensures-then _ (read_u16 s 62) _ (λ shstrndx.
        Ensures-then _ (read_headers s shoff shentsize shnum 0) _ (λ sections.
          Ensures-then _ (section_at sections shstrndx) _ (λ names_header.
            Ensures-then _ (raw_section s spare names_header) _ (λ shstrtab.
              Ensures-bind (λ (t : Scan). IsLinked t.obj) _
                (scan_sections s spare shstrtab sections 0 empty_scan) _
                (scan_sections_lem s spare shstrtab sections 0 empty_scan empty_scan-IsLinked)
                (λ scan l. second_pass_lem s spare sections scan l))))))))

-- Whatever the file holds, an object that is returned has at least one program, its tables of
-- bytecode and of map references have the same sections, each of them the section of a program, and
-- no instruction has two entries among the references, neither in a section nor in the first program.
pub parse_elf-IsLoadable :
    (s : Bytes) (spare : ℕ) (obj : BpfObject) → parse_elf s spare ≡ ok obj → IsLoadable obj
unfolding parse_elf
parse_elf-IsLoadable s spare obj e =
    Ensures-ok IsLoadable (parse_sections s spare) obj (parse_sections_lem s spare)
      (ground (arith, e))
