-- ===== src/Sysbpf/Elf/Object/Linked.antt =====
-- internal/sysbpf/loader.go: what the first pass of `parseELF` keeps of the object.
use hosa.Prelude.{
  ℕ, suc, ◌≡◌, ap, sym, ◌∙◌, arith, true, Bool-cases, codes, inl, inr, List, [], ◌∷◌, Bytes,
  bytes_eq, ◌&&◌, ◌==◌,
}
use hosa.Outcome.Ensures.{Ensures, Ensures-then}
use hosa.Sysbpf.Relocate.Imm.{AreDistinct}
use hosa.Sysbpf.Elf.{SectionHeader, MapDef, Slice, is_prog_section, text_at, raw_section}
use hosa.Sysbpf.Elf.Object.{
  Buffer, BpfObject, Scan, add_program, note_section, scan_sections, with_name,
}
use hosa.Sysbpf.Elf.Object.Tables.{
  keys, insert_key, keys-insert, AreProgs, insert_key-AreProgs, RefsAreDistinct,
  insert-RefsAreDistinct,
}

-- The two tables have the same sections, all of them of programs, and no instruction has two entries
-- in a table of map references.
pub record IsLinked (obj : BpfObject) : Type 0 where
  pub same_keys : keys obj.insn_map_refs_by_section ≡ keys obj.insns_by_section
  pub programs : AreProgs (keys obj.insns_by_section)
  pub refs_distinct : RefsAreDistinct obj.insn_map_refs_by_section
  pub first_distinct : AreDistinct obj.insn_map_refs

add_program-IsLinked :
    (name : Bytes) (b : Buffer) (obj : BpfObject)
    → is_prog_section name ≡ true
    → IsLinked obj
    → IsLinked (add_program name b obj)
unfolding add_program
add_program-IsLinked name b obj h l =
    let e = keys-insert name b obj.insns_by_section in
    record {
      same_keys =
          keys-insert name [] obj.insn_map_refs_by_section
          ∙ (ap (insert_key name) l.same_keys ∙ sym e);
      programs = rw e (insert_key-AreProgs name (keys obj.insns_by_section) h l.programs);
      refs_distinct =
          insert-RefsAreDistinct name [] obj.insn_map_refs_by_section tt l.refs_distinct;
      first_distinct = l.first_distinct;
    }

-- The license and the maps do not matter.
same_tables :
    (obj : BpfObject) (license : Bytes) (defs : List (Bytes × MapDef))
    → IsLinked obj
    → IsLinked (record obj { license = license; map_defs = defs })
same_tables obj license defs l = record {
  same_keys = l.same_keys;
  programs = l.programs;
  refs_distinct = l.refs_distinct;
  first_distinct = l.first_distinct;
}

note_section-IsLinked :
    (i : ℕ) (name : Bytes) (h : SectionHeader) (raw : Bytes) (scan : Scan)
    → IsLinked scan.obj
    → IsLinked (note_section i name h raw scan).obj
unfolding note_section
note_section-IsLinked i name h raw scan l =
    elim (Bool-cases (h.sh_type == 1 && is_prog_section name)) [
      | inl e ↦
          let prog : is_prog_section name ≡ true = ground (arith, e) in
          rw e (add_program-IsLinked name (record { id = i; bytes = raw }) scan.obj prog l)
      | inr e ↦ rw e (elim (Bool-cases (bytes_eq name (codes "license"))) [
        | inl f ↦ rw f (same_tables scan.obj _ scan.obj.map_defs l)
        | inr f ↦ rw f (elim (Bool-cases (bytes_eq name (codes "maps"))) [
          | inl g ↦ rw g (same_tables scan.obj scan.obj.license _ l)
          | inr g ↦ rw g (elim (Bool-cases (h.sh_type == 2)) [ inl k ↦ rw k l | inr k ↦ rw k l ])
        ])
      ])
    ]

pub scan_sections_lem :
    (s : Bytes) (spare : ℕ) (shstrtab : Slice) (hs : List SectionHeader) (i : ℕ) (scan : Scan)
    → IsLinked scan.obj
    → Ensures (λ (t : Scan). IsLinked t.obj) (scan_sections s spare shstrtab hs i scan)
unfolding scan_sections
scan_sections_lem s spare shstrtab [] i scan l = l
scan_sections_lem s spare shstrtab (h ∷ hs) i scan l =
    Ensures-then _ (text_at shstrtab h.name_off) _ (λ name.
      Ensures-then _ (raw_section s spare h) _ (λ raw.
        scan_sections_lem s spare shstrtab hs (suc i)
          (note_section i name h raw.bytes (with_name name scan))
          (note_section-IsLinked i name h raw.bytes (with_name name scan) l)))
