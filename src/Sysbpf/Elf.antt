-- ===== src/Sysbpf/Elf.antt =====
-- internal/sysbpf/loader.go: the parts of an ELF file. The capacity that the slice of the file has
-- past its end is an argument, since a slice of a section may reach into it.
pub mod Object
pub mod Parse
pub mod Sections
use hosa.Prelude.{
  ℕ, zero, suc, ◌+◌, ◌-◌, ◌*◌, ◌/◌, ◌%◌, ◌^◌, Bool, true, false, ◌&&◌, ◌||◌, Option, none, some,
  List, [], ◌∷◌, ◌++◌, Bytes, codes, bytes_eq, is_empty, length, get_elem?, take, drop, leb, ltb,
  ◌==◌, if◌then◌else◌,
}
use hosa.Outcome.{Outcome, ok, err, panic, ◌>>=◌, elf_header_bounds}
use hosa.Strings.{format_uint, has_prefix}
use hosa.Sysbpf.Dict.{insert}
use hosa.Sysbpf.Words.{little, read_u32, read_u64, read_word}

pub record SectionHeader : Type 0 where
  pub name_off : ℕ
  pub sh_type : ℕ
  pub flags : ℕ
  pub addr : ℕ
  pub offset : ℕ
  pub size : ℕ
  pub link : ℕ
  pub info : ℕ
  pub align : ℕ
  pub entsize : ℕ

pub record Relocation : Type 0 where
  pub offset : ℕ
  pub sym_idx : ℕ
  pub rel_type : ℕ

pub record MapDef : Type 0 where
  pub map_type : ℕ
  pub key_size : ℕ
  pub value_size : ℕ
  pub max_entries : ℕ

-- A slice of the file, with its capacity; `nil` is empty.
pub record Slice : Type 0 where
  pub bytes : Bytes
  pub cap : ℕ

abbrev pub nil_slice : Slice
nil_slice = record { bytes = []; cap = 0 }

unfoldable pub read_header : Bytes → ℕ → Outcome SectionHeader
unfolding read_word
read_header s base = do
  name_off ← read_u32 s base
  sh_type ← read_u32 s (base + 4)
  flags ← read_u64 s (base + 8)
  addr ← read_u64 s (base + 16)
  offset ← read_u64 s (base + 24)
  size ← read_u64 s (base + 32)
  link ← read_u32 s (base + 40)
  info ← read_u32 s (base + 44)
  align ← read_u64 s (base + 48)
  entsize ← read_u64 s (base + 56)
  ok record {
    name_off = name_off;
    sh_type = sh_type;
    flags = flags;
    addr = addr;
    offset = offset;
    size = size;
    link = link;
    info = info;
    align = align;
    entsize = entsize;
  }

-- The start of a header in 64-bit arithmetic. Read as an `int`, a value from 2^63 on is negative:
-- it passes the check of the end, and the read of a header there panics, as it does past the end.
unfoldable pub header_in_bounds : Bytes → ℕ → ℕ → Bool
header_in_bounds s base size =
    let end = (base + size) % 2 ^ 64 in leb (2 ^ 63) end || leb end (length s)

unfoldable pub read_headers : Bytes → ℕ → ℕ → ℕ → ℕ → Outcome (List SectionHeader)
unfolding read_header header_in_bounds
read_headers s shoff shentsize zero i = ok []
read_headers s shoff shentsize (suc n) i =
    let base = (shoff + i * shentsize) % 2 ^ 64 in
    if header_in_bounds s base shentsize
    then (do h ← read_header s base; rest ← read_headers s shoff shentsize n (suc i); ok (h ∷ rest))
    else err elf_header_bounds

unfoldable pub raw_section : Bytes → ℕ → SectionHeader → Outcome Slice
raw_section s spare h =
    let end = (h.offset + h.size) % 2 ^ 64 in
    if h.size == 0 || h.offset == 0
    then ok nil_slice
    else if ltb (length s) end
    then ok nil_slice
    else if ltb end h.offset
    then panic
    else ok record {
      bytes = take (end - h.offset) (drop h.offset s);
      cap = length s + spare - h.offset;
    }

-- What stands before the first byte 0.
unfoldable pub until_nul : Bytes → Bytes
until_nul [] = []
until_nul (b ∷ s) = let rest = until_nul s in if b == 0 then [] else b ∷ rest

-- `getName`, and the end of `symbolName`. Past the end of the table, an offset within the capacity
-- gives the empty name.
unfoldable pub text_at : Slice → ℕ → Outcome Bytes
unfolding until_nul
text_at t off =
    if leb off (length t.bytes)
    then ok (until_nul (drop off t.bytes))
    else if leb off t.cap
    then ok []
    else panic

abbrev pub is_one_of_prefixes : List Bytes → Bytes → Bool
is_one_of_prefixes [] name = false
is_one_of_prefixes (p ∷ ps) name = has_prefix name p || is_one_of_prefixes ps name

unfoldable pub is_prog_section : Bytes → Bool
unfolding has_prefix
is_prog_section name =
    is_one_of_prefixes
      (codes "tracepoint/"
        ∷ codes "kprobe/"
        ∷ codes "kretprobe/"
        ∷ codes "xdp"
        ∷ codes "tc/"
        ∷ codes "socket"
        ∷ codes "struct_ops/"
        ∷ codes "struct_ops.link/"
        ∷ [])
      name

abbrev pub u32_of : Bytes → ℕ → ℕ
u32_of s at = little (take 4 (drop at s))

abbrev pub map_name : ℕ → Bytes
map_name zero = codes "hosa_metrics"
map_name (suc k) = codes "map_" ++ format_uint (suc k)

abbrev pub def_at : Bytes → MapDef
def_at s = record {
  map_type = u32_of s 0;
  key_size = u32_of s 4;
  value_size = u32_of s 8;
  max_entries = u32_of s 12;
}

-- The rounds of the loop, one for each 20 bytes; `k` is the number of the entry.
unfoldable pub parse_map_defs : ℕ → ℕ → Bytes → List (Bytes × MapDef) → List (Bytes × MapDef)
unfolding insert little format_uint
parse_map_defs zero k s defs = defs
parse_map_defs (suc n) k s defs =
    let def = def_at s in
    parse_map_defs n (suc k) (drop 20 s)
      (if def.map_type == 0 && def.max_entries == 0 then defs else insert (map_name k) def defs)

abbrev pub parse_map_section_legacy : Bytes → List (Bytes × MapDef) → List (Bytes × MapDef)
parse_map_section_legacy s defs = parse_map_defs (length s / 20) 0 s defs

abbrev pub rel_of : ℕ → ℕ → Relocation
rel_of offset info = record {
  offset = offset;
  sym_idx = info / 2 ^ 32 % 2 ^ 32;
  rel_type = info % 2 ^ 32;
}

unfoldable pub rels_from : ℕ → Bytes → List Relocation
unfolding little
rels_from zero s = []
rels_from (suc n) s =
    rel_of (little (take 8 s)) (little (take 8 (drop 8 s))) ∷ rels_from n (drop 16 s)

abbrev pub parse_rels : Bytes → List Relocation
parse_rels s = rels_from (length s / 16) s

unfoldable pub symbol_name : Slice → Slice → ℕ → Outcome Bytes
unfolding text_at little
symbol_name symtab strtab idx =
    if ltb (length symtab.bytes) (idx * 24 + 24)
    then ok []
    else text_at strtab (u32_of symtab.bytes (idx * 24))
