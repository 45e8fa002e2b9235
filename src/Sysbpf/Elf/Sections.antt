-- ===== src/Sysbpf/Elf/Sections.antt =====
-- internal/sysbpf/loader.go: which bytes `rawSection` takes, and when it panics.
use hosa.Prelude.{
  Bool, not, ◌&&◌, ◌==◌, leb, if◌then◌else◌, ℕ, ◌+◌, ◌-◌, ◌%◌, ◌^◌, ◌<◌, ◌≡◌, arith, Bytes, length,
  take, drop,
}
use hosa.Outcome.{ok, panic}
use hosa.Sysbpf.Elf.{SectionHeader, nil_slice, raw_section}

-- A header's offset and size are 64-bit words.
pub record HasWords (h : SectionHeader) : Type 0 where
  pub offset_lt : h.offset < 2 ^ 64
  pub size_lt : h.size < 2 ^ 64

-- Where the code has a section to cut out: it has a size and an offset, and the 64-bit sum of the
-- two does not lie past the file.
abbrev pub is_cut : Bytes → SectionHeader → Bool
is_cut s h =
    not (h.size == 0) && not (h.offset == 0) && leb ((h.offset + h.size) % 2 ^ 64) (length s)

-- For a file shorter than 2^63 bytes, a section that is cut out is its `size` bytes from `offset`
-- on, unless the sum of offset and size passes 2^64: then the check of the end sees what is left of
-- the sum, and the call panics. Any other section is nil.
pub raw_section_lem :
    (s : Bytes) (spare : ℕ) (h : SectionHeader)
    → HasWords h
    → length s < 2 ^ 63
    → raw_section s spare h ≡ (
        if not (is_cut s h)
        then ok nil_slice
        else if leb (2 ^ 64) (h.offset + h.size)
        then panic
        else ok record { bytes = take h.size (drop h.offset s); cap = length s + spare - h.offset })
unfolding raw_section
raw_section_lem s spare h w l = ground arith
