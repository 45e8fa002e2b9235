-- ===== src/Sysbpf/Relocate.antt =====
-- internal/sysbpf/loader.go: `RelocateInsns` of a slice of bytecode, which writes the descriptor of
-- a map into the instructions that refer to it.
pub mod Imm
use hosa.Prelude.{
  ℕ, zero, suc, ◌+◌, ◌-◌, ◌*◌, ◌/◌, ◌%◌, ◌^◌, Bool, true, false, Option, none, some, List, [], ◌∷◌,
  ◌++◌, Bytes, bytes_eq, length, get_or, set, take, drop, leb, ltb, if◌then◌else◌,
}
use hosa.Prelude.Int.{ℤ, pos, negsuc, ltb_ℤ, of_residue}
use hosa.Outcome.{Outcome, ok, err, panic, relocation_map, relocation_bounds}
use hosa.Sysbpf.Words.{to_little, put}

abbrev pub insn_size : ℕ
insn_size = 8

-- The descriptors of the maps, by name.
abbrev pub MapFds : Type 0
MapFds = List (Bytes × ℤ)

unfoldable pub fd_of : Bytes → MapFds → Option ℤ
fd_of name [] = none
fd_of name ((n, fd) ∷ fds) = if bytes_eq n name then some fd else fd_of name fds

-- uint32(fd)
abbrev pub to_u32 : ℤ → ℕ
to_u32 (pos n) = n % 2 ^ 32
to_u32 (negsuc n) = 2 ^ 32 - 1 - n % 2 ^ 32

-- The source register becomes BPF_PSEUDO_MAP_FD, and the immediate value the descriptor. Bit by
-- bit, `x & 0x0f` is `x % 16`, and setting the bit of 16 in such a value adds it.
unfoldable pub patch : ℕ → ℤ → Bytes → Bytes
unfolding put to_little
patch at fd s =
    put (at + 4) (to_little 4 (to_u32 fd)) (set s (at + 1) (get_or s (at + 1) 0 % 16 + 16))

-- `insnIdx * bpfInsnSize`, an `int`, as its residue modulo 2^64.
abbrev pub byte_offset : ℤ → ℕ
byte_offset (pos i) = i * insn_size % 2 ^ 64
byte_offset (negsuc i) = (2 ^ 64 - (i + 1) * insn_size % 2 ^ 64) % 2 ^ 64

-- The loop's body at a place that is an `int`: where its end, which wraps, passes the check, a place
-- that is negative, or whose end wrapped, is out of range.
unfoldable pub relocate_from : ℕ → ℤ → Bytes → Outcome Bytes
unfolding patch
relocate_from at fd s =
    if ltb_ℤ (pos (length s)) (of_residue ((at + insn_size) % 2 ^ 64))
    then err relocation_bounds
    else if ltb at (2 ^ 63 - insn_size)
    then ok (patch at fd s)
    else panic

-- The loop's body for one entry. An instruction that lies in the bytecode has a place that does not
-- wrap, since a slice is shorter than 2^63 bytes.
unfoldable pub relocate_at : ℤ → ℤ → Bytes → Outcome Bytes
unfolding patch relocate_from
relocate_at (pos i) fd s =
    if leb (i * insn_size + insn_size) (length s)
    then ok (patch (i * insn_size) fd s)
    else relocate_from (byte_offset (pos i)) fd s
relocate_at (negsuc i) fd s = relocate_from (byte_offset (negsuc i)) fd s

-- The entries in the order in which the map is walked, which Go leaves open. An entry that fails
-- leaves the earlier ones written.
unfoldable pub relocate_insns : List (ℤ × Bytes) → MapFds → Bytes → Bytes × Outcome (Unit {0})
unfolding fd_of relocate_at
relocate_insns [] fds s = (s, ok tt)
relocate_insns ((i, name) ∷ refs) fds s = elim (fd_of name fds) [
  | none ↦ (s, err relocation_map)
  | some fd ↦ elim (relocate_at i fd s) [
    | ok s' ↦ relocate_insns refs fds s'
    | err e ↦ (s, err e)
    | panic ↦ (s, panic)
  ]
]
