-- ===== src/Sysbpf/Words.antt =====
-- The little-endian reads and writes of internal/sysbpf on byte slices. A slice that reaches past
-- the end panics.
use hosa.Prelude.{
  ℕ, zero, suc, ◌+◌, ◌-◌, ◌*◌, ◌/◌, ◌%◌, [], ◌∷◌, Bytes, length, take, drop, leb, ◌&&◌, set,
  if◌then◌else◌,
}
use hosa.Outcome.{Outcome, ok, panic}

-- The value of bytes, the lowest first.
unfoldable pub little : Bytes → ℕ
little [] = 0
little (b ∷ s) = b + 256 * little s

-- The lowest `n` bytes of a number, the lowest first.
unfoldable pub to_little : ℕ → ℕ → Bytes
to_little zero v = []
to_little (suc n) v = (v % 256) ∷ to_little n (v / 256)

-- The bytes from `at` on are overwritten, as binary.LittleEndian.PutUintN does; the callers have
-- checked that they are there.
unfoldable pub put : ℕ → Bytes → Bytes → Bytes
put at [] s = s
put at (b ∷ w) s = put (at + 1) w (set s at b)

-- data[lo:hi], where `hi` is at most the length.
unfoldable pub slice : Bytes → ℕ → ℕ → Outcome Bytes
slice s lo hi = if leb lo hi && leb hi (length s) then ok (take (hi - lo) (drop lo s)) else panic

-- binary.LittleEndian.UintN(data[at:]) for a width of `n` bytes.
unfoldable pub read_word : ℕ → Bytes → ℕ → Outcome ℕ
unfolding little
read_word n s at = if leb (at + n) (length s) then ok (little (take n (drop at s))) else panic

abbrev pub read_u16 : Bytes → ℕ → Outcome ℕ
read_u16 = read_word 2

abbrev pub read_u32 : Bytes → ℕ → Outcome ℕ
read_u32 = read_word 4

abbrev pub read_u64 : Bytes → ℕ → Outcome ℕ
read_u64 = read_word 8
