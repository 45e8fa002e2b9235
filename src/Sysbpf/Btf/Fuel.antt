-- ===== src/Sysbpf/Btf/Fuel.antt =====
-- internal/sysbpf/struct_ops.go: the loop over the types of a BTF blob ends.
use hosa.Prelude.{ℕ, zero, suc, ◌+◌, ◌%◌, ◌^◌, ◌<◌, ◌≤◌, ◌≢◌, arith, Bytes, length}
use hosa.Sysbpf.Btf.{stuck, type_size, find_from, find_in}

le-type_size : (types : Bytes) (pos : ℕ) → 12 ≤ type_size types pos
unfolding type_size
le-type_size types pos = omega arith

find_from-ne-stuck :
    (fuel : ℕ) (types strings name : Bytes) (id pos : ℕ)
    → 0 < fuel
    → length types < fuel + pos
    → find_from fuel types strings name id pos ≢ stuck
unfolding find_from
find_from-ne-stuck zero types strings name id pos f h = absurd (omega arith)
find_from-ne-stuck (suc fuel) types strings name id pos f h = ground (
  arith,
  le-type_size types pos,
  find_from-ne-stuck fuel types strings name ((id + 1) % 2 ^ 32) (pos + type_size types pos),
)

-- The loop over the types ends on every section, whatever the bytes say: each round moves on by 12
-- bytes at least, so as many rounds as the section has bytes, and one, are enough.
pub find_in-ne-stuck : (types strings name : Bytes) → find_in types strings name ≢ stuck
unfolding find_in
find_in-ne-stuck types strings name =
    find_from-ne-stuck (suc (length types)) types strings name 1 0 (omega arith) (omega arith)
