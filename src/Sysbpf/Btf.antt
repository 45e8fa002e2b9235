-- ===== src/Sysbpf/Btf.antt =====
-- internal/sysbpf/struct_ops.go: the search of a type by its name in a BTF blob.
pub mod Fuel
pub mod Search
use hosa.Prelude.{
  ℕ, zero, suc, ◌+◌, ◌-◌, ◌*◌, ◌/◌, ◌%◌, ◌^◌, Bool, true, false, ◌||◌, Option, none, some, [],
  Bytes, bytes_eq, length, take, drop, leb, ltb, not, ◌==◌, if◌then◌else◌,
}
use hosa.Outcome.{Outcome, ok, err, panic, ◌>>=◌, btf_size, btf_magic, btf_truncated, btf_not_found}
use hosa.Sysbpf.Words.{little, slice, read_word, read_u16, read_u32}
use hosa.Sysbpf.Elf.{until_nul}

-- `btfExtraSize`, by the kind of the type.
unfoldable pub btf_extra_size : ℕ → ℕ → ℕ
btf_extra_size kind vlen =
    if kind == 1 || kind == 14 || kind == 17
    then 4
    else if kind == 3
    then 12
    else if kind == 4 || kind == 5 || kind == 15 || kind == 19
    then vlen * 12
    else if kind == 6 || kind == 13
    then vlen * 8
    else 0

-- `getString`: an offset past the section is the empty name.
unfoldable pub string_at : Bytes → ℕ → Bytes
unfolding until_nul
string_at strings off = if leb (length strings) off then [] else until_nul (drop off strings)

abbrev pub word_of : Bytes → ℕ → ℕ
word_of s at = little (take 4 (drop at s))

-- The number of bytes that the type at `pos` takes.
unfoldable pub type_size : Bytes → ℕ → ℕ
unfolding btf_extra_size little
type_size types pos =
    let info = word_of types (pos + 4) in 12 + btf_extra_size (info / 2 ^ 24 % 32) (info % 2 ^ 16)

-- The result of the loop: `stuck` is no result of the code, the fuel ran out.
pub data Found : Type 0 where
  at_id : ℕ → Found
  not_found : Found
  stuck : Found

-- The loop over the types, with the next identifier and the place of its type; an identifier wraps
-- at 2^32.
unfoldable pub find_from : ℕ → Bytes → Bytes → Bytes → ℕ → ℕ → Found
unfolding string_at type_size
find_from zero types strings name id pos = stuck
find_from (suc fuel) types strings name id pos =
    let rest = find_from fuel types strings name ((id + 1) % 2 ^ 32) (pos + type_size types pos) in
    if ltb (length types) (pos + 12)
    then not_found
    else if bytes_eq (string_at strings (word_of types pos)) name
    then at_id id
    else rest

abbrev pub to_outcome : Found → Outcome ℕ
to_outcome (at_id n) = ok n
to_outcome not_found = err btf_not_found
to_outcome stuck = panic

-- The loop over the section of types: a round takes 12 bytes at least.
unfoldable pub find_in : Bytes → Bytes → Bytes → Found
unfolding find_from
find_in types strings name = find_from (suc (length types)) types strings name 1 0

-- uint32(a + b)
abbrev pub add_u32 : ℕ → ℕ → ℕ
add_u32 a b = (a + b) % 2 ^ 32

unfoldable pub find_btf_type_by_name : Bytes → Bytes → Outcome ℕ
unfolding slice read_word find_in
find_btf_type_by_name s name =
    if ltb (length s) 24
    then err btf_size
    else if not (little (take 2 s) == 0xeb9f)
    then err btf_magic
    else (let hdr_len = word_of s 4 in
        let type_len = word_of s 12 in
        let str_len = word_of s 20 in
        let type_start = add_u32 hdr_len (word_of s 8) in
        let str_start = add_u32 hdr_len (word_of s 16) in
        if ltb (length s % 2 ^ 32) (add_u32 type_start type_len)
          || ltb (length s % 2 ^ 32) (add_u32 str_start str_len)
        then err btf_truncated
        else (do
          types ← slice s type_start (add_u32 type_start type_len)
          strings ← slice s str_start (add_u32 str_start str_len)
          to_outcome (find_in types strings name)))
