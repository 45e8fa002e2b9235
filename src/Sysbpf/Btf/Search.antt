-- ===== src/Sysbpf/Btf/Search.antt =====
-- internal/sysbpf/struct_ops.go: the search on the encoding of a list of types.
use hosa.Prelude.{
  ℕ, zero, suc, ◌+◌, ◌*◌, ◌/◌, ◌%◌, ◌^◌, ◌<◌, ◌≤◌, ◌≡◌, ap, ◌∙◌, arith, List, [], ◌∷◌, ◌++◌,
  append_assoc, Bytes, bytes_eq, length, length-append, take, drop, if◌then◌else◌,
}
use hosa.Sysbpf.Words.{little, to_little}
use hosa.Sysbpf.Btf.{
  Found, at_id, not_found, btf_extra_size, string_at, word_of, type_size, find_from, find_in,
}

-- The kinds of linux/btf.h.
pub data Kind : Type 0 where
  void int ptr array struct union enum fwd typedef volatile : Kind
  const restrict func func_proto var datasec float decl_tag type_tag enum64 : Kind

abbrev pub kind_code : Kind → ℕ
kind_code void = 0
kind_code int = 1
kind_code ptr = 2
kind_code array = 3
kind_code struct = 4
kind_code union = 5
kind_code enum = 6
kind_code fwd = 7
kind_code typedef = 8
kind_code volatile = 9
kind_code const = 10
kind_code restrict = 11
kind_code func = 12
kind_code func_proto = 13
kind_code var = 14
kind_code datasec = 15
kind_code float = 16
kind_code decl_tag = 17
kind_code type_tag = 18
kind_code enum64 = 19

-- What follows a type: for some kinds a fixed number of bytes, for others so many for each of the
-- `vlen` members.
abbrev pub extra_bytes : Kind → ℕ → ℕ
extra_bytes int vlen = 4
extra_bytes var vlen = 4
extra_bytes decl_tag vlen = 4
extra_bytes array vlen = 12
extra_bytes struct vlen = vlen * 12
extra_bytes union vlen = vlen * 12
extra_bytes datasec vlen = vlen * 12
extra_bytes enum64 vlen = vlen * 12
extra_bytes enum vlen = vlen * 8
extra_bytes func_proto vlen = vlen * 8
extra_bytes other vlen = 0

-- A type as the kernel writes it: the place of its name, its kind, its `vlen`, its third word, and
-- the bytes that the kind asks for.
pub record BtfType : Type 0 where
  pub name_off : ℕ
  pub kind : Kind
  pub vlen : ℕ
  pub size_or_type : ℕ
  pub extra : Bytes

pub record IsBtfType (t : BtfType) : Type 0 where
  pub name_off_lt : t.name_off < 2 ^ 32
  pub vlen_lt : t.vlen < 2 ^ 16
  pub extra_length : length t.extra ≡ extra_bytes t.kind t.vlen

kind_code-lt : (k : Kind) → kind_code k < 32
kind_code-lt k = ground arith

btf_extra_size-kind_code :
    (k : Kind) (vlen : ℕ) → btf_extra_size (kind_code k) vlen ≡ extra_bytes k vlen
unfolding btf_extra_size
btf_extra_size-kind_code k vlen = ground arith

abbrev pub AreBtfTypes : List BtfType → Type 0
AreBtfTypes [] = Unit
AreBtfTypes (t ∷ ts) = IsBtfType t × AreBtfTypes ts

abbrev pub encode : BtfType → Bytes
encode t =
    to_little 4 t.name_off
    ++ (to_little 4 (kind_code t.kind * 2 ^ 24 + t.vlen) ++ (to_little 4 t.size_or_type ++ t.extra))

abbrev pub encode_all : List BtfType → Bytes
encode_all [] = []
encode_all (t ∷ ts) = encode t ++ encode_all ts

-- The identifier of the first type with the name.
abbrev pub first_named : Bytes → Bytes → List BtfType → ℕ → Found
first_named strings name [] id = not_found
first_named strings name (t ∷ ts) id =
    if bytes_eq (string_at strings t.name_off) name
    then at_id id
    else first_named strings name ts (id + 1)

drop-length : (pre s : Bytes) (k : ℕ) → drop (length pre + k) (pre ++ s) ≡ drop k s
drop-length [] s k = let e : 0 + k ≡ k = omega arith in ap (λ n. drop n s) e
drop-length (x ∷ pre) s k =
    let e : suc (length pre) + k ≡ suc (length pre + k) = omega arith in
    ap (λ n. drop n (x ∷ (pre ++ s))) e ∙ drop-length pre s k

word_of-append : (pre s : Bytes) (k : ℕ) → word_of (pre ++ s) (length pre + k) ≡ word_of s k
word_of-append pre s k = ap (λ l. little (take 4 l)) (drop-length pre s k)

-- The first two words of an encoded type.
word_of-encode :
    (rest : Bytes) (t : BtfType)
    → IsBtfType t
    → (word_of (encode t ++ rest) 0 ≡ t.name_off)
      × (word_of (encode t ++ rest) 4 ≡ kind_code t.kind * 2 ^ 24 + t.vlen)
unfolding to_little little
word_of-encode rest t w =
    (omega (arith, w.name_off_lt), omega (arith, kind_code-lt t.kind, w.vlen_lt))

name_word :
    (pre rest : Bytes) (t : BtfType)
    → IsBtfType t
    → word_of (pre ++ (encode t ++ rest)) (length pre) ≡ t.name_off
name_word pre rest t w =
    let e : length pre ≡ length pre + 0 = omega arith in
    ap (word_of (pre ++ (encode t ++ rest))) e
    ∙ (word_of-append pre (encode t ++ rest) 0 ∙ (word_of-encode rest t w).0)

length-encode : (t : BtfType) → length (encode t) ≡ 12 + length t.extra
unfolding to_little
length-encode t = omega arith

type_size-encode :
    (pre rest : Bytes) (t : BtfType)
    → IsBtfType t
    → type_size (pre ++ (encode t ++ rest)) (length pre) ≡ length (encode t)
unfolding type_size
type_size-encode pre rest t w =
    let e = word_of-append pre (encode t ++ rest) 4 ∙ (word_of-encode rest t w).1 in
    let k : (kind_code t.kind * 2 ^ 24 + t.vlen) / 2 ^ 24 % 32 ≡ kind_code t.kind =
      omega (arith, kind_code-lt t.kind) in
    let v : (kind_code t.kind * 2 ^ 24 + t.vlen) % 2 ^ 16 ≡ t.vlen = omega arith in
    rw (e, k, v)
      (omega (arith, length-encode t, w.extra_length, btf_extra_size-kind_code t.kind t.vlen))

find_from-encode_all :
    (fuel : ℕ) (pre strings name : Bytes) (ts : List BtfType) (id : ℕ)
    → AreBtfTypes ts
    → length ts < fuel
    → length ts + id < 2 ^ 32
    → find_from fuel (pre ++ encode_all ts) strings name id (length pre)
      ≡ first_named strings name ts id
unfolding find_from
find_from-encode_all zero pre strings name ts id a f l = absurd (omega arith)
find_from-encode_all (suc fuel) pre strings name [] id a f l = ground (arith, length-append pre [])
find_from-encode_all (suc fuel) pre strings name (t ∷ ts) id a f l =
    let rest = encode_all ts in
    let types = pre ++ (encode t ++ rest) in
    let p : length pre + type_size types (length pre) ≡ length (pre ++ encode t) =
      omega (arith, type_size-encode pre rest t a.0, length-append pre (encode t)) in
    let i : (id + 1) % 2 ^ 32 ≡ id + 1 = omega arith in
    let ih =
      find_from-encode_all fuel (pre ++ encode t) strings name ts (id + 1) a.1 (omega arith)
        (omega arith) in
    let step : find_from fuel types strings name ((id + 1) % 2 ^ 32)
          (length pre + type_size types (length pre))
        ≡ first_named strings name ts (id + 1) =
      rw (p, i, ← append_assoc pre (encode t) rest) ih in
    ground (
      arith,
      step,
      name_word pre rest t a.0,
      length-append pre (encode t ++ rest),
      length-append (encode t) rest,
      length-encode t,
    )

length-le-encode_all : (ts : List BtfType) → length ts ≤ length (encode_all ts)
length-le-encode_all [] = omega arith
length-le-encode_all (t ∷ ts) =
    omega
      (arith, length-le-encode_all ts, length-append (encode t) (encode_all ts), length-encode t)

-- On the encoding of a list of well-formed types, shorter than 2^32 - 1, the search returns the
-- identifier of the first type with the name, counted from 1, and finds none exactly if there is no
-- such type: the extra bytes of every kind of linux/btf.h are skipped, no more and no less.
pub find_in-encode_all :
    (ts : List BtfType) (strings name : Bytes)
    → AreBtfTypes ts
    → length ts + 1 < 2 ^ 32
    → find_in (encode_all ts) strings name ≡ first_named strings name ts 1
unfolding find_in
find_in-encode_all ts strings name a l =
    find_from-encode_all (suc (length (encode_all ts))) [] strings name ts 1 a
      (omega (arith, length-le-encode_all ts)) l
