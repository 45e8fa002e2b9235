-- ===== src/Float/Fixed.antt =====
-- A concrete value of the float interface for tests and witnesses: fixed-point numbers in units of
-- 1/10000, and a NaN that every comparison refuses.
use hosa.Strings.{digits_value}
use hosa.Prelude.{
  Bytes, Option, none, some, codes, bytes_eq, ℕ, zero, suc, ◌+◌, ◌*◌, ◌/◌, ◌^◌, Bool, false, arith,
  leb, ◌==◌, if◌then◌else◌,
}
use hosa.Prelude.Int.{ℤ, pos, negsuc, pos_part, neg_part, sub_ℕ, ltb_ℤ, leb_ℤ, eqb_ℤ}
use hosa.Float.{Float, IsOrdered}

pub data Fixed : Type 0 where
  nan : Fixed
  fixed : ℤ → Fixed

abbrev on_numbers : (ℤ → ℤ → Bool) → Fixed → Fixed → Bool
on_numbers p (fixed a) (fixed b) = p a b
on_numbers p _ _ = false

abbrev lift : (ℤ → ℤ → Fixed) → Fixed → Fixed → Fixed
lift p (fixed a) (fixed b) = p a b
lift p _ _ = nan

abbrev magnitude : ℤ → ℕ
magnitude a = pos_part a + neg_part a

-- The number with the sign of the product of `a` and `b`, and the given magnitude.
abbrev signed : ℤ → ℤ → ℕ → ℤ
signed (pos _) (pos _) n = pos n
signed (negsuc _) (negsuc _) n = pos n
signed _ _ n = sub_ℕ 0 n

unfoldable pub isqrt : ℕ → ℕ → ℕ
isqrt zero n = 0
isqrt (suc f) n = let r = 2 * isqrt f (n / 4) in if leb ((r + 1) * (r + 1)) n then r + 1 else r

abbrev pub fixed_sqrt : Fixed → Fixed
fixed_sqrt (fixed (pos n)) = fixed (pos (isqrt 64 (n * 10000)))
fixed_sqrt _ = nan

-- The logarithm of a power of two that is not below 1, which is all that the tests need.
halvings : ℕ → ℕ → ℕ
halvings zero n = 0
halvings (suc f) n = let r = suc (halvings f (n / 2)) in if leb n 10000 then 0 else r

unfoldable pub fixed_log2 : Fixed → Fixed
unfolding halvings
fixed_log2 (fixed (pos n)) = fixed (pos (halvings 64 n * 10000))
fixed_log2 _ = nan

abbrev fixed_abs : Fixed → Fixed
fixed_abs nan = nan
fixed_abs (fixed a) = fixed (pos (magnitude a))

abbrev truncate : Fixed → ℕ
truncate nan = 0
truncate (fixed a) = pos_part a / 10000

abbrev divide : ℤ → ℤ → Fixed
divide a b =
    if magnitude b == 0 then nan else fixed (signed a b (magnitude a * 10000 / magnitude b))

-- Whole numbers, and NaN.
abbrev pub parse_whole : Bytes → Option Fixed
parse_whole s =
    if bytes_eq s (codes "NaN")
    then some nan
    else elim (digits_value s) [ none ↦ none | some n ↦ some (fixed (pos (n * 10000))) ]

instance abbrev pub fixed_float : Float Fixed
fixed_float = record {
  add = lift λ a b. fixed (sub_ℕ (pos_part a + pos_part b) (neg_part a + neg_part b));
  sub = lift λ a b. fixed (sub_ℕ (pos_part a + neg_part b) (neg_part a + pos_part b));
  mul = lift λ a b. fixed (signed a b (magnitude a * magnitude b / 10000));
  div = lift divide;
  sqrt = fixed_sqrt;
  log2 = fixed_log2;
  abs = fixed_abs;
  lt = on_numbers ltb_ℤ;
  le = on_numbers leb_ℤ;
  eq = on_numbers eqb_ℤ;
  of_ℕ = λ n. fixed (pos (n * 10000));
  lit = λ m k. fixed (pos (m * 10000 / 10 ^ k));
  to_ℕ = truncate;
  parse = parse_whole;
}

-- Fixed-point numbers satisfy the order laws.
pub Fixed-IsOrdered : IsOrdered Fixed
Fixed-IsOrdered = ground arith
