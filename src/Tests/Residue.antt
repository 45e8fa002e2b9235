-- ===== src/Tests/Residue.antt =====
-- A field in which nothing is rounded: the numbers modulo 7, where every count up to six divides.
use hosa.Prelude.{
  ℕ, zero, suc, ◌+◌, ◌*◌, ◌%◌, ◌^◌, ◌<◌, ◌≡◌, refl, sym, ap, ◌∙◌, Bool, true, false, ◌&&◌, none,
  arith, ◌==◌, ==_iff,
}
use hosa.Float.{Float, ◌⊕◌, ◌⊖◌, ◌⊗◌, ◌⊘◌, nought}
use hosa.Brain.Welford.Exact.{IsExact}

pub data Residue : Type 0 where
  r0 r1 r2 r3 r4 r5 r6 : Residue

abbrev value : Residue → ℕ
value r0 = 0
value r1 = 1
value r2 = 2
value r3 = 3
value r4 = 4
value r5 = 5
value r6 = 6

abbrev pick : ℕ → Residue
pick zero = r0
pick (suc zero) = r1
pick (suc (suc zero)) = r2
pick (suc (suc (suc zero))) = r3
pick (suc (suc (suc (suc zero)))) = r4
pick (suc (suc (suc (suc (suc zero))))) = r5
pick (suc (suc (suc (suc (suc (suc n)))))) = r6

abbrev next : Residue → Residue
next x = pick ((value x + 1) % 7)

abbrev count : ℕ → Residue
count zero = r0
count (suc n) = next (count n)

-- The operations that `Update` and `Covariance` use; the others are not those of numbers.
instance abbrev pub residue_float : Float Residue
residue_float = record {
  add = λ x y. pick ((value x + value y) % 7);
  sub = λ x y. pick ((value x + 6 * value y) % 7);
  mul = λ x y. pick (value x * value y % 7);
  div = λ x y. pick (value x * value y ^ 5 % 7);
  sqrt = λ x. x;
  log2 = λ x. x;
  abs = λ x. x;
  lt = λ x y. false;
  le = λ x y. false;
  eq = λ x y. value x == value y;
  of_ℕ = count;
  lit = λ m k. count m;
  to_ℕ = value;
  parse = λ s. none;
}

pick-value : (x : Residue) → pick (value x) ≡ x
pick-value r0 = refl
pick-value r1 = refl
pick-value r2 = refl
pick-value r3 = refl
pick-value r4 = refl
pick-value r5 = refl
pick-value r6 = refl

same_value : (x y : Residue) → (value x == value y) ≡ true → x ≡ y
same_value x y h = sym (pick-value x) ∙ ap pick ((==_iff (value x) (value y)).0 h) ∙ pick-value y

-- A test that all residues pass.
abbrev every : (Residue → Bool) → Bool
every p = p r0 && (p r1 && (p r2 && (p r3 && (p r4 && (p r5 && p r6)))))

every-at : (p : Residue → Bool) (x : Residue) → every p ≡ true → p x ≡ true
every-at p r0 h = ground (arith, h)
every-at p r1 h = ground (arith, h)
every-at p r2 h = ground (arith, h)
every-at p r3 h = ground (arith, h)
every-at p r4 h = ground (arith, h)
every-at p r5 h = ground (arith, h)
every-at p r6 h = ground (arith, h)

law1 :
    (f g : Residue → Residue)
    → every (λ x. value (f x) == value (g x)) ≡ true
    → (x : Residue) → f x ≡ g x
law1 f g h x = same_value (f x) (g x) (every-at (λ x. value (f x) == value (g x)) x h)

law2 :
    (f g : Residue → Residue → Residue)
    → every (λ x. every (λ y. value (f x y) == value (g x y))) ≡ true
    → (x y : Residue) → f x y ≡ g x y
law2 f g h x = law1 (f x) (g x) (every-at (λ x. every (λ y. value (f x y) == value (g x y))) x h)

law3 :
    (f g : Residue → Residue → Residue → Residue)
    → every (λ x. every (λ y. every (λ z. value (f x y z) == value (g x y z)))) ≡ true
    → (x y z : Residue) → f x y z ≡ g x y z
law3 f g h x =
    law2 (f x) (g x)
      (every-at (λ x. every (λ y. every (λ z. value (f x y z) == value (g x y z)))) x h)

next_mul : (a x : Residue) → next a ⊗ x ≡ a ⊗ x ⊕ x
next_mul = law2 (λ a x. next a ⊗ x) (λ a x. a ⊗ x ⊕ x) refl

count_next : (n : ℕ) → count (n + 1) ≡ next (count n)
count_next n = let e : n + 1 ≡ suc n = omega arith in ap count e

count_div : (n : ℕ) (x : Residue) → n < 3 → count (suc n) ⊗ (x ⊘ count (suc n)) ≡ x
count_div zero x h = law1 (λ x. r1 ⊗ (x ⊘ r1)) (λ x. x) refl x
count_div (suc zero) x h = law1 (λ x. r2 ⊗ (x ⊘ r2)) (λ x. x) refl x
count_div (suc (suc zero)) x h = law1 (λ x. r3 ⊗ (x ⊘ r3)) (λ x. x) refl x
count_div (suc (suc (suc n))) x h = absurd (omega arith)

pub residue-IsExact : IsExact Residue 3
residue-IsExact = record {
  add_assoc = law3 (λ x y z. (x ⊕ y) ⊕ z) (λ x y z. x ⊕ (y ⊕ z)) refl;
  add_comm = law2 (λ x y. x ⊕ y) (λ x y. y ⊕ x) refl;
  mul_assoc = law3 (λ x y z. (x ⊗ y) ⊗ z) (λ x y z. x ⊗ (y ⊗ z)) refl;
  mul_comm = law2 (λ x y. x ⊗ y) (λ x y. y ⊗ x) refl;
  mul_add = law3 (λ x y z. x ⊗ (y ⊕ z)) (λ x y z. x ⊗ y ⊕ x ⊗ z) refl;
  zero_add = law1 (λ x. nought ⊕ x) (λ x. x) refl;
  zero_mul = law1 (λ x. nought ⊗ x) (λ x. nought) refl;
  sub_add = law2 (λ x y. (x ⊖ y) ⊕ y) (λ x y. x) refl;
  add_sub = law2 (λ x y. (x ⊕ y) ⊖ y) (λ x y. x) refl;
  suc_mul = λ n x. ap (λ c. c ⊗ x) (count_next n) ∙ next_mul (count n) x;
  mul_div = λ n x h. ap (λ c. c ⊗ (x ⊘ c)) (count_next n) ∙ count_div n x h;
}
