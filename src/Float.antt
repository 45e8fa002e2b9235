-- ===== src/Float.antt =====
-- float64 as the code uses it: a carrier with its operations, and the laws of IEEE 754 that the
-- theorems name. `a > b` is `b <? a` and `a >= b` is `b ≤? a`, also where one of them is NaN.
pub mod Fixed
use hosa.Prelude.{Bytes, Option, ℕ, ◌*◌, ◌^◌, ◌≤◌, ◌<◌, ◌≡◌, Bool, true, false, not}

pub record Float (F : Type 0) : Type 0 where
  pub add : F → F → F
  pub sub : F → F → F
  pub mul : F → F → F
  pub div : F → F → F
  pub sqrt : F → F
  pub log2 : F → F
  pub abs : F → F
  pub lt : F → F → Bool
  pub le : F → F → Bool
  pub eq : F → F → Bool
  -- A whole number converted to float64.
  pub of_ℕ : ℕ → F
  -- The constant m * 10^-k of the source.
  pub lit : ℕ → ℕ → F
  -- The conversion `uint64(x)`, which truncates.
  pub to_ℕ : F → ℕ
  -- strconv.ParseFloat; an error is `none`.
  pub parse : Bytes → Option F

module _ {F : Type 0} ⦃fl : Float F⦄ where
  infix 50 ◌<?◌ ◌≤?◌
  infixl 65 ◌⊕◌ ◌⊖◌
  infixl 70 ◌⊗◌ ◌⊘◌
  abbrev pub ◌<?◌ : F → F → Bool
  ◌<?◌ = fl.lt

  abbrev pub ◌≤?◌ : F → F → Bool
  ◌≤?◌ = fl.le

  abbrev pub ◌⊕◌ : F → F → F
  ◌⊕◌ = fl.add

  abbrev pub ◌⊖◌ : F → F → F
  ◌⊖◌ = fl.sub

  abbrev pub ◌⊗◌ : F → F → F
  ◌⊗◌ = fl.mul

  abbrev pub ◌⊘◌ : F → F → F
  ◌⊘◌ = fl.div

  abbrev pub lit : ℕ → ℕ → F
  lit = fl.lit

  -- The zero value of the type, and the constant 0.
  abbrev pub nought : F
  nought = fl.of_ℕ 0

  -- NaN is the value that is not `<=` itself.
  abbrev pub IsNumber : F → Type 0
  IsNumber x = (x ≤? x) ≡ true

-- What IEEE 754 says of the comparisons, NaN included: a comparison with NaN is false.
pub record IsOrdered (F : Type 0) ⦃fl : Float F⦄ : Type 0 where
  pub numbers_of_le : (x y : F) → (x ≤? y) ≡ true → IsNumber x × IsNumber y
  pub le_trans : (x y z : F) → (x ≤? y) ≡ true → (y ≤? z) ≡ true → (x ≤? z) ≡ true
  pub lt_of_lt_of_le : (x y z : F) → (x <? y) ≡ true → (y ≤? z) ≡ true → (x <? z) ≡ true
  pub le_of_lt : (x y : F) → (x <? y) ≡ true → (x ≤? y) ≡ true
  pub lt-eq-not-le : (x y : F) → IsNumber x → IsNumber y → (x <? y) ≡ not (y ≤? x)
