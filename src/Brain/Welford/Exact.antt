-- ===== src/Brain/Welford/Exact.antt =====
-- The statistics of internal/brain/welford.go in exact arithmetic.
use hosa.Prelude.{ℕ, ◌+◌, ◌<◌, ◌≡◌, sym, ap, ◌∙◌}
use hosa.Float.{Float, ◌⊕◌, ◌⊖◌, ◌⊗◌, ◌⊘◌, nought}

-- The laws of a field, where the division is by a count of `bound` readings at most: nothing is rounded.
pub record IsExact (F : Type 0) ⦃fl : Float F⦄ (bound : ℕ) : Type 0 where
  pub add_assoc : (x y z : F) → (x ⊕ y) ⊕ z ≡ x ⊕ (y ⊕ z)
  pub add_comm : (x y : F) → x ⊕ y ≡ y ⊕ x
  pub mul_assoc : (x y z : F) → (x ⊗ y) ⊗ z ≡ x ⊗ (y ⊗ z)
  pub mul_comm : (x y : F) → x ⊗ y ≡ y ⊗ x
  pub mul_add : (x y z : F) → x ⊗ (y ⊕ z) ≡ x ⊗ y ⊕ x ⊗ z
  pub zero_add : (x : F) → nought ⊕ x ≡ x
  pub zero_mul : (x : F) → nought ⊗ x ≡ nought
  pub sub_add : (x y : F) → (x ⊖ y) ⊕ y ≡ x
  pub add_sub : (x y : F) → (x ⊕ y) ⊖ y ≡ x
  pub suc_mul : (n : ℕ) (x : F) → fl.of_ℕ (n + 1) ⊗ x ≡ fl.of_ℕ n ⊗ x ⊕ x
  pub mul_div : (n : ℕ) (x : F) → n < bound → fl.of_ℕ (n + 1) ⊗ (x ⊘ fl.of_ℕ (n + 1)) ≡ x

module _ {F : Type 0} ⦃fl : Float F⦄ (bound : ℕ) (ex : IsExact F bound) where
  pub add_left_comm : (x y z : F) → x ⊕ (y ⊕ z) ≡ y ⊕ (x ⊕ z)
  add_left_comm x y z =
      sym (ex.add_assoc x y z) ∙ ap (λ w. w ⊕ z) (ex.add_comm x y) ∙ ex.add_assoc y x z

  pub mul_left_comm : (x y z : F) → x ⊗ (y ⊗ z) ≡ y ⊗ (x ⊗ z)
  mul_left_comm x y z =
      sym (ex.mul_assoc x y z) ∙ ap (λ w. w ⊗ z) (ex.mul_comm x y) ∙ ex.mul_assoc y x z

  pub add_mul : (x y z : F) → (x ⊕ y) ⊗ z ≡ x ⊗ z ⊕ y ⊗ z
  add_mul x y z = rw (ex.mul_comm (x ⊕ y) z, ex.mul_comm x z, ex.mul_comm y z) (ex.mul_add z x y)

  -- With e the change of the mean, k the count before the reading and k e + e what it deviates.
  expand :
      (m2 k ei ej mi mj : F)
      → (m2 ⊕ (k ⊗ ei ⊕ ei) ⊗ (k ⊗ ej)) ⊕ (k ⊗ ((mi ⊕ ei) ⊗ (mj ⊕ ej)) ⊕ (mi ⊕ ei) ⊗ (mj ⊕ ej))
        ≡ (m2 ⊕ k ⊗ (mi ⊗ mj)) ⊕ ((k ⊗ ei ⊕ ei) ⊕ mi) ⊗ ((k ⊗ ej ⊕ ej) ⊕ mj)
  expand m2 k ei ej mi mj = simp (
    ex.mul_add, add_mul, ex.mul_assoc, ex.add_assoc, ex.mul_comm, mul_left_comm, ex.add_comm,
    add_left_comm,
  )

  -- The change of the mean, as many times as there are readings.
  suc_change :
      (n : ℕ) (x m : F)
      → n < bound
      → let e = (x ⊖ m) ⊘ fl.of_ℕ (n + 1) in x ≡ (fl.of_ℕ n ⊗ e ⊕ e) ⊕ m
  suc_change n x m h =
      let e = (x ⊖ m) ⊘ fl.of_ℕ (n + 1) in
      let d : fl.of_ℕ n ⊗ e ⊕ e ≡ x ⊖ m = sym (ex.suc_mul n e) ∙ ex.mul_div n (x ⊖ m) h in
      sym (ex.sub_add x m) ∙ ap (λ y. y ⊕ m) (sym d)

  pub mean_step :
      (n : ℕ) (x m s : F)
      → n < bound
      → fl.of_ℕ n ⊗ m ≡ s
      → fl.of_ℕ (n + 1) ⊗ (m ⊕ (x ⊖ m) ⊘ fl.of_ℕ (n + 1)) ≡ s ⊕ x
  mean_step n x m s h g =
      let e = (x ⊖ m) ⊘ fl.of_ℕ (n + 1) in
      let k = fl.of_ℕ n in
      let regroup : k ⊗ (m ⊕ e) ⊕ (m ⊕ e) ≡ k ⊗ m ⊕ ((k ⊗ e ⊕ e) ⊕ m) =
        simp (ex.mul_add, ex.add_assoc, ex.add_comm, add_left_comm) in
      ex.suc_mul n (m ⊕ e)
      ∙ regroup
      ∙ ap (λ y. y ⊕ ((k ⊗ e ⊕ e) ⊕ m)) g
      ∙ ap (λ y. s ⊕ y) (sym (suc_change n x m h))

  -- What a reading deviates from the new mean.
  deviation :
      (n : ℕ) (x m : F)
      → n < bound
      → let e = (x ⊖ m) ⊘ fl.of_ℕ (n + 1) in x ⊖ (m ⊕ e) ≡ fl.of_ℕ n ⊗ e
  deviation n x m h =
      let e = (x ⊖ m) ⊘ fl.of_ℕ (n + 1) in
      let k = fl.of_ℕ n in
      let regroup : (k ⊗ e ⊕ e) ⊕ m ≡ k ⊗ e ⊕ (m ⊕ e) =
        simp (ex.add_assoc, ex.add_comm, add_left_comm) in
      ap (λ y. y ⊖ (m ⊕ e)) (suc_change n x m h ∙ regroup) ∙ ex.add_sub (k ⊗ e) (m ⊕ e)

  pub m2_step :
      (n : ℕ) (m2 q xi xj mi mj : F)
      → n < bound
      → m2 ⊕ fl.of_ℕ n ⊗ (mi ⊗ mj) ≡ q
      → let ei = (xi ⊖ mi) ⊘ fl.of_ℕ (n + 1) in
        let ej = (xj ⊖ mj) ⊘ fl.of_ℕ (n + 1) in
        (m2 ⊕ (xi ⊖ mi) ⊗ (xj ⊖ (mj ⊕ ej))) ⊕ fl.of_ℕ (n + 1) ⊗ ((mi ⊕ ei) ⊗ (mj ⊕ ej))
        ≡ q ⊕ xi ⊗ xj
  m2_step n m2 q xi xj mi mj h g =
      let ei = (xi ⊖ mi) ⊘ fl.of_ℕ (n + 1) in
      let ej = (xj ⊖ mj) ⊘ fl.of_ℕ (n + 1) in
      let k = fl.of_ℕ n in
      let d : xi ⊖ mi ≡ k ⊗ ei ⊕ ei = sym (ex.mul_div n (xi ⊖ mi) h) ∙ ex.suc_mul n ei in
      let means = (mi ⊕ ei) ⊗ (mj ⊕ ej) in
      ap (λ y. (m2 ⊕ y ⊗ (xj ⊖ (mj ⊕ ej))) ⊕ fl.of_ℕ (n + 1) ⊗ means) d
      ∙ ap (λ y. (m2 ⊕ (k ⊗ ei ⊕ ei) ⊗ y) ⊕ fl.of_ℕ (n + 1) ⊗ means) (deviation n xj mj h)
      ∙ ap (λ y. (m2 ⊕ (k ⊗ ei ⊕ ei) ⊗ (k ⊗ ej)) ⊕ y) (ex.suc_mul n means)
      ∙ expand m2 k ei ej mi mj
      ∙ ap (λ y. y ⊕ ((k ⊗ ei ⊕ ei) ⊕ mi) ⊗ ((k ⊗ ej ⊕ ej) ⊕ mj)) g
      ∙ ap (λ y. q ⊕ y ⊗ ((k ⊗ ej ⊕ ej) ⊕ mj)) (sym (suc_change n xi mi h))
      ∙ ap (λ y. q ⊕ xi ⊗ y) (sym (suc_change n xj mj h))
