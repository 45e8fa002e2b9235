-- ===== src/Outcome.antt =====
-- The result of a Go function that may return an error or panic, and `for` loops over it.
pub mod Loops
pub mod Safe
pub mod Ensures
pub mod Partly
use hosa.Prelude.{ℕ, zero, suc, ◌-◌, ◌≡◌, Bool, true, false, ◌⊎◌, inl, inr, refl}

-- The errors of internal/linalg, internal/state, internal/brain and internal/sysbpf, and those that
-- the collector and the loader of the scheduler add.
pub data GoError : Type 0 where
  reading_size : GoError
  mul_dimensions sub_dimensions : GoError
  not_square singular : GoError
  too_few_samples : GoError
  welford_size welford_too_few : GoError
  stress_dimensions : GoError
  elf_size elf_magic elf_class elf_order elf_header_bounds elf_no_programs : GoError
  relocation_map relocation_bounds : GoError
  btf_size btf_magic btf_truncated btf_not_found : GoError
  file_unreadable id_invalid bytecode_empty bytecode_size type_id_zero : GoError
  call_failed : GoError
  no_map no_probe no_struct_ops : GoError

pub data Outcome {ℓ} (A : Type ℓ) : Type ℓ where
  ok : A → Outcome A
  err : GoError → Outcome A
  -- An index out of range, or an assignment to a nil map.
  panic : Outcome A

infixl 5 ◌>>=◌
abbrev pub ◌>>=◌ {ℓ κ} : {A : Type ℓ} {B : Type κ} → Outcome A → (A → Outcome B) → Outcome B
ok a >>= f = f a
err e >>= f = err e
panic >>= f = panic

-- for k = i; k < i + n; k++ { s = body(k, s) }
unfoldable pub for_from {ℓ} : {S : Type ℓ} → ℕ → ℕ → (ℕ → S → Outcome S) → S → Outcome S
for_from zero i body s = ok s
for_from (suc n) i body s = body i s >>= for_from n (suc i) body

-- for k = 0; k < n; k++ { s = body(k, s) }
unfoldable pub for_range {ℓ} : {S : Type ℓ} → ℕ → (ℕ → S → Outcome S) → S → Outcome S
unfolding for_from
for_range n body s = for_from n 0 body s

-- for k = lo; k < hi; k++ { s = body(k, s) }
unfoldable pub for_between {ℓ} : {S : Type ℓ} → ℕ → ℕ → (ℕ → S → Outcome S) → S → Outcome S
unfolding for_from
for_between lo hi body s = for_from (hi - lo) lo body s

-- Two nested loops, over the cells of a table of `rows` times `cols`.
unfoldable pub for_cells {ℓ} : {S : Type ℓ} → ℕ → ℕ → (ℕ → ℕ → S → Outcome S) → S → Outcome S
unfolding for_range
for_cells rows cols body s = for_range rows (λ i. for_range cols (body i)) s
