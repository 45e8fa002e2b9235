-- ===== src/Sysbpf/Dict.antt =====
-- The Go maps of internal/sysbpf: association lists with one entry for each key, in the order of
-- the first insertions.
use hosa.Prelude.{Option, none, some, List, [], ◌∷◌, Bytes, bytes_eq, if◌then◌else◌}
use hosa.Prelude.Int.{ℤ, eqb_ℤ}

module _ {ℓ} {V : Type ℓ} where
  unfoldable pub find : Bytes → List (Bytes × V) → Option V
  find k [] = none
  find k ((j, v) ∷ m) = if bytes_eq j k then some v else find k m

  unfoldable pub insert : Bytes → V → List (Bytes × V) → List (Bytes × V)
  insert k v [] = (k, v) ∷ []
  insert k v ((j, w) ∷ m) = if bytes_eq j k then (k, v) ∷ m else (j, w) ∷ insert k v m

-- A map from the indices of instructions to the names of maps.
unfoldable pub insert_ref : ℤ → Bytes → List (ℤ × Bytes) → List (ℤ × Bytes)
insert_ref i name [] = (i, name) ∷ []
insert_ref i name ((j, n) ∷ m) = if eqb_ℤ j i then (i, name) ∷ m else (j, n) ∷ insert_ref i name m
