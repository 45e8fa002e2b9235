-- ===== src/Syscgroup/Files.antt =====
-- What the control files hold after a write.
use hosa.Prelude.{ℕ, ◌≡◌, ◌≢◌, true, none, some, List, ◌∷◌, Bytes, bytes_eq_refl, arith, ◌⊎◌}
use hosa.Strings.Path.{clean}
use hosa.Syscgroup.{
  ControlFile, Write, Kernel, file_id, newest, content, write_control, write_failed,
}

-- The kernel refuses no write.
abbrev pub AcceptsAll : Kernel → Type 0
AcceptsAll k = (n : ℕ) → k.accepts n ≡ true

pub newest_same :
    (path : Bytes) (file : ControlFile) (value : Bytes) (ws : List Write)
    → newest path file (record { path = path; file = file; value = value } ∷ ws) ≡ some value
unfolding newest
newest_same path file value ws = ground (arith, bytes_eq_refl (clean path))

pub newest_other :
    (path q : Bytes) (file g : ControlFile) (value : Bytes) (ws : List Write)
    → file_id g ≢ file_id file
    → newest path file (record { path = q; file = g; value = value } ∷ ws) ≡ newest path file ws
unfolding newest
newest_other path q file g value ws h = ground arith

-- A write that the kernel accepts is what the file holds afterwards; a write that it refuses
-- is an error and changes no file.
pub write_control_lem :
    (path : Bytes) (file : ControlFile) (value : Bytes) (k : Kernel)
    → let (k', e) = write_control path file value k in
      ((e ≡ none) × (content k' path file ≡ some value))
      ⊎ ((e ≡ some (write_failed path file)) × (k'.writes ≡ k.writes))
unfolding write_control
write_control_lem path file value k = ground (arith, newest_same path file value k.writes)
