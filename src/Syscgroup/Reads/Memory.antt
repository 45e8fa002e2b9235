-- ===== src/Syscgroup/Reads/Memory.antt =====
-- What `GetMemoryCurrent` of internal/syscgroup/file_edit.go reads.
use hosa.Prelude.{ℕ, ◌^◌, ◌<◌, ◌≡◌, refl, ◌++◌, Option, some, [], ◌∷◌, Bytes, codes}
use hosa.Strings.{format_uint}
use hosa.Strings.Decimal.{format_uint-AllDigits, parse_uint-format_uint}
use hosa.Strings.Parts.{digits-Solid}
use hosa.Strings.Trim.{trim_space-newline}
use hosa.Strings.Path.{path_join}
use hosa.Syscgroup.Reads.{read_control, get_memory_current, found}

-- The number that the kernel prints, with its newline, is read back, if it fits a uint64.
pub get_memory_current-format_uint :
    (files : Bytes → Option Bytes) (cg_path : Bytes) (n : ℕ)
    → n < 2 ^ 64
    → files (path_join cg_path (codes "memory.current")) ≡ some (format_uint n ++ b'\n' ∷ [])
    → get_memory_current files cg_path ≡ found n
unfolding get_memory_current read_control
get_memory_current-format_uint files cg_path n h e =
    rw
      (
        e,
        trim_space-newline (format_uint n) (digits-Solid (format_uint n) (format_uint-AllDigits n)),
        parse_uint-format_uint n h,
      )
      refl
