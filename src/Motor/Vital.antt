-- ===== src/Motor/Vital.antt =====
-- internal/motor/survival.go: `EnsureVitalCgroup`. Whether `os.MkdirAll` succeeds, and what the two
-- files of the parent hold, are arguments; a file that cannot be read is `none`.
pub mod Controllers
use hosa.Prelude.{
  ℕ, Bool, true, false, ◌&&◌, Option, none, some, List, [], ◌∷◌, ◌++◌, Bytes, codes, not, ◌==◌,
  if◌then◌else◌,
}
use hosa.Strings.{trim_space}
use hosa.Sensor.Discovery.{contains}
use hosa.Syscgroup.{Kernel, write_control, subtree_control}

-- The files of the parent, as they are when they are read.
pub record ParentFiles : Type 0 where
  pub controllers : Option Bytes
  pub subtree : Option Bytes

-- The control group could not be made, or the path has no `/`, which is a slice out of range.
pub data Ensured : Type 0 where
  ensured : Kernel → Ensured
  mkdir_failed : Ensured
  slice_panic : Ensured

-- What stands before the last byte `b`: s[:strings.LastIndex(s, b)], if `b` occurs.
unfoldable pub before_last : ℕ → Bytes → Option Bytes
before_last b [] = none
before_last b (c ∷ s) = or_here (before_last b s) c (c == b)
  where
    or_here : Option Bytes → ℕ → Bool → Option Bytes
    or_here (some t) c here = some (c ∷ t)
    or_here none c here = if here then some [] else none

-- The text that ReadControl returns, empty on an error.
abbrev pub text_of : Option Bytes → Bytes
text_of none = []
text_of (some text) = trim_space text

abbrev pub needed : List Bytes
needed = codes "cpu" ∷ codes "cpuset" ∷ codes "memory" ∷ []

-- One round of the loop over the needed controllers; the error of the write is dropped.
unfoldable pub enable : Bytes → Bytes → Bytes → Bytes → Kernel → Kernel
unfolding write_control
enable parent controllers subtree ctrl k =
    if contains ctrl controllers && not (contains ctrl subtree)
    then (write_control parent subtree_control (b'+' ∷ ctrl) k).0
    else k

abbrev pub enable_all : Bytes → Bytes → Bytes → List Bytes → Kernel → Kernel
enable_all parent controllers subtree [] k = k
enable_all parent controllers subtree (ctrl ∷ ctrls) k =
    enable_all parent controllers subtree ctrls (enable parent controllers subtree ctrl k)

abbrev pub with_parent : ParentFiles → Option Bytes → Kernel → Ensured
with_parent files none k = slice_panic
with_parent files (some parent) k = elim (files.controllers) [
  | none ↦ ensured k
  | some text ↦ ensured (enable_all parent (trim_space text) (text_of files.subtree) needed k)
]

unfoldable pub ensure_vital_cgroup : Bool → ParentFiles → Bytes → Kernel → Ensured
unfolding before_last enable
ensure_vital_cgroup made files vital_path k =
    if made then with_parent files (before_last b'/' vital_path) k else mkdir_failed
