-- ===== src/Syscgroup/Reads.antt =====
-- internal/syscgroup/file_edit.go: what is read of /proc and of the cgroup file system, and the
-- cgroup of the agent. What the files hold is an argument, `none` for one that cannot be read.
pub mod Located
pub mod Memory
use hosa.Prelude.{
  ℕ, Bool, true, false, Option, none, some, List, [], ◌∷◌, ◌++◌, Bytes, codes, if◌then◌else◌,
}
use hosa.Prelude.Int.{ℤ}
use hosa.Strings.{format_int, parse_uint, trim_space, split, has_prefix}
use hosa.Strings.Path.{path_join}

pub data ReadError : Type 0 where
  unreadable : ReadError
  no_cgroup_v2 : ReadError
  invalid_value : Bytes → ReadError
  mkdir_failed : ReadError

pub data ReadResult (A : Type 0) : Type 0 where
  found : A → ReadResult A
  failed : ReadError → ReadResult A

abbrev pub cgroup_root : Bytes
cgroup_root = codes "/sys/fs/cgroup"

-- strings.TrimPrefix, where the prefix is there.
abbrev drop_prefix : Bytes → Bytes → Bytes
drop_prefix [] s = s
drop_prefix (p ∷ ps) [] = []
drop_prefix (p ∷ ps) (c ∷ s) = drop_prefix ps s

-- The loop over the lines of /proc/<pid>/cgroup.
unfoldable pub find_v2 : List Bytes → ReadResult Bytes
unfolding has_prefix trim_space path_join
find_v2 [] = failed no_cgroup_v2
find_v2 (line ∷ lines) =
    let rest = find_v2 lines in
    if has_prefix line (codes "0::")
    then found (path_join cgroup_root (trim_space (drop_prefix (codes "0::") line)))
    else rest

abbrev in_lines : Option Bytes → ReadResult Bytes
in_lines none = failed unreadable
in_lines (some text) = find_v2 (split b'\n' text)

abbrev pub proc_file : ℤ → Bytes
proc_file pid = codes "/proc/" ++ format_int pid ++ codes "/cgroup"

unfoldable pub cgroup_path : (Bytes → Option Bytes) → ℤ → ReadResult Bytes
unfolding find_v2 split format_int
cgroup_path files pid = in_lines (files (proc_file pid))

abbrev trimmed : Option Bytes → ReadResult Bytes
trimmed none = failed unreadable
trimmed (some text) = found (trim_space text)

unfoldable pub read_control : (Bytes → Option Bytes) → Bytes → Bytes → ReadResult Bytes
unfolding path_join trim_space
read_control files cg_path filename = trimmed (files (path_join cg_path filename))

abbrev number_of : Bytes → Option ℕ → ReadResult ℕ
number_of text none = failed (invalid_value text)
number_of text (some n) = found n

abbrev to_number : ReadResult Bytes → ReadResult ℕ
to_number (failed e) = failed e
to_number (found text) = number_of text (parse_uint text)

unfoldable pub get_memory_current : (Bytes → Option Bytes) → Bytes → ReadResult ℕ
unfolding read_control parse_uint
get_memory_current files cg_path = to_number (read_control files cg_path (codes "memory.current"))

-- `made` says whether `os.MkdirAll` succeeds on the path.
unfoldable pub ensure_hosa_cgroup_at : (Bytes → Bool) → Bytes → ReadResult Bytes
ensure_hosa_cgroup_at made path = if made path then found path else failed mkdir_failed

unfoldable pub ensure_hosa_cgroup : (Bytes → Bool) → ReadResult Bytes
unfolding ensure_hosa_cgroup_at path_join
ensure_hosa_cgroup made = ensure_hosa_cgroup_at made (path_join cgroup_root (codes "hosa"))
