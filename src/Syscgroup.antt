-- ===== src/Syscgroup.antt =====
-- internal/syscgroup/file_edit.go over a model of the cgroup file system: which writes the kernel
-- accepts is an argument, a function of how many writes were tried before. The text of an error is
-- left out.
pub mod Files
pub mod Reads
use hosa.Prelude.{
  ℕ, suc, ◌+◌, ◌<◌, ◌≡◌, Bool, true, false, ◌&&◌, Option, none, some, List, [], ◌∷◌, Bytes, codes,
  bytes_eq, ltb, ◌==◌, if◌then◌else◌,
}
use hosa.Strings.Path.{clean}
use hosa.Strings.{format_uint, parse_uint, trim_space, split, has_prefix}

-- The control files that the agent writes.
pub data ControlFile : Type 0 where
  memory_high memory_max memory_swappiness memory_swap_max : ControlFile
  cpu_weight cpuset_cpus cgroup_procs subtree_control : ControlFile

abbrev pub file_id : ControlFile → ℕ
file_id memory_high = 0
file_id memory_max = 1
file_id memory_swappiness = 2
file_id memory_swap_max = 3
file_id cpu_weight = 4
file_id cpuset_cpus = 5
file_id cgroup_procs = 6
file_id subtree_control = 7

pub record Write : Type 0 where
  pub path : Bytes
  pub file : ControlFile
  pub value : Bytes

pub record Kernel : Type 0 where
  pub accepts : ℕ → Bool
  -- How many writes were tried.
  pub tried : ℕ
  -- The accepted writes, the newest first.
  pub writes : List Write

pub data WriteError : Type 0 where
  write_failed : Bytes → ControlFile → WriteError

-- The path of the file is `filepath.Join` of that of the cgroup and a name, so that two spellings of
-- a cgroup are the same cgroup.
abbrev pub same_file : Bytes → ControlFile → Write → Bool
same_file path file w = file_id w.file == file_id file && bytes_eq (clean w.path) (clean path)

-- The newest value written to a file.
unfoldable pub newest : Bytes → ControlFile → List Write → Option Bytes
newest path file [] = none
newest path file (w ∷ ws) = if same_file path file w then some w.value else newest path file ws

abbrev pub content : Kernel → Bytes → ControlFile → Option Bytes
content k path file = newest path file k.writes

unfoldable pub write_control : Bytes → ControlFile → Bytes → Kernel → Kernel × Option WriteError
write_control path file value k =
    let tried = record k { tried = suc k.tried } in
    if k.accepts k.tried
    then (
      record tried { writes = record { path = path; file = file; value = value } ∷ k.writes },
      none,
    )
    else (tried, some (write_failed path file))

abbrev pub limit_text : ℕ → Bytes
limit_text bytes = if ltb 0 bytes then format_uint bytes else codes "max"

unfoldable pub set_memory_high : Bytes → ℕ → Kernel → Kernel × Option WriteError
unfolding write_control
set_memory_high path bytes k = write_control path memory_high (limit_text bytes) k

unfoldable pub set_memory_max : Bytes → ℕ → Kernel → Kernel × Option WriteError
unfolding write_control
set_memory_max path bytes k = write_control path memory_max (limit_text bytes) k

unfoldable pub move_process : Bytes → ℕ → Kernel → Kernel × Option WriteError
unfolding write_control
move_process path pid k = write_control path cgroup_procs (format_uint pid) k
