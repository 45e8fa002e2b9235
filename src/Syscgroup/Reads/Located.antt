-- ===== src/Syscgroup/Reads/Located.antt =====
-- Where `CgroupPath` of internal/syscgroup/file_edit.go finds the cgroup of a process.
use hosa.Prelude.{
  ◌≡◌, refl, ap, ◌∙◌, false, Option, some, List, [], ◌∷◌, ◌++◌, Bytes, codes, bytes_eq, arith,
}
use hosa.Prelude.Int.{ℤ}
use hosa.Strings.{split, has_prefix}
use hosa.Strings.Parts.{Lacks, Lacks-append, split-append, Solid, Solid-append, trim_space-Solid}
use hosa.Strings.Path.{
  rooted_text, path_join, clean, AllElements, split-rooted_text, clean_elements-kept,
}
use hosa.Syscgroup.Reads.{cgroup_root, proc_file, cgroup_path, find_v2, found}

-- Lines of the file that are not those of cgroup v2.
abbrev pub AllOther : List Bytes → Type 0
AllOther [] = Unit
AllOther (line ∷ lines) =
    (has_prefix line (codes "0::") ≡ false) × Lacks b'\n' line × AllOther lines

-- The lines before `rest`, each with its newline.
abbrev pub lines_before : List Bytes → Bytes → Bytes
lines_before [] rest = rest
lines_before (line ∷ lines) rest = line ++ b'\n' ∷ lines_before lines rest

abbrev pub AllSolid : List Bytes → Type 0
AllSolid [] = Unit
AllSolid (c ∷ cs) = Solid c × AllSolid cs

rooted_text-Solid : (cs : List Bytes) → AllSolid cs → Solid (rooted_text cs)
rooted_text-Solid [] h = tt
rooted_text-Solid (c ∷ cs) h =
    (refl, Solid-append c (rooted_text cs) h.0 (rooted_text-Solid cs h.1))

Solid-Lacks : (s : Bytes) → Solid s → Lacks b'\n' s
Solid-Lacks [] h = tt
Solid-Lacks (c ∷ s) h = (ground (arith, h.0), Solid-Lacks s h.1)

find_v2-lines_before :
    (lines : List Bytes) (rest : Bytes)
    → AllOther lines
    → find_v2 (split b'\n' (lines_before lines rest)) ≡ find_v2 (split b'\n' rest)
unfolding find_v2
find_v2-lines_before [] rest h = refl
find_v2-lines_before (line ∷ lines) rest h =
    rw (split-append b'\n' line (lines_before lines rest) h.1, h.0)
      (find_v2-lines_before lines rest h.2)

-- Below the root of the cgroup file system the elements of a path stay as they are.
path_join-cgroup_root :
    (cs : List Bytes)
    → AllElements cs
    → path_join cgroup_root (rooted_text cs) ≡ cgroup_root ++ rooted_text cs
unfolding path_join clean split has_prefix bytes_eq
path_join-cgroup_root cs a =
    rw
      (
        split-rooted_text [] cs tt a,
        clean_elements-kept (codes "sys" ∷ codes "fs" ∷ codes "cgroup" ∷ []) cs a,
      )
      refl

find_v2_line :
    (cs : List Bytes) (after : Bytes)
    → AllElements cs
    → AllSolid cs
    → find_v2 (split b'\n' ((codes "0::" ++ rooted_text cs) ++ b'\n' ∷ after))
      ≡ found (cgroup_root ++ rooted_text cs)
unfolding find_v2 has_prefix
find_v2_line cs after a s =
    let solid = rooted_text-Solid cs s in
    let whole : Lacks b'\n' (codes "0::" ++ rooted_text cs) =
      Lacks-append b'\n' (codes "0::") (rooted_text cs) (ground arith)
        (Solid-Lacks (rooted_text cs) solid) in
    rw
      (
        split-append b'\n' (codes "0::" ++ rooted_text cs) after whole,
        trim_space-Solid (rooted_text cs) solid,
      )
      (ap found (path_join-cgroup_root cs a))

-- The cgroup of a process is the directory of its path below /sys/fs/cgroup, wherever the line of
-- cgroup v2 stands among those of other hierarchies, and whatever follows it. The elements of the
-- path are neither empty nor `.` or `..` and hold no white space.
pub cgroup_path_lem :
    (files : Bytes → Option Bytes) (pid : ℤ) (lines cs : List Bytes) (after : Bytes)
    → AllOther lines
    → AllElements cs
    → AllSolid cs
    → files (proc_file pid)
      ≡ some (lines_before lines ((codes "0::" ++ rooted_text cs) ++ b'\n' ∷ after))
    → cgroup_path files pid ≡ found (cgroup_root ++ rooted_text cs)
unfolding cgroup_path
cgroup_path_lem files pid lines cs after h a s e = rw e (
    find_v2-lines_before lines ((codes "0::" ++ rooted_text cs) ++ b'\n' ∷ after) h
    ∙ find_v2_line cs after a s)
