-- ===== src/Motor/Vital/Controllers.antt =====
-- internal/motor/survival.go: which controllers `EnsureVitalCgroup` enables.
use hosa.Prelude.{ℕ, ◌≡◌, refl, ap, true, some, none, [], ◌∷◌, ◌++◌, Bytes, codes, arith}
use hosa.Strings.{trim_space, has_prefix, index_of}
use hosa.Strings.Parts.{Lacks}
use hosa.Sensor.Discovery.{contains}
use hosa.Syscgroup.{Kernel}
use hosa.Motor.Vital.{
  ParentFiles, ensured, before_last, text_of, needed, enable, enable_all, ensure_vital_cgroup,
}

contains-cons :
    (pat : Bytes) (c : ℕ) (s : Bytes) → contains pat s ≡ true → contains pat (c ∷ s) ≡ true
unfolding index_of
contains-cons pat c s h = ground (arith, h)

-- What occurs in a text occurs in every text that ends in it.
contains-append : (pat s t : Bytes) → contains pat t ≡ true → contains pat (s ++ t) ≡ true
contains-append pat [] t h = h
contains-append pat (c ∷ s) t h = contains-cons pat c (s ++ t) (contains-append pat s t h)

contains_cpu : (t : Bytes) → contains (codes "cpu") (codes "cpuset" ++ t) ≡ true
unfolding index_of has_prefix
contains_cpu t = refl

contains_cpuset : (t : Bytes) → contains (codes "cpuset") (codes "cpuset" ++ t) ≡ true
unfolding index_of has_prefix
contains_cpuset t = refl

before_last-Lacks : (b : ℕ) (s : Bytes) → Lacks b s → before_last b s ≡ none
unfolding before_last
before_last-Lacks b [] h = refl
before_last-Lacks b (c ∷ s) h = ground (arith, before_last-Lacks b s h.1)

before_last-append : (b : ℕ) (s t : Bytes) → Lacks b t → before_last b (s ++ b ∷ t) ≡ some s
unfolding before_last
before_last-append b [] t h = ground (arith, before_last-Lacks b t h)
before_last-append b (c ∷ s) t h = ground (arith, before_last-append b s t h)

enable-delegated :
    (parent controllers subtree ctrl : Bytes) (k : Kernel)
    → contains ctrl subtree ≡ true
    → enable parent controllers subtree ctrl k ≡ k
unfolding enable
enable-delegated parent controllers subtree ctrl k h = ground (arith, h)

-- A text that holds `cpuset` holds `cpu`: both rounds are skipped.
enable_all-cpuset :
    (parent controllers before after : Bytes) (k : Kernel)
    → let subtree = before ++ (codes "cpuset" ++ after) in
      enable_all parent controllers subtree needed k
      ≡ enable parent controllers subtree (codes "memory") k
enable_all-cpuset parent controllers before after k =
    let t = codes "cpuset" ++ after in
    rw
      (
        enable-delegated parent controllers (before ++ t) (codes "cpu") k
            (contains-append (codes "cpu") before t (contains_cpu after)),
        enable-delegated parent controllers (before ++ t) (codes "cpuset") k
            (contains-append (codes "cpuset") before t (contains_cpuset after)),
      )
      refl

-- When the parent already delegates `cpuset`, the memory controller is the only one that the call
-- tries to enable, whether the parent delegates `cpu` or not, since the text `cpu` occurs in
-- `cpuset`. It is assumed that the directory is made, that the list of controllers can be read, and
-- that the path is a parent, a slash and a name without a slash.
pub ensure_vital_cgroup-cpuset :
    (files : ParentFiles) (parent name controllers before after : Bytes) (k : Kernel)
    → Lacks b'/' name
    → files.controllers ≡ some controllers
    → text_of files.subtree ≡ before ++ (codes "cpuset" ++ after)
    → ensure_vital_cgroup true files (parent ++ b'/' ∷ name) k
      ≡ ensured (enable parent (trim_space controllers) (text_of files.subtree) (codes "memory") k)
unfolding ensure_vital_cgroup
ensure_vital_cgroup-cpuset files parent name controllers before after k hn hc hs =
    rw (before_last-append b'/' parent name hn, hc, hs)
      (ap ensured (enable_all-cpuset parent (trim_space controllers) before after k))
