-- ===== src/Strings/Path.antt =====
-- What the code uses of Go's package path/filepath: `Join`, with the lexical cleaning that it does.
use hosa.Prelude.{
  ◌≡◌, refl, Bool, true, false, ◌||◌, Option, none, some, List, [], ◌∷◌, ◌++◌, append_assoc,
  append-nil, Bytes, codes, bytes_eq, is_empty, if◌then◌else◌,
}
use hosa.Strings.{split, has_prefix}
use hosa.Strings.Parts.{Lacks, split-Lacks, split-append}

-- The elements of a path, each behind a `/`.
abbrev pub rooted_text : List Bytes → Bytes
rooted_text [] = []
rooted_text (c ∷ cs) = b'/' ∷ (c ++ rooted_text cs)

abbrev cons_init : Bytes → Option (List Bytes × Bytes) → Option (List Bytes × Bytes)
cons_init c none = some ([], c)
cons_init c (some (cs, l)) = some (c ∷ cs, l)

-- All elements but the last, and the last.
abbrev unsnoc : List Bytes → Option (List Bytes × Bytes)
unsnoc [] = none
unsnoc (c ∷ cs) = cons_init c (unsnoc cs)

-- An element `..` takes the one before it away; at the root it is dropped.
abbrev go_up : Bool → List Bytes → List Bytes
go_up rooted out = elim (unsnoc out) [
  | none ↦ if rooted then [] else codes ".." ∷ []
  | some (cs, l) ↦ if bytes_eq l (codes "..") then out ++ codes ".." ∷ [] else cs
]

abbrev clean_step : Bool → List Bytes → Bytes → List Bytes
clean_step rooted out c =
    if is_empty c || bytes_eq c (codes ".")
    then out
    else if bytes_eq c (codes "..")
    then go_up rooted out
    else out ++ c ∷ []

abbrev clean_elements : Bool → List Bytes → List Bytes → List Bytes
clean_elements rooted out [] = out
clean_elements rooted out (c ∷ cs) = clean_elements rooted (clean_step rooted out c) cs

abbrev path_text : Bool → List Bytes → Bytes
path_text true [] = codes "/"
path_text true (c ∷ cs) = rooted_text (c ∷ cs)
path_text false [] = codes "."
path_text false (c ∷ cs) = c ++ rooted_text cs

-- filepath.Clean
unfoldable pub clean : Bytes → Bytes
unfolding bytes_eq split has_prefix
clean [] = codes "."
clean (b ∷ p) =
    let rooted = has_prefix (b ∷ p) (codes "/") in
    path_text rooted (clean_elements rooted [] (split b'/' (b ∷ p)))

-- filepath.Join of two elements; empty ones are ignored.
unfoldable pub path_join : Bytes → Bytes → Bytes
unfolding clean
path_join [] [] = []
path_join [] (c ∷ q) = clean (c ∷ q)
path_join (b ∷ p) q = clean ((b ∷ p) ++ b'/' ∷ q)

-- An element that stays in a path: not empty, and neither `.` nor `..`.
abbrev pub IsElement : Bytes → Type 0
IsElement c =
    Lacks b'/' c
    × (is_empty c ≡ false)
    × (bytes_eq c (codes ".") ≡ false)
    × (bytes_eq c (codes "..") ≡ false)

abbrev pub AllElements : List Bytes → Type 0
AllElements [] = Unit
AllElements (c ∷ cs) = IsElement c × AllElements cs

pub split-rooted_text :
    (c : Bytes) (cs : List Bytes)
    → Lacks b'/' c
    → AllElements cs
    → split b'/' (c ++ rooted_text cs) ≡ c ∷ cs
split-rooted_text c [] h a = rw (append-nil c) (split-Lacks b'/' c h)
split-rooted_text c (d ∷ cs) h a =
    rw (split-append b'/' c (d ++ rooted_text cs) h, split-rooted_text d cs a.0.0 a.1) refl

pub clean_elements-kept :
    (out cs : List Bytes) → AllElements cs → clean_elements true out cs ≡ out ++ cs
clean_elements-kept out [] a = rw (append-nil out) refl
clean_elements-kept out (c ∷ cs) a =
    rw (a.0.1, a.0.2, a.0.3, clean_elements-kept (out ++ c ∷ []) cs a.1) (simp append_assoc)
