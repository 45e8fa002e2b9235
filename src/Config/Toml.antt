-- ===== src/Config/Toml.antt =====
-- internal/config/toml.go: the parser of the configuration file, and the typed reads of its table.
pub mod Document
pub mod RoundTrip
use hosa.Prelude.{
  ℕ, suc, ◌&&◌, Bool, true, false, Option, none, some, List, [], ◌∷◌, ◌++◌, Bytes, codes, bytes_eq,
  is_empty, ◌==◌, if◌then◌else◌, ◌||◌,
}
use hosa.Prelude.Int.{ℤ}
use hosa.Float.{Float}
use hosa.Strings.{atoi, split, trim_space, has_prefix, cut}

-- The keys with their values, the newest first.
abbrev pub Table : Type 0
Table = List (Bytes × Bytes)

pub data TomlError : Type 0 where
  unclosed_section no_equals : ℕ → TomlError

pub data Parsed : Type 0 where
  table : Table → Parsed
  toml_error : TomlError → Parsed

-- What stands before the first occurrence of the two bytes, if they occur.
unfoldable pub before_pair : ℕ → ℕ → Bytes → Option Bytes
before_pair a b [] = none
before_pair a b (c ∷ s) =
    if c == a && has_prefix s (b ∷ []) then some [] else push c (before_pair a b s)
  where
    push : ℕ → Option Bytes → Option Bytes
    push c none = none
    push c (some t) = some (c ∷ t)

abbrev pub strip_comment : Bytes → Bytes
strip_comment raw = elim (before_pair b' ' b'#' raw) [ none ↦ raw | some t ↦ trim_space t ]

-- The text without its last byte, if that is a quote.
unfoldable pub strip_last_quote : Bytes → Option Bytes
strip_last_quote [] = none
strip_last_quote (c ∷ []) = if c == b'"' then some [] else none
strip_last_quote (c ∷ d ∷ s) = push c (strip_last_quote (d ∷ s))
  where
    push : ℕ → Option Bytes → Option Bytes
    push c none = none
    push c (some t) = some (c ∷ t)

abbrev pub or_else : Bytes → Option Bytes → Bytes
or_else d none = d
or_else d (some t) = t

-- Both quotes are stripped, of a text of at least two bytes.
unfoldable pub strip_quotes : Bytes → Bytes
unfolding strip_last_quote
strip_quotes [] = []
strip_quotes (c ∷ s) = if c == b'"' then or_else (c ∷ s) (strip_last_quote s) else c ∷ s

abbrev pub full_key : Bytes → Bytes → Bytes
full_key section key = if is_empty section then key else section ++ b'.' ∷ key

abbrev pub drop_head : Bytes → Bytes
drop_head [] = []
drop_head (c ∷ s) = s

-- A line of the file does nothing, opens a section, or sets a key.
pub data Line : Type 0 where
  skip : Line
  section_header : Bytes → Line
  assignment : Bytes → Bytes → Line
  unclosed missing_equals : Line

abbrev pub header_of : Option (Bytes × Bytes) → Line
header_of none = unclosed
header_of (some (before, after)) = section_header (trim_space (drop_head before))

abbrev pub assignment_of : Option (Bytes × Bytes) → Line
assignment_of none = missing_equals
assignment_of (some (key, raw)) =
    assignment (trim_space key) (strip_quotes (strip_comment (trim_space raw)))

unfoldable pub read_line : Bytes → Line
unfolding before_pair strip_quotes
read_line raw =
    let line = trim_space raw in
    if is_empty line || has_prefix line (codes "#")
    then skip
    else if has_prefix line (codes "[")
    then header_of (cut b']' line)
    else assignment_of (cut b'=' line)

-- The loop over the lines: the number of the line, the section and the table so far.
unfoldable pub parse_lines : List Bytes → ℕ → Bytes → Table → Parsed
parse_lines [] lineno section t = table t
parse_lines (raw ∷ lines) lineno section t = elim (read_line raw) [
  | skip ↦ parse_lines lines (suc lineno) section t
  | section_header name ↦ parse_lines lines (suc lineno) name t
  | assignment key value ↦
      parse_lines lines (suc lineno) section ((full_key section key, value) ∷ t)
  | unclosed ↦ toml_error (unclosed_section (suc lineno))
  | missing_equals ↦ toml_error (no_equals (suc lineno))
]

unfoldable pub parse_toml_bytes : Bytes → Parsed
unfolding parse_lines read_line
parse_toml_bytes text = parse_lines (split b'\n' text) 0 [] []

unfoldable pub lookup : Table → Bytes → Option Bytes
lookup [] key = none
lookup ((k, v) ∷ t) key = if bytes_eq k key then some v else lookup t key

abbrev pub value_or {ℓ} : {A : Type ℓ} → A → Option A → A
value_or d none = d
value_or d (some v) = v

abbrev pub read_as {ℓ} : {A : Type ℓ} → (Bytes → Option A) → Option Bytes → Option A
read_as parse none = none
read_as parse (some v) = parse v

unfoldable pub get_string : Table → Bytes → Bytes → Bytes
get_string t key d = value_or d (lookup t key)

unfoldable pub get_float : {F : Type 0} ⦃fl : Float F⦄ → Table → Bytes → F → F
get_float ⦃fl⦄ t key d = value_or d (read_as fl.parse (lookup t key))

unfoldable pub get_int : Table → Bytes → ℤ → ℤ
get_int t key d = value_or d (read_as atoi (lookup t key))

abbrev pub is_one_of : List Bytes → Bytes → Bool
is_one_of [] s = false
is_one_of (w ∷ ws) s = bytes_eq s w || is_one_of ws s

-- strconv.ParseBool
unfoldable pub parse_bool : Bytes → Option Bool
parse_bool s =
    if is_one_of
      (codes "1" ∷ codes "t" ∷ codes "T" ∷ codes "TRUE" ∷ codes "true" ∷ codes "True" ∷ []) s
    then some true
    else if is_one_of
        (codes "0" ∷ codes "f" ∷ codes "F" ∷ codes "FALSE" ∷ codes "false" ∷ codes "False" ∷ []) s
    then some false
    else none

unfoldable pub get_bool : Table → Bytes → Bool → Bool
unfolding parse_bool
get_bool t key d = value_or d (read_as parse_bool (lookup t key))
