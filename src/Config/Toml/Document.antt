-- ===== src/Config/Toml/Document.antt =====
-- internal/config/toml.go: the parser on the text of a whole document.
use hosa.Prelude.{ℕ, suc, ◌≡◌, refl, false, ◌∙◌, ap, List, [], ◌∷◌, ◌++◌, ◌<◌, Bytes, codes, arith}
use hosa.Strings.{split, has_prefix}
use hosa.Strings.Parts.{Lacks, Solid, Lacks-append, split-append}
use hosa.Config.Toml.{
  Table, table, skip, section_header, assignment, full_key, read_line, parse_lines,
  parse_toml_bytes,
}
use hosa.Config.Toml.RoundTrip.{
  IsWord, IsKey, IsSection, quoted, bare-IsWritten, quoted-IsWritten, assignment_text, header_text,
  read_line-assignment, read_line-header, read_line-comment, read_line-blank,
}

-- A line of a configuration file, as it is meant.
pub data Entry : Type 0 where
  blank : Entry
  comment : Bytes → Entry
  header : Bytes → Entry
  key_value quoted_value : Bytes → Bytes → Entry

abbrev pub entry_text : Entry → Bytes
entry_text blank = []
entry_text (comment text) = b'#' ∷ text
entry_text (header name) = header_text name
entry_text (key_value key value) = assignment_text key value
entry_text (quoted_value key value) = assignment_text key (quoted value)

abbrev pub IsEntry : Entry → Type 0
IsEntry blank = Unit
IsEntry (comment text) = Lacks b'\n' text
IsEntry (header name) = IsSection name
IsEntry (key_value key value) = IsKey key × (IsWord value × (has_prefix value (codes "\"") ≡ false))
IsEntry (quoted_value key value) = IsKey key × Solid value

abbrev pub AreEntries : List Entry → Type 0
AreEntries [] = Unit
AreEntries (e ∷ es) = IsEntry e × AreEntries es

-- The text of a document: a line break stands behind every entry.
abbrev pub document_text : List Entry → Bytes
document_text [] = []
document_text (e ∷ es) = entry_text e ++ b'\n' ∷ document_text es

-- Beyond ASCII, `TrimSpace` also takes the white space of Unicode away, which `trim_space` does not.
abbrev pub AreAscii : Bytes → Type 0
AreAscii [] = Unit
AreAscii (c ∷ s) = (c < 128) × AreAscii s

-- What a document means: the settings, the newest first, each under its section.
abbrev pub settings_of : List Entry → Bytes → Table → Table
settings_of [] section t = t
settings_of (blank ∷ es) section t = settings_of es section t
settings_of (comment text ∷ es) section t = settings_of es section t
settings_of (header name ∷ es) section t = settings_of es name t
settings_of (key_value key value ∷ es) section t =
    settings_of es section ((full_key section key, value) ∷ t)
settings_of (quoted_value key value ∷ es) section t =
    settings_of es section ((full_key section key, value) ∷ t)

line_texts : List Entry → List Bytes
line_texts [] = [] ∷ []
line_texts (e ∷ es) = entry_text e ∷ line_texts es

Solid-Lacks : (s : Bytes) → Solid s → Lacks b'\n' s
Solid-Lacks [] h = tt
Solid-Lacks (c ∷ s) h = (ground (arith, h.0), Solid-Lacks s h.1)

assignment_text-Lacks :
    (key raw : Bytes) → IsKey key → IsWord raw → Lacks b'\n' (assignment_text key raw)
assignment_text-Lacks key raw k w =
    Lacks-append b'\n' key (codes " = " ++ raw) (Solid-Lacks key k.word.solid)
      (omega arith, (omega arith, (omega arith, Solid-Lacks raw w.solid)))

entry_text-Lacks : (e : Entry) → IsEntry e → Lacks b'\n' (entry_text e)
entry_text-Lacks blank h = tt
entry_text-Lacks (comment text) h = (omega arith, h)
entry_text-Lacks (header name) h =
    (omega arith, Lacks-append b'\n' name (codes "]") (Solid-Lacks name h.solid) (omega arith, tt))
entry_text-Lacks (key_value key value) h = assignment_text-Lacks key value h.0 h.1.0
entry_text-Lacks (quoted_value key value) h =
    assignment_text-Lacks key (quoted value) h.0 (quoted-IsWritten value h.1).word

split-document_text :
    (es : List Entry) → AreEntries es → split b'\n' (document_text es) ≡ line_texts es
unfolding split line_texts
split-document_text [] h = refl
split-document_text (e ∷ es) h =
    split-append b'\n' (entry_text e) (document_text es) (entry_text-Lacks e h.0)
    ∙ ap (λ ls. entry_text e ∷ ls) (split-document_text es h.1)

parse_lines-none :
    (lineno : ℕ) (section : Bytes) (t : Table) → parse_lines [] lineno section t ≡ table t
unfolding parse_lines
parse_lines-none lineno section t = refl

parse_lines-skip :
    (raw : Bytes) (lines : List Bytes) (lineno : ℕ) (section : Bytes) (t : Table)
    → read_line raw ≡ skip
    → parse_lines (raw ∷ lines) lineno section t ≡ parse_lines lines (suc lineno) section t
unfolding parse_lines
parse_lines-skip raw lines lineno section t h = ground (arith, h)

parse_lines-header :
    (raw : Bytes) (lines : List Bytes) (lineno : ℕ) (section name : Bytes) (t : Table)
    → read_line raw ≡ section_header name
    → parse_lines (raw ∷ lines) lineno section t ≡ parse_lines lines (suc lineno) name t
unfolding parse_lines
parse_lines-header raw lines lineno section name t h = ground (arith, h)

parse_lines-assignment :
    (raw : Bytes) (lines : List Bytes) (lineno : ℕ) (section key value : Bytes) (t : Table)
    → read_line raw ≡ assignment key value
    → parse_lines (raw ∷ lines) lineno section t
      ≡ parse_lines lines (suc lineno) section ((full_key section key, value) ∷ t)
unfolding parse_lines
parse_lines-assignment raw lines lineno section key value t h = ground (arith, h)

parse_lines-line_texts :
    (es : List Entry) (lineno : ℕ) (section : Bytes) (t : Table)
    → AreEntries es
    → parse_lines (line_texts es) lineno section t ≡ table (settings_of es section t)
unfolding line_texts
parse_lines-line_texts [] n section t h =
    parse_lines-skip [] [] n section t read_line-blank ∙ parse_lines-none (suc n) section t
parse_lines-line_texts (blank ∷ es) n section t h =
    parse_lines-skip [] (line_texts es) n section t read_line-blank
    ∙ parse_lines-line_texts es (suc n) section t h.1
parse_lines-line_texts (comment text ∷ es) n section t h =
    parse_lines-skip (b'#' ∷ text) (line_texts es) n section t (read_line-comment text)
    ∙ parse_lines-line_texts es (suc n) section t h.1
parse_lines-line_texts (header name ∷ es) n section t h =
    parse_lines-header (header_text name) (line_texts es) n section name t
      (read_line-header name h.0)
    ∙ parse_lines-line_texts es (suc n) name t h.1
parse_lines-line_texts (key_value key value ∷ es) n section t h =
    parse_lines-assignment (assignment_text key value) (line_texts es) n section key value t
      (read_line-assignment key value value h.0.0 (bare-IsWritten value h.0.1.0 h.0.1.1))
    ∙ parse_lines-line_texts es (suc n) section ((full_key section key, value) ∷ t) h.1
parse_lines-line_texts (quoted_value key value ∷ es) n section t h =
    parse_lines-assignment (assignment_text key (quoted value)) (line_texts es) n section key value
      t (read_line-assignment key (quoted value) value h.0.0 (quoted-IsWritten value h.0.1))
    ∙ parse_lines-line_texts es (suc n) section ((full_key section key, value) ∷ t) h.1

-- Reading the text of a document, all of whose bytes are ASCII, gives exactly its settings: each key under the section it stands
-- in, the newest first, with blank lines and comments left out and the quotes of a value taken off.
-- The names of sections, the keys and the values hold no white space, a key holds at least one
-- byte, no `=`, and starts with neither `#` nor `[`, a value without quotes holds at least one byte
-- and does not start with a quote, a section's name has no `]`, and a comment has no line break.
pub parse_toml_bytes-document_text :
    (es : List Entry)
    → AreEntries es
    → AreAscii (document_text es)
    → parse_toml_bytes (document_text es) ≡ table (settings_of es [] [])
unfolding parse_toml_bytes
parse_toml_bytes-document_text es h ascii =
    rw (split-document_text es h) (parse_lines-line_texts es 0 [] [] h)
