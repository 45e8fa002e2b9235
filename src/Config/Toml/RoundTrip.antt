-- ===== src/Config/Toml/RoundTrip.antt =====
-- internal/config/toml.go: what the parser reads of one line, for each form a line has.
use hosa.Prelude.{
  ◌≡◌, ◌≢◌, refl, subst, ◌∙◌, true, false, none, some, [], ◌∷◌, ◌++◌, append_assoc, Bytes, codes,
  arith,
}
use hosa.Strings.{trim_left, trim_right, trim_space, cut, has_prefix}
use hosa.Strings.Parts.{Lacks, Solid, Lacks-append, Solid-append, trim_space-Solid, cut-append}
use hosa.Strings.Trim.{
  trim_right-append, trim_right-blank, trim_left-word, trim_space-blank, trim_right-head,
  is_empty-append, has_prefix_first,
}
use hosa.Config.Toml.{
  skip, section_header, assignment, assignment_of, before_pair, strip_comment, strip_quotes,
  strip_last_quote, read_line,
}

-- A word: no white space in it, and at least one byte.
pub record IsWord (w : Bytes) : Type 0 where
  pub solid : Solid w
  pub some_byte : w ≢ []

before_pair-Solid : (s : Bytes) → Solid s → before_pair b' ' b'#' s ≡ none
unfolding before_pair
before_pair-Solid [] h = refl
before_pair-Solid (c ∷ s) h = ground (arith, before_pair-Solid s h.1)

-- The text of an assignment: `key = value`.
abbrev pub assignment_text : Bytes → Bytes → Bytes
assignment_text key value = key ++ (codes " = " ++ value)

-- What a key may be: a word that starts neither a comment nor a section, without `=`.
pub record IsKey (k : Bytes) : Type 0 where
  pub word : IsWord k
  pub no_equals : Lacks b'=' k
  pub no_comment : has_prefix k (codes "#") ≡ false
  pub no_header : has_prefix k (codes "[") ≡ false

-- How a value may be written: a word, which means what stands between its quotes, if it has any.
pub record IsWritten (raw value : Bytes) : Type 0 where
  pub word : IsWord raw
  pub unquoted : strip_quotes raw ≡ value

strip_quotes_bare : (v : Bytes) → has_prefix v (codes "\"") ≡ false → strip_quotes v ≡ v
unfolding strip_quotes has_prefix
strip_quotes_bare [] h = refl
strip_quotes_bare (c ∷ v) h = ground (arith, h)

-- How a value may be written bare: a word that does not start with a quote.
pub bare-IsWritten : (v : Bytes) → IsWord v → has_prefix v (codes "\"") ≡ false → IsWritten v v
bare-IsWritten v w h = record { word = w; unquoted = strip_quotes_bare v h }

strip_last_quote-append : (v : Bytes) → strip_last_quote (v ++ codes "\"") ≡ some v
unfolding strip_last_quote
strip_last_quote-append [] = refl
strip_last_quote-append (c ∷ []) = refl
strip_last_quote-append (c ∷ d ∷ v) = rw (strip_last_quote-append (d ∷ v)) refl

-- The text between quotes.
abbrev pub quoted : Bytes → Bytes
quoted v = b'"' ∷ (v ++ codes "\"")

strip_quotes-quoted : (v : Bytes) → strip_quotes (quoted v) ≡ v
unfolding strip_quotes
strip_quotes-quoted v = rw (strip_last_quote-append v) refl

pub quoted-IsWritten : (v : Bytes) → Solid v → IsWritten (quoted v) v
quoted-IsWritten v h = record {
  word = record { solid = (refl, Solid-append v (codes "\"") h (refl, tt)); some_byte = λ e. cc };
  unquoted = strip_quotes-quoted v;
}

trim_right-assignment :
    (key value : Bytes)
    → IsWord value
    → trim_right (assignment_text key value) ≡ assignment_text key value
trim_right-assignment key value v =
    subst (λ t. trim_right t ≡ t) (append_assoc key (codes " = ") value)
      (trim_right-append (key ++ codes " = ") value v.solid v.some_byte)

trim_space-assignment :
    (key value : Bytes)
    → IsKey key
    → IsWord value
    → trim_space (assignment_text key value) ≡ assignment_text key value
unfolding trim_space
trim_space-assignment [] value k v = absurd (k.word.some_byte refl)
trim_space-assignment (c ∷ key) value k v =
    rw (trim_left-word c (key ++ (codes " = " ++ value)) (k.word.solid.0))
      (trim_right-assignment (c ∷ key) value v)

trim_space-key : (key : Bytes) → IsWord key → trim_space (key ++ codes " ") ≡ key
unfolding trim_space
trim_space-key [] k = absurd (k.some_byte refl)
trim_space-key (c ∷ key) k =
    rw (trim_left-word c (key ++ codes " ") (k.solid.0)) (trim_right-blank (c ∷ key) k.solid)

strip_comment_bare : (value : Bytes) → Solid value → strip_comment value ≡ value
strip_comment_bare value h = rw (before_pair-Solid value h, strip_comment)

trim_space-value : (value : Bytes) → Solid value → trim_space (b' ' ∷ value) ≡ value
trim_space-value value h = trim_space-blank value ∙ trim_space-Solid value h

cut-assignment :
    (key value : Bytes)
    → Lacks b'=' key
    → cut b'=' (assignment_text key value) ≡ some (key ++ codes " ", b' ' ∷ value)
cut-assignment key value h =
    subst (λ t. cut b'=' t ≡ some (key ++ codes " ", b' ' ∷ value))
      (append_assoc key (codes " ") (codes "= " ++ value))
      (cut-append b'=' (key ++ codes " ") (b' ' ∷ value)
        (Lacks-append b'=' key (codes " ") h (omega arith, tt)))

assignment_of-texts :
    (key raw value : Bytes)
    → IsKey key
    → IsWritten raw value
    → assignment_of (some (key ++ codes " ", b' ' ∷ raw)) ≡ assignment key value
assignment_of-texts key raw value k w = rw (
  trim_space-key key k.word,
  trim_space-value raw w.word.solid,
  strip_comment_bare raw w.word.solid,
  w.unquoted,
)

pub read_line-assignment :
    (key raw value : Bytes)
    → IsKey key
    → IsWritten raw value
    → read_line (assignment_text key raw) ≡ assignment key value
unfolding read_line
read_line-assignment key raw value k w =
    let rest = codes " = " ++ raw in
    rw
      (
        trim_space-assignment key raw k w.word,
        is_empty-append key rest k.word.some_byte,
        has_prefix_first b'#' key rest k.word.some_byte k.no_comment,
        has_prefix_first b'[' key rest k.word.some_byte k.no_header,
        cut-assignment key raw k.no_equals,
      )
      (assignment_of-texts key raw value k w)

-- The text of a section's header.
abbrev pub header_text : Bytes → Bytes
header_text name = b'[' ∷ (name ++ codes "]")

-- What a section's name may be: without white space and `]`.
pub record IsSection (name : Bytes) : Type 0 where
  pub solid : Solid name
  pub no_bracket : Lacks b']' name

cut-header : (name : Bytes) → IsSection name → cut b']' (header_text name) ≡ some (b'[' ∷ name, [])
cut-header name h = cut-append b']' (b'[' ∷ name) [] (omega arith, h.no_bracket)

header_text-Solid : (name : Bytes) → Solid name → Solid (header_text name)
header_text-Solid name h = (refl, Solid-append name (codes "]") h (refl, tt))

pub read_line-header :
    (name : Bytes) → IsSection name → read_line (header_text name) ≡ section_header name
unfolding read_line has_prefix
read_line-header name h =
    rw
      (
        trim_space-Solid (header_text name) (header_text-Solid name h.solid),
        cut-header name h,
        trim_space-Solid name h.solid,
      )
      refl

read_line-comment_trimmed :
    (raw : Bytes) → has_prefix (trim_space raw) (codes "#") ≡ true → read_line raw ≡ skip
unfolding read_line
read_line-comment_trimmed raw h = ground (arith, h)

pub read_line-comment : (text : Bytes) → read_line (b'#' ∷ text) ≡ skip
unfolding trim_space trim_left
read_line-comment text = read_line-comment_trimmed (b'#' ∷ text) (trim_right-head b'#' text refl)

pub read_line-blank : read_line [] ≡ skip
unfolding read_line trim_space trim_left trim_right
read_line-blank = refl
