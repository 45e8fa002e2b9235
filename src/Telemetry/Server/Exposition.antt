-- ===== src/Telemetry/Server/Exposition.antt =====
-- The text of /metrics, read back by a reader of the exposition format.
use Prim.Native.String.{String}
use hosa.Prelude.{
  ℕ, ◌≡◌, refl, sym, ap, ◌∙◌, Option, none, some, List, [], ◌∷◌, ◌++◌, append_assoc, append-nil,
  Bytes, codes, bytes_eq, bytes_eq_refl, is_empty, arith, ◌&&◌, if◌then◌else◌,
}
use hosa.Float.{Float}
use hosa.Strings.{split, cut}
use hosa.Strings.Parts.{Lacks, Lacks-append, split-append, cut-append}
use hosa.Telemetry.{Snapshot}
use hosa.Telemetry.Server.{
  write_metric, handle_metrics, Response, metrics_text, serve, help_stress, help_dot, help_level,
  help_frag,
}

-- What a reader of the format takes from the three lines.
pub record Family : Type 0 where
  pub name : Bytes
  pub typ : Bytes
  pub help : Bytes
  pub value : Bytes

unfoldable strip_prefix : Bytes → Bytes → Option Bytes
strip_prefix [] s = some s
strip_prefix (p ∷ ps) [] = none
strip_prefix (p ∷ ps) (c ∷ s) = if bytes_eq (p ∷ []) (c ∷ []) then strip_prefix ps s else none

abbrev cut_word : Option Bytes → Option (Bytes × Bytes)
cut_word none = none
cut_word (some s) = cut b' ' s

-- A family, where the three lines name the same metric.
abbrev same_name :
    Option (Bytes × Bytes) → Option (Bytes × Bytes) → Option (Bytes × Bytes) → Option Family
same_name (some (n, help)) (some (m, typ)) (some (k, value)) =
    if bytes_eq n m && bytes_eq n k
    then some (record { name = n; typ = typ; help = help; value = value })
    else none
same_name _ _ _ = none

abbrev cons_family : Option Family → Option (List Family) → Option (List Family)
cons_family (some f) (some fs) = some (f ∷ fs)
cons_family _ _ = none

-- The families of a text that ends in a newline, three lines each.
unfoldable read_lines : List Bytes → Option (List Family)
unfolding strip_prefix
read_lines [] = none
read_lines (h ∷ []) = if is_empty h then some [] else none
read_lines (h ∷ t ∷ []) = none
read_lines (h ∷ t ∷ s ∷ rest) =
    cons_family
      (same_name (cut_word (strip_prefix (codes "# HELP ") h))
        (cut_word (strip_prefix (codes "# TYPE ") t)) (cut b' ' s))
      (read_lines rest)

unfoldable pub read_exposition : Bytes → Option (List Family)
unfolding read_lines
read_exposition text = read_lines (split b'\n' text)

-- A family that the format can carry: no newline, and no blank in the name.
abbrev IsPlain : Family → Type 0
IsPlain f =
    Lacks b' ' f.name
    × Lacks b'\n' f.name
    × Lacks b'\n' f.typ
    × Lacks b'\n' f.help
    × Lacks b'\n' f.value

abbrev AllPlain : List Family → Type 0
AllPlain [] = Unit
AllPlain (f ∷ fs) = IsPlain f × AllPlain fs

-- The three lines of a family without their newlines.
abbrev help_line : Family → Bytes
help_line f = codes "# HELP " ++ f.name ++ b' ' ∷ f.help

abbrev type_line : Family → Bytes
type_line f = codes "# TYPE " ++ f.name ++ b' ' ∷ f.typ

abbrev value_line : Family → Bytes
value_line f = f.name ++ b' ' ∷ f.value

-- The text of a family before `rest`.
abbrev lines_of : Family → Bytes → Bytes
lines_of f rest = help_line f ++ b'\n' ∷ (type_line f ++ b'\n' ∷ (value_line f ++ b'\n' ∷ rest))

abbrev text_of : List Family → Bytes
text_of [] = []
text_of (f ∷ fs) = lines_of f (text_of fs)

write_metric-lines_of :
    (b : Bytes) (f : Family) (rest : Bytes)
    → write_metric b f.name f.typ f.help f.value ++ rest ≡ b ++ lines_of f rest
unfolding write_metric
write_metric-lines_of b f rest = simp append_assoc

-- The builder after one `writeMetric` for each family.
abbrev write_all : Bytes → List Family → Bytes
write_all b [] = b
write_all b (f ∷ fs) = write_all (write_metric b f.name f.typ f.help f.value) fs

write_all-text_of : (b : Bytes) (fs : List Family) → write_all b fs ≡ b ++ text_of fs
write_all-text_of b [] = sym (append-nil b)
write_all-text_of b (f ∷ fs) =
    write_all-text_of (write_metric b f.name f.typ f.help f.value) fs
    ∙ write_metric-lines_of b f (text_of fs)

read_three :
    (f : Family)
    → IsPlain f
    → same_name
        (cut_word (strip_prefix (codes "# HELP ") (help_line f)))
        (cut_word (strip_prefix (codes "# TYPE ") (type_line f)))
        (cut b' ' (value_line f))
      ≡ some f
unfolding strip_prefix bytes_eq
read_three f p =
    rw
      (
        cut-append b' ' f.name f.help p.0,
        cut-append b' ' f.name f.typ p.0,
        cut-append b' ' f.name f.value p.0,
        bytes_eq_refl f.name,
      )
      refl

blank_apart : (s t : Bytes) → Lacks b'\n' s → Lacks b'\n' t → Lacks b'\n' (s ++ b' ' ∷ t)
blank_apart s t h k = Lacks-append b'\n' s (b' ' ∷ t) h (ground arith, k)

split-lines_of :
    (f : Family) (rest : Bytes)
    → IsPlain f
    → split b'\n' (lines_of f rest) ≡ help_line f ∷ type_line f ∷ value_line f ∷ split b'\n' rest
split-lines_of f rest p =
    let value_goes_on = value_line f ++ b'\n' ∷ rest in
    split-append b'\n' (help_line f) (type_line f ++ b'\n' ∷ value_goes_on) (
      Lacks-append b'\n' (codes "# HELP ") (f.name ++ b' ' ∷ f.help) (ground arith)
        (blank_apart f.name f.help p.1 p.3))
    ∙ ap (λ x. help_line f ∷ x)
        (split-append b'\n' (type_line f) value_goes_on (
          Lacks-append b'\n' (codes "# TYPE ") (f.name ++ b' ' ∷ f.typ) (ground arith)
            (blank_apart f.name f.typ p.1 p.2)))
    ∙ ap (λ x. help_line f ∷ type_line f ∷ x)
        (split-append b'\n' (value_line f) rest (blank_apart f.name f.value p.1 p.4))

read_exposition-lines_of :
    (f : Family) (rest : Bytes)
    → IsPlain f
    → read_exposition (lines_of f rest) ≡ cons_family (some f) (read_exposition rest)
unfolding read_exposition read_lines
read_exposition-lines_of f rest p = rw (split-lines_of f rest p, read_three f p) refl

-- Any number of families is read back, in their order.
read_exposition-text_of : (fs : List Family) → AllPlain fs → read_exposition (text_of fs) ≡ some fs
unfolding read_exposition read_lines split
read_exposition-text_of [] p = refl
read_exposition-text_of (f ∷ fs) p =
    read_exposition-lines_of f (text_of fs) p.0
    ∙ ap (cons_family (some f)) (read_exposition-text_of fs p.1)

abbrev gauge : String → Bytes → Bytes → Family
gauge name help value = record {
  name = codes name;
  typ = codes "gauge";
  help = help;
  value = value;
}

module _ {F : Type 0} ⦃fl : Float F⦄ where
  -- What a scrape of the snapshot has to give.
  abbrev pub families : (F → Bytes) → Snapshot F → List Family
  families text snap =
      gauge "hosa_dm_stress" help_stress (text snap.dm)
      ∷ gauge "hosa_dm_dot" help_dot (text snap.dm_dot)
      ∷ gauge "hosa_alert_level" help_level (text (fl.of_ℕ snap.level))
      ∷ gauge "hosa_h_frag_norm" help_frag (text snap.h_frag_norm)
      ∷ []

  handle_metrics-text_of :
      (text : F → Bytes) (snap : Snapshot F)
      → handle_metrics text snap ≡ text_of (families text snap)
  unfolding handle_metrics
  handle_metrics-text_of text snap = write_all-text_of [] (families text snap)

  AllPlain-families :
      (text : F → Bytes)
      → ((x : F) → Lacks b'\n' (text x))
      → (snap : Snapshot F) → AllPlain (families text snap)
  AllPlain-families text h snap =
      ground (arith, h snap.dm, h snap.dm_dot, h (fl.of_ℕ snap.level), h snap.h_frag_norm)

  -- What a scrape takes from a response.
  abbrev pub scraped : Response F → Option (List Family)
  scraped (metrics_text body) = read_exposition body
  scraped _ = none

  -- The server answers a request for /metrics with a text which a reader of the exposition format,
  -- who takes three lines for each metric and refuses lines that name different ones, reads back as
  -- the four gauges in their order, each with its help and the text of its value in the snapshot.
  -- The text of a value holds no newline.
  pub scraped-serve :
      (text : F → Bytes)
      → ((x : F) → Lacks b'\n' (text x))
      → (snap : Snapshot F) (now : ℕ)
      → scraped (serve text (codes "/metrics") snap now) ≡ some (families text snap)
  unfolding serve bytes_eq
  scraped-serve text h snap now =
      rw (handle_metrics-text_of text snap)
        (read_exposition-text_of (families text snap) (AllPlain-families text h snap))
