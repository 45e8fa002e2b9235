-- ===== src/Tests/ConfigTests.antt =====
-- internal/config on concrete settings.
use hosa.Prelude.{◌≡◌, ◌↔◌, refl, false, none, List, [], ◌∷◌, codes, arith, if◌then◌else◌}
use hosa.Prelude.Int.{pos}
use hosa.Float.{◌≤?◌, lit}
use hosa.Float.Fixed.{Fixed, nan, fixed_float, Fixed-IsOrdered}
use hosa.Brain.Level.{homeostasis, vigilance, containment, protection, survival}
use hosa.Brain.Cortex.{base_level}
use hosa.Config.Summary.{summary}
use hosa.Config.{Config, default}
use hosa.Config.Flags.{Flag, apply_flags, alpha_flag, hysteresis_flag}
use hosa.Config.Flags.Precedence.{int, setting, setting-apply_flags}
use hosa.Config.Toml.{table, parse_toml_bytes}
use hosa.Config.Toml.Document.{
  Entry, AreEntries, AreAscii, blank, comment, header, key_value, quoted_value, document_text,
  parse_toml_bytes-document_text,
}
use hosa.Config.Toml.RoundTrip.{IsWord, IsKey}
use hosa.Config.Validate.{validate}
use hosa.Config.Validate.Ordering.{HasNumbers, IsConsistent, validate_iff, validate-nan}
use hosa.Agent.Wiring.{predictor_config}
use hosa.Agent.Wiring.Thresholds.{base_level-validated}
use hosa.Strings.{has_prefix}
use hosa.Tests.Data.{tenths}

abbrev defaults : Config Fixed
unfolding default
defaults = default

defaults-HasNumbers : HasNumbers defaults
unfolding defaults
defaults-HasNumbers = ground arith

defaults_accepted : validate defaults ≡ none
unfolding validate defaults
defaults_accepted = refl

validate_iff_example : (validate defaults ≡ none) ↔ IsConsistent defaults
validate_iff_example = validate_iff Fixed-IsOrdered defaults defaults-HasNumbers

defaults-IsConsistent : IsConsistent defaults
defaults-IsConsistent = validate_iff_example.0 defaults_accepted

validate-nan_example :
    (validate
        (record defaults { detection = record (defaults.detection) { threshold_vigilance = nan } })
      ≡ none)
    × ((dm : Fixed) → (nan ≤? dm) ≡ false)
validate-nan_example = validate-nan Fixed-IsOrdered defaults nan defaults-IsConsistent refl

base_level-validated_example : base_level (predictor_config defaults) (tenths 60) ≡ (
    if lit 120 1 ≤? tenths 60
    then survival
    else if tenths 80 ≤? tenths 60
    then protection
    else if tenths 55 ≤? tenths 60
    then containment
    else if tenths 35 ≤? tenths 60
    then vigilance
    else homeostasis)
unfolding defaults
base_level-validated_example =
    base_level-validated Fixed-IsOrdered defaults (tenths 60) defaults-HasNumbers defaults_accepted

abbrev flags : List (Flag Fixed)
flags = hysteresis_flag (pos 7) ∷ alpha_flag (tenths 3) ∷ hysteresis_flag (pos 9) ∷ []

setting-apply_flags_example : setting 5 (apply_flags flags defaults) ≡ int (pos 9)
setting-apply_flags_example = setting-apply_flags 5 flags defaults (omega arith)

-- A comment, the section `ewma`, and two settings in it.
abbrev small_document : List Entry
small_document =
    comment (codes " tuned")
    ∷ blank
    ∷ header (codes "ewma")
    ∷ key_value (codes "alpha") (codes "0.2")
    ∷ quoted_value (codes "n") (codes "5")
    ∷ []

alpha-IsKey : IsKey (codes "alpha")
unfolding has_prefix
alpha-IsKey = record {
  word = record { solid = ground arith; some_byte = λ e. cc };
  no_equals = ground arith;
  no_comment = refl;
  no_header = refl;
}

n-IsKey : IsKey (codes "n")
unfolding has_prefix
n-IsKey = record {
  word = record { solid = ground arith; some_byte = λ e. cc };
  no_equals = ground arith;
  no_comment = refl;
  no_header = refl;
}

number-IsWord : IsWord (codes "0.2")
number-IsWord = record { solid = ground arith; some_byte = λ e. cc }

small_document-AreEntries : AreEntries small_document
unfolding has_prefix
small_document-AreEntries = (
  ground arith,
  (
    tt,
    (
      record { solid = ground arith; no_bracket = ground arith },
      ((alpha-IsKey, (number-IsWord, refl)), ((n-IsKey, ground arith), tt)),
    ),
  ),
)

small_document-AreAscii : AreAscii (document_text small_document)
small_document-AreAscii = ground arith

parse_toml_bytes-document_text_example :
    parse_toml_bytes (document_text small_document)
    ≡ table ((codes "ewma.n", codes "5") ∷ (codes "ewma.alpha", codes "0.2") ∷ [])
parse_toml_bytes-document_text_example =
    parse_toml_bytes-document_text small_document small_document-AreEntries small_document-AreAscii

summary-default :
    summary (λ k x. codes "x") (default {F = Fixed})
    ≡ codes
        "thresholds=[x/x/x/x] alpha=x min_samples=30 normal=1000ms vigilance=100ms heartbeat=30s phase2=disabled metrics=:9090 webhook=disabled"
unfolding summary default
summary-default = refl
