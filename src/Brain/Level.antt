-- ===== src/Brain/Level.antt =====
-- The alert levels of internal/brain/predictor.go, which internal/motor/cgroups.go repeats. The Go
-- types are `int`; no code makes a negative level.
use hosa.Prelude.{ℕ}

abbrev pub AlertLevel : Type 0
AlertLevel = ℕ

abbrev pub homeostasis : AlertLevel
homeostasis = 0

abbrev pub vigilance : AlertLevel
vigilance = 1

abbrev pub containment : AlertLevel
containment = 2

abbrev pub protection : AlertLevel
protection = 3

abbrev pub survival : AlertLevel
survival = 4
