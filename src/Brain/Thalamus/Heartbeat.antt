-- ===== src/Brain/Thalamus/Heartbeat.antt =====
-- Runs of `Observe` of internal/brain/thalamic_filter.go, and their heartbeats.
use hosa.Prelude.{ℕ, ◌+◌, ◌≤◌, ◌≡◌, List, [], ◌∷◌, ◌++◌, arith}
use hosa.Prelude.Int.{pos}
use hosa.Float.{Float}
use hosa.Brain.Level.{AlertLevel}
use hosa.Brain.Thalamus.{
  EventType, TelemetryEvent, ThalamicFilter, observe, heartbeat, homeostasis_restored,
}
use hosa.Brain.Thalamus.Events.{observe-level}

-- One call of `Observe`: the level, the distance, its derivative and the time.
pub record Observation (F : Type 0) : Type 0 where
  pub level : AlertLevel
  pub dm : F
  pub dm_dot : F
  pub now : ℕ

-- The time from which the next heartbeat is counted, after an event of this type.
abbrev pub quiet_since : EventType → ℕ → ℕ → ℕ
quiet_since heartbeat now last = now
quiet_since homeostasis_restored now last = now
quiet_since _ now last = last

module _ {F : Type 0} ⦃fl : Float F⦄ where
  -- All the events of a list of observations.
  unfoldable pub observe_all : ThalamicFilter → List (Observation F) → List (TelemetryEvent F)
  observe_all tf [] = []
  observe_all tf (o ∷ os) =
      let (tf', events) = observe tf o.level o.dm o.dm_dot o.now in events ++ observe_all tf' os

  -- Every heartbeat of the list comes at least `d` after the heartbeat or restoration before it,
  -- and the first of them at least `d` after the time `last`.
  abbrev pub Spaced : ℕ → ℕ → List (TelemetryEvent F) → Type 0
  Spaced d last [] = Unit
  Spaced d last (e ∷ es) =
      (e.type ≡ heartbeat → last + d ≤ e.timestamp)
      × Spaced d (quiet_since e.type e.timestamp last) es

  Spaced-step :
      (tf : ThalamicFilter) (o : Observation F) (d : ℕ) (rest : List (TelemetryEvent F))
      → tf.config.heartbeat_interval ≡ pos d
      → Spaced d (observe tf o.level o.dm o.dm_dot o.now).0.last_heartbeat rest
      → Spaced d tf.last_heartbeat ((observe tf o.level o.dm o.dm_dot o.now).1 ++ rest)
  unfolding observe
  Spaced-step tf o d rest e h = ground arith

  -- In homeostasis the log is one heartbeat per interval at most: over any sequence of
  -- observations, each heartbeat comes at least the configured interval after the one before it,
  -- after the last restoration and after the start, where the interval is not negative.
  pub observe_all-Spaced :
      (tf : ThalamicFilter) (os : List (Observation F)) (d : ℕ)
      → tf.config.heartbeat_interval ≡ pos d
      → Spaced d tf.last_heartbeat (observe_all tf os)
  unfolding observe_all
  observe_all-Spaced tf [] d e = tt
  observe_all-Spaced tf (o ∷ os) d e =
      let tf' = (observe tf o.level o.dm o.dm_dot o.now).0 in
      Spaced-step tf o d (observe_all tf' os) e
        (observe_all-Spaced tf' os d (rw (observe-level tf o.level o.dm o.dm_dot o.now).1 e))
