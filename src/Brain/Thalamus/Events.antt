-- ===== src/Brain/Thalamus/Events.antt =====
-- Which event `Observe` of internal/brain/thalamic_filter.go emits.
use hosa.Prelude.{ℕ, ◌<◌, ◌≡◌, ◌≢◌, List, [], ◌∷◌, arith, ◌==◌, if◌then◌else◌}
use hosa.Float.{Float}
use hosa.Brain.Level.{AlertLevel}
use hosa.Brain.Thalamus.{
  EventType, TelemetryEvent, ThalamicFilter, observe, anomaly_detected, level_change,
  homeostasis_restored,
}

-- What the log is for: the type of the event for a change from one level to another.
abbrev pub change_type : AlertLevel → AlertLevel → EventType
change_type prev level =
    if prev == 0
    then anomaly_detected
    else if level == 0
    then homeostasis_restored
    else level_change

module _ {F : Type 0} ⦃fl : Float F⦄ where
  abbrev pub types : List (TelemetryEvent F) → List EventType
  types [] = []
  types (e ∷ es) = e.type ∷ types es

  -- A change of the level emits exactly one event, of the type that the change calls for: an
  -- anomaly when the level leaves homeostasis, a restoration when it comes back there, and a level
  -- change in between.
  pub observe-change :
      (tf : ThalamicFilter) (level : AlertLevel) (dm dm_dot : F) (now : ℕ)
      → tf.current_level ≢ level
      → types (observe tf level dm dm_dot now).1 ≡ change_type tf.current_level level ∷ []
  unfolding observe
  observe-change tf level dm dm_dot now h = ground arith

  -- A level that stays where it is above homeostasis is silent, and leaves the heartbeat alone.
  pub observe-same :
      (tf : ThalamicFilter) (level : AlertLevel) (dm dm_dot : F) (now : ℕ)
      → tf.current_level ≡ level
      → 0 < level
      → ((observe tf level dm dm_dot now).1 ≡ [])
        × ((observe tf level dm dm_dot now).0.last_heartbeat ≡ tf.last_heartbeat)
  unfolding observe
  observe-same tf level dm dm_dot now h p = ground arith

  pub observe-level :
      (tf : ThalamicFilter) (level : AlertLevel) (dm dm_dot : F) (now : ℕ)
      → ((observe tf level dm dm_dot now).0.current_level ≡ level)
        × ((observe tf level dm dm_dot now).0.config ≡ tf.config)
  unfolding observe
  observe-level tf level dm dm_dot now = ground arith
