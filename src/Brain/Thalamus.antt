-- ===== src/Brain/Thalamus.antt =====
-- internal/brain/thalamic_filter.go: what is logged, and when. A method returns the new filter and
-- the events that it hands to the handler, in order. The clock is an argument, in nanoseconds, and
-- the text of an event is a `Message`: the format of `Sprintf` with its arguments.
pub mod Events
pub mod Heartbeat
use hosa.Prelude.{
  ℕ, ◌-◌, Bool, true, false, ◌&&◌, List, [], ◌∷◌, Bytes, ltb, leb, ◌==◌, if◌then◌else◌,
}
use hosa.Prelude.Int.{ℤ, pos, sub_ℕ, leb_ℤ}
use hosa.Float.{Float, nought}
use hosa.Brain.Level.{AlertLevel, homeostasis, protection, survival}

pub record ThalamicConfig : Type 0 where
  -- In nanoseconds, as `time.Duration`.
  pub heartbeat_interval : ℤ

abbrev pub default_thalamic_config : ThalamicConfig
default_thalamic_config = record { heartbeat_interval = pos 30_000_000_000 }

pub data EventType : Type 0 where
  heartbeat anomaly_detected level_change containment_applied : EventType
  homeostasis_restored protection_applied survival_engaged : EventType

pub data Tag : Type 0 where
  containment_tag protection_tag survival_tag : Tag

pub data Message (F : Type 0) : Type 0 where
  boot_text sensor_text : Bytes → Message F
  heartbeat_text homeostasis_text : F → Message F
  anomaly_text : AlertLevel → F → F → Message F
  -- The level before and the level now, the distance and its derivative.
  escalation_text recovery_text : AlertLevel → AlertLevel → F → F → Message F
  action_text : Tag → AlertLevel → F → Bytes → Message F
  survival_text : F → F → F → Bytes → Message F

pub record TelemetryEvent (F : Type 0) : Type 0 where
  pub timestamp : ℕ
  pub type : EventType
  pub level : AlertLevel
  pub stress_dm : F
  pub stress_dm_dot : F
  pub message : Message F

pub record ThalamicFilter : Type 0 where
  pub config : ThalamicConfig
  pub current_level : AlertLevel
  pub prev_level : AlertLevel
  pub last_heartbeat : ℕ

unfoldable pub new_thalamic_filter : ThalamicConfig → ℕ → ThalamicFilter
new_thalamic_filter cfg now = record {
  config = cfg;
  current_level = homeostasis;
  prev_level = homeostasis;
  last_heartbeat = now;
}

-- The `switch` of `NotifyContainment`.
abbrev pub tag_of : AlertLevel → Tag
tag_of level =
    if level == protection
    then protection_tag
    else if level == survival
    then survival_tag
    else containment_tag

abbrev pub type_of : AlertLevel → EventType
type_of level =
    if level == protection
    then protection_applied
    else if level == survival
    then survival_engaged
    else containment_applied

module _ {F : Type 0} ⦃fl : Float F⦄ where
  -- The fields that the literal leaves out have the zero values of their types.
  unfoldable pub boot : Bytes → ℕ → TelemetryEvent F
  boot fields now = record {
    timestamp = now;
    type = heartbeat;
    level = homeostasis;
    stress_dm = nought;
    stress_dm_dot = nought;
    message = boot_text fields;
  }

  unfoldable pub sensor : Bytes → ℕ → TelemetryEvent F
  sensor fields now = record {
    timestamp = now;
    type = heartbeat;
    level = homeostasis;
    stress_dm = nought;
    stress_dm_dot = nought;
    message = sensor_text fields;
  }

  -- The `switch` of `Observe`, once the two levels are stored.
  unfoldable pub report : ThalamicFilter → F → F → ℕ → ThalamicFilter × List (TelemetryEvent F)
  report tf dm dm_dot now =
      if level == homeostasis && prev == homeostasis
      then (if leb_ℤ tf.config.heartbeat_interval (sub_ℕ now tf.last_heartbeat)
          then (record tf { last_heartbeat = now }, event heartbeat nought (heartbeat_text dm) ∷ [])
          else (tf, []))
      else if ltb homeostasis level && prev == homeostasis
      then (tf, event anomaly_detected dm_dot (anomaly_text level dm dm_dot) ∷ [])
      else if ltb prev level
      then (tf, event level_change dm_dot (escalation_text prev level dm dm_dot) ∷ [])
      else if ltb level prev && ltb homeostasis level
      then (tf, event level_change dm_dot (recovery_text prev level dm dm_dot) ∷ [])
      else if level == homeostasis && ltb homeostasis prev
      then (
        record tf { last_heartbeat = now },
        event homeostasis_restored nought (homeostasis_text dm) ∷ [],
      )
      else (tf, [])
    where
      level : AlertLevel
      level = tf.current_level

      prev : AlertLevel
      prev = tf.prev_level

      event : EventType → F → Message F → TelemetryEvent F
      event t dot m = record {
        timestamp = now;
        type = t;
        level = level;
        stress_dm = dm;
        stress_dm_dot = dot;
        message = m;
      }

  unfoldable pub observe :
      ThalamicFilter → AlertLevel → F → F → ℕ → ThalamicFilter × List (TelemetryEvent F)
  unfolding report
  observe tf level dm dm_dot now =
      report (record tf { prev_level = tf.current_level; current_level = level }) dm dm_dot now

  unfoldable pub notify_containment : AlertLevel → F → Bytes → ℕ → TelemetryEvent F
  notify_containment level dm action now = record {
    timestamp = now;
    type = type_of level;
    level = level;
    stress_dm = dm;
    stress_dm_dot = nought;
    message = action_text (tag_of level) level dm action;
  }

  unfoldable pub notify_survival : F → F → F → Bytes → ℕ → TelemetryEvent F
  notify_survival dm dm_dot h_frag action now = record {
    timestamp = now;
    type = survival_engaged;
    level = survival;
    stress_dm = dm;
    stress_dm_dot = dm_dot;
    message = survival_text dm dm_dot h_frag action;
  }
