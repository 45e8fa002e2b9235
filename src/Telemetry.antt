-- ===== src/Telemetry.antt =====
-- internal/telemetry: the shared snapshot, and the webhook. A snapshot's level is `int(level)`, a
-- natural number; `lastLevel` is -1 until the first notification. The payload of a POST is a record,
-- before it is encoded as JSON.
pub mod Server
pub mod Webhook
use hosa.Prelude.{
  ℕ, Bool, true, false, Option, none, some, List, [], ◌∷◌, Bytes, codes, ltb, ◌==◌, if◌then◌else◌,
}
use hosa.Prelude.Int.{ℤ, pos, negsuc, leb_ℤ}
use hosa.Float.{Float, ◌≤?◌, nought}

pub record Snapshot (F : Type 0) : Type 0 where
  pub dm : F
  pub dm_dot : F
  pub level : ℕ
  pub h_frag_norm : F
  pub state_vec : List F
  -- `none` is the zero time.
  pub updated_at : Option ℕ

module _ {F : Type 0} ⦃fl : Float F⦄ where
  -- The state before the first `Set`.
  unfoldable pub zero_snapshot : Snapshot F
  zero_snapshot = record {
    dm = nought;
    dm_dot = nought;
    level = 0;
    h_frag_norm = nought;
    state_vec = [];
    updated_at = none;
  }

abbrev pub level_name : ℕ → Bytes
level_name l =
    if l == 0
    then codes "homeostasis"
    else if l == 1
    then codes "vigilance"
    else if l == 2
    then codes "containment"
    else if l == 3
    then codes "protection"
    else if l == 4
    then codes "survival"
    else codes "unknown"

pub record HealthzResponse (F : Type 0) : Type 0 where
  pub status : Bytes
  pub level : ℕ
  pub dm : F
  pub dm_dot : F
  pub h_frag_norm : F
  pub state_vector : List F
  pub timestamp : ℕ

abbrev pub time_or : ℕ → Option ℕ → ℕ
time_or now none = now
time_or now (some t) = t

module _ {F : Type 0} where
  -- `handleHealthz`, before the JSON encoding.
  unfoldable pub handle_healthz : Snapshot F → ℕ → HealthzResponse F
  handle_healthz snap now = record {
    status = level_name snap.level;
    level = snap.level;
    dm = snap.dm;
    dm_dot = snap.dm_dot;
    h_frag_norm = snap.h_frag_norm;
    state_vector = snap.state_vec;
    timestamp = time_or now snap.updated_at;
  }

pub record WebhookClient (F : Type 0) : Type 0 where
  pub url : Bytes
  pub threshold : F
  pub last_level : ℤ

pub record WebhookPayload (F : Type 0) : Type 0 where
  pub event : Bytes
  pub dm : F
  pub dm_dot : F
  pub level : ℕ
  pub node : Bytes
  pub timestamp : ℕ

module _ {F : Type 0} where
  unfoldable pub new_webhook_client : Bytes → F → WebhookClient F
  new_webhook_client url threshold = record {
    url = url;
    threshold = threshold;
    last_level = negsuc 0;
  }

  -- The body that `send` posts.
  unfoldable pub payload : Snapshot F → Bytes → ℕ → WebhookPayload F
  payload snap host now = record {
    event = codes "stress_escalating";
    dm = snap.dm;
    dm_dot = snap.dm_dot;
    level = snap.level;
    node = host;
    timestamp = time_or now snap.updated_at;
  }

module _ {F : Type 0} ⦃fl : Float F⦄ where
  -- The new client, and the snapshot that it starts to send, if any.
  unfoldable pub notify : WebhookClient F → Snapshot F → WebhookClient F × Option (Snapshot F)
  notify w snap =
      if snap.dm_dot ≤? w.threshold
      then (w, none)
      else if leb_ℤ (pos snap.level) w.last_level
      then (w, none)
      else (record w { last_level = pos snap.level }, some snap)
