-- ===== src/Agent/Loop.antt =====
-- A round of the loop of `main`: sense, memorize, analyze, filter, react. The reading, the clock and
-- what the machine answers are inputs.
pub mod Agreement
pub mod Safety
use hosa.Prelude.{
  ℕ, ◌+◌, Bool, true, false, Option, none, some, List, [], ◌∷◌, ◌++◌, Bytes, if◌then◌else◌,
}
use hosa.Prelude.Int.{ℤ}
use hosa.Float.{Float}
use hosa.Outcome.{GoError, Outcome, ok, err, panic, ◌>>=◌}
use hosa.Linalg.{index}
use hosa.State.{RingBuffer, insert}
use hosa.Brain.Cortex.{PredictiveCortex, Analysis, analyze, attempt}
use hosa.Brain.Thalamus.{ThalamicFilter, TelemetryEvent, observe}
use hosa.Syscgroup.{Kernel}
use hosa.Motor.Cgroups.{CgroupMotor}
use hosa.Motor.Survival.{SurvivalMotor}
use hosa.Sensor.Fragmentation.{FragmentationMonitor, FragState, Sampled, sample}
use hosa.Telemetry.{Snapshot, WebhookClient, notify}
use hosa.Agent.React.{
  Line, Phase2State, Surroundings, Intervals, Reaction, react, when, buffer_insert_error,
  cortex_analyze_error, compaction_line,
}

pub record Agent (F : Type 0) : Type 0 where
  pub buffer : RingBuffer F
  pub cortex : PredictiveCortex F
  pub thalamus : ThalamicFilter
  pub motor : CgroupMotor F
  pub survival_motor : Option SurvivalMotor
  pub frag_monitor : Option (FragmentationMonitor F)
  pub last_h_frag : F
  pub phase2_enabled : Bool
  pub telemetry : Snapshot F
  pub webhook : Option (WebhookClient F)
  pub tick_count : ℕ
  pub interval : ℤ
  pub intervals : Intervals
  pub kernel : Kernel

pub record Inputs (F : Type 0) : Type 0 where
  pub reading : List F
  pub buddy_info : Option Bytes
  pub compacts : Bool
  pub env : Surroundings

pub record Round (F : Type 0) : Type 0 where
  pub agent : Agent F
  pub events : List (TelemetryEvent F)
  pub lines : List (Line F)
  -- The snapshot that the webhook posts, if it does.
  pub posted : Option (Snapshot F)

pub record Fragged (F : Type 0) : Type 0 where
  pub monitor : Option (FragmentationMonitor F)
  pub h_frag : F
  pub lines : List (Line F)

module _ {F : Type 0} ⦃fl : Float F⦄ where
  abbrev pub keep_state : F → Option (FragState F) → F
  keep_state old none = old
  keep_state old (some s) = s.h_frag_norm

  abbrev pub compaction_lines : Sampled F → List (Line F)
  compaction_lines (s) = elim s.state [
    | none ↦ []
    | some st ↦ when s.triggered (compaction_line st.h_frag_norm s.monitor.compactions)
  ]

  unfoldable pub sample_frag : Option (FragmentationMonitor F) → F → F → Inputs F → Fragged F
  sample_frag none old cpu i = record { monitor = none; h_frag = old; lines = [] }
  sample_frag (some fm) old cpu i =
      let s = sample fm cpu i.buddy_info i.compacts in
      record {
        monitor = some s.monitor;
        h_frag = keep_state old s.state;
        lines = compaction_lines s;
      }

  unfoldable pub notify_webhook :
      Option (WebhookClient F) → Snapshot F → Option (WebhookClient F) × Option (Snapshot F)
  notify_webhook none snap = (none, none)
  notify_webhook (some w) snap = let (w', o) = notify w snap in (some w', o)

  -- The round once the stress is known; `cpu` is `reading[0]`. It panics where `react` does.
  unfoldable pub act : Agent F → Inputs F → F → Analysis F → Outcome (Round F)
  unfolding sample_frag notify_webhook
  act s i cpu a =
      let g = sample_frag s.frag_monitor s.last_h_frag cpu i in
      let snap : Snapshot F = record {
        dm = a.stress;
        dm_dot = a.dm_dot;
        level = a.level;
        h_frag_norm = g.h_frag;
        state_vec = i.reading;
        updated_at = some i.env.now;
      } in
      let (webhook, posted) = notify_webhook s.webhook snap in
      let (thalamus, events) = observe s.thalamus a.level a.stress a.dm_dot i.env.now in
      let reacted =
        react s.motor a.stress a.dm_dot a.level s.tick_count s.intervals
          (record {
            survival_motor = s.survival_motor;
            last_h_frag = g.h_frag;
            enabled = s.phase2_enabled;
          })
          i.env s.kernel in
      reacted >>= λ r. ok (record {
        agent = record s {
          thalamus = thalamus;
          motor = r.motor;
          survival_motor = r.survival_motor;
          frag_monitor = g.monitor;
          last_h_frag = g.h_frag;
          telemetry = snap;
          webhook = webhook;
          interval = r.interval;
          kernel = r.kernel;
        };
        events = events ++ r.events;
        lines = g.lines ++ r.lines;
        posted = posted;
      })

  abbrev pub skipped : Agent F → Line F → Round F
  skipped s line = record { agent = s; events = []; lines = line ∷ []; posted = none }

  -- `continue` after an error of `Analyze`.
  unfoldable pub after_analysis : Agent F → Inputs F → Analysis F → Outcome (Round F)
  unfolding act
  after_analysis s i a = elim a.error [
    | none ↦ do cpu ← index i.reading 0; act s i cpu a
    | some e ↦ ok (skipped s cortex_analyze_error)
  ]

  unfoldable pub tick : Agent F → Inputs F → Outcome (Round F)
  unfolding after_analysis
  tick s0 i =
      let s = record s0 { tick_count = s0.tick_count + 1 } in
      attempt (insert s.buffer i.reading) (λ e. ok (skipped s buffer_insert_error))
        (λ buf. do
          (pc, a) ← analyze s.cortex buf i.env.now
          after_analysis (record s { buffer = buf; cortex = pc }) i a)
