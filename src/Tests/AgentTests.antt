-- ===== src/Tests/AgentTests.antt =====
-- cmd/hosa/main.go on concrete rounds.
use hosa.Prelude.{ℕ, ◌≡◌, refl, true, false, none, some, [], ◌∷◌, codes, arith, ◌++◌}
use hosa.Prelude.Int.{pos}
use hosa.Float.Fixed.{Fixed, fixed_float}
use hosa.Brain.Cortex.{Analysis}
use hosa.Syscgroup.{content, memory_high, memory_max}
use hosa.Agent.React.{Phase2State, Surroundings, Intervals, react, shutdown}
use hosa.Agent.React.Phase.{LoadPanics, is_active, react-active}
use hosa.Agent.React.Shutdown.{shutdown_lem}
use hosa.Prelude.{List}
use hosa.Sensor.Discovery.{read_mem_total_bytes}
use hosa.Agent.Meminfo.{read_mem_total}
use hosa.Agent.Meminfo.Agreement.{mem_total_line, read_mem_total_agrees}
use hosa.Float.Fixed.{nan}
use hosa.Motor.Survival.{engage}
use hosa.Outcome.{err, panic, call_failed}
use hosa.Outcome.Partly.{ReturnsOr}
use hosa.State.{new_ring_buffer}
use hosa.Brain.Cortex.{default_config, new_predictive_cortex}
use hosa.Agent.Loop.Safety.{AnyPanics, IsRunning, rounds, rounds_ok}
use hosa.Agent.Loop.{Agent, Inputs, act}
use hosa.Agent.Loop.Agreement.{act-agrees}
use hosa.Tests.Data.{
  tenths, kernel, kernel-AcceptsAll, cortex_at, motor_at, survival_motor, active_motor,
}

abbrev intervals : Intervals
intervals = record { normal = pos 1000; vigilance = pos 100 }

abbrev phase2 : Phase2State Fixed
phase2 = record { survival_motor = some survival_motor; last_h_frag = tenths 0; enabled = true }

abbrev surroundings : Surroundings
surroundings = record {
  now = 5;
  mem_total = 1000;
  loaded = err call_failed;
  closes = true;
  present = none;
}

react-active_example :
    ReturnsOr
      (λ r. (is_active r.survival_motor ≡ true) × (r.motor.last_level ≡ 4) × (r.interval ≡ pos 100))
      ((survival_motor.active ≡ false) × (◌≡◌ {A = ℕ} 4 4) × (surroundings.loaded ≡ panic))
      (react (motor_at 3) (tenths 130) (tenths 0) 4 7 intervals phase2 surroundings kernel)
react-active_example =
    react-active (motor_at 3) (tenths 130) (tenths 0) 4 7 intervals phase2 surroundings kernel
      survival_motor refl refl (omega arith)

-- A load that panics ends the round, and the program.
react_panics :
    react
      (motor_at 3)
      (tenths 130)
      (tenths 0)
      4
      7
      intervals
      (record phase2 { survival_motor = some (record survival_motor { sched_ext_avail = true }) })
      (record surroundings { loaded = panic })
      kernel
    ≡ panic
unfolding react engage
react_panics = refl

shutdown_lem_example :
    let (sm', a) = shutdown (motor_at 4) (some active_motor) 1000 true kernel in
    (is_active sm' ≡ false)
    × (a.error ≡ none)
    × (content a.kernel (codes "/sys/fs/cgroup/hosa") memory_high ≡ some (codes "max"))
    × (content a.kernel (codes "/sys/fs/cgroup/hosa") memory_max ≡ some (codes "max"))
shutdown_lem_example =
    shutdown_lem (motor_at 4) (some active_motor) 1000 true kernel kernel-AcceptsAll (omega arith)

abbrev agent : Agent Fixed
agent = record {
  buffer = record {
    rows = record { rows = 3; cols = 1; cells = tenths 0 ∷ tenths 0 ∷ tenths 0 ∷ [] };
    head = 0;
    count = 0;
    capacity = 3;
    vars = 1;
  };
  cortex = cortex_at 3;
  thalamus = record {
    config = record { heartbeat_interval = pos 30 };
    current_level = 3;
    prev_level = 0;
    last_heartbeat = 0;
  };
  motor = motor_at 3;
  survival_motor = some survival_motor;
  frag_monitor = none;
  last_h_frag = tenths 0;
  phase2_enabled = true;
  telemetry = record {
    dm = tenths 0;
    dm_dot = tenths 0;
    level = 0;
    h_frag_norm = tenths 0;
    state_vec = [];
    updated_at = none;
  };
  webhook = none;
  tick_count = 7;
  interval = pos 100;
  intervals = intervals;
  kernel = kernel;
}

abbrev inputs : Inputs Fixed
inputs = record {
  reading = tenths 130 ∷ [];
  buddy_info = none;
  compacts = true;
  env = surroundings;
}

abbrev critical : Analysis Fixed
critical = record { stress = tenths 130; dm_dot = tenths 0; level = 4; error = none }

act-agrees_example :
    ReturnsOr
      (λ r.
        (r.agent.thalamus.current_level ≡ 4)
        × (r.agent.motor.last_level ≡ 4)
        × (r.agent.telemetry.level ≡ 4)
        × (is_active r.agent.survival_motor ≡ true))
      (LoadPanics true (some survival_motor) 4 (err call_failed))
      (act agent inputs (tenths 130) critical)
act-agrees_example = act-agrees agent inputs (tenths 130) critical

-- A reading with NaN, one of the wrong size, and a plain one.
abbrev rough : List (Inputs Fixed)
rough = record inputs { reading = nan ∷ [] } ∷ record inputs { reading = [] } ∷ inputs ∷ []

abbrev fresh : Agent Fixed
fresh = record agent {
  buffer = new_ring_buffer 3 1;
  cortex = new_predictive_cortex (new_ring_buffer 3 1) default_config;
}

rounds_ok_example : ReturnsOr IsRunning ((true ≡ true) × AnyPanics rough) (rounds fresh rough)
rounds_ok_example = rounds_ok fresh 3 1 default_config rough (omega arith) (omega arith) refl refl

read_mem_total_agrees_example :
    let text = mem_total_line 7 16384 ++ b'\n' ∷ codes "MemFree: 1 kB" in
    (read_mem_total (some text) ≡ some 16777216)
    × (read_mem_total_bytes (some text) ≡ some 16777216)
read_mem_total_agrees_example = read_mem_total_agrees 7 16384 (codes "MemFree: 1 kB") (omega arith)
