-- ===== src/Agent/Loop/Agreement.antt =====
-- The level that the parts hold after a round of `main`.
use hosa.Prelude.{◌≡◌, refl}
use hosa.Float.{Float}
use hosa.Brain.Cortex.{Analysis}
use hosa.Brain.Thalamus.Events.{observe-level}
use hosa.Outcome.Partly.{ReturnsOr, ReturnsOr-bind}
use hosa.Agent.React.{Phase2State, react}
use hosa.Agent.React.Phase.{LoadPanics, Reacted, active_after, is_active, react-Reacted}
use hosa.Agent.Loop.{Agent, Inputs, Round, act, sample_frag}

module _ {F : Type 0} ⦃fl : Float F⦄ where
  -- The parts that hold the level, and the intervention, after a round that began with `s`.
  abbrev pub HoldLevel : Agent F → Analysis F → Round F → Type 0
  HoldLevel s a r =
      (r.agent.thalamus.current_level ≡ a.level)
      × (r.agent.motor.last_level ≡ a.level)
      × (r.agent.telemetry.level ≡ a.level)
      × (is_active r.agent.survival_motor ≡ active_after s.phase2_enabled s.survival_motor a.level)

  -- A round that measured a stress returns, or phase 2 is enabled with its motor, which was inactive,
  -- the level is survival, and the load of the scheduler panicked. Where it returns, the filter, the
  -- memory motor and the published snapshot hold the level of the analysis, with phase 2 on or off.
  -- The intervention of an existing motor is then active exactly if the level is survival where phase
  -- 2 is enabled and the level is one of the five, and as it was before in any other case.
  pub act-agrees :
      (s : Agent F) (i : Inputs F) (cpu : F) (a : Analysis F)
      → ReturnsOr
          (HoldLevel s a)
          (LoadPanics s.phase2_enabled s.survival_motor a.level i.env.loaded)
          (act s i cpu a)
  unfolding act
  act-agrees s i cpu a =
      let p2 : Phase2State F = record {
        survival_motor = s.survival_motor;
        last_h_frag = (sample_frag s.frag_monitor s.last_h_frag cpu i).h_frag;
        enabled = s.phase2_enabled;
      } in
      ReturnsOr-bind (Reacted a.level s.intervals p2) (HoldLevel s a)
        (LoadPanics s.phase2_enabled s.survival_motor a.level i.env.loaded)
        (react s.motor a.stress a.dm_dot a.level s.tick_count s.intervals p2 i.env s.kernel) _
        (react-Reacted s.motor a.stress a.dm_dot a.level s.tick_count s.intervals p2 i.env s.kernel)
        (λ r (active, held, _).
          ((observe-level s.thalamus a.level a.stress a.dm_dot i.env.now).0, held, refl, active))
