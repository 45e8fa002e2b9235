-- ===== src/Agent/Loop/Safety.antt =====
-- Lists of rounds of the loop of `main`, and the invariant between two of them.
use hosa.Prelude.{
  ℕ, ◌+◌, ◌<◌, ◌≡◌, refl, sym, subst, arith, List, [], ◌∷◌, length, Bool-cases, inl, inr, false,
  ◌==◌, ==_iff, ◌⊎◌, ◌∙◌, Bool, true, Option, none, some,
}
use hosa.Float.{Float}
use hosa.Outcome.{GoError, Outcome, ok, err, panic, ◌>>=◌}
use hosa.Outcome.Partly.{ReturnsOr, ReturnsOr-bind, ReturnsOr-map, Returns-then}
use hosa.Outcome.Safe.{Safe}
use hosa.Linalg.Cells.{index_ok, new_matrix-IsShaped}
use hosa.State.{RingBuffer, new_ring_buffer, insert}
use hosa.State.Ring.{IsWellFormed, insert_lem}
use hosa.Brain.Cortex.{PredictorConfig, PredictiveCortex, Analysis, attempt, new_predictive_cortex}
use hosa.Brain.Cortex.Hysteresis.{new_predictive_cortex-IsSettled}
use hosa.Brain.Cortex.Safety.{IsSound, Analyzed, analyze_ok}
use hosa.Brain.Welford.Safety.{new_welford_state-IsSized}
use hosa.Motor.Survival.{SurvivalMotor}
use hosa.Agent.React.{Phase2State, react}
use hosa.Agent.React.Phase.{LoadPanics, Reacted, react-Reacted}
use hosa.Agent.Loop.{Agent, Inputs, Round, act, after_analysis, sample_frag, tick}

ReturnsOr-attempt :
    {A B : Type 0} (P : A → Type 0) (R : B → Type 0) (Q : Type 0) (m : Outcome A)
    (handle : GoError → Outcome B) (f : A → Outcome B)
    → Safe P m
    → ((e : GoError) → ReturnsOr R Q (handle e))
    → ((a : A) → P a → ReturnsOr R Q (f a))
    → ReturnsOr R Q (attempt m handle f)
ReturnsOr-attempt P R Q (ok a) handle f s h k = k a s
ReturnsOr-attempt P R Q (err e) handle f s h k = h e
ReturnsOr-attempt P R Q panic handle f s h k = absurd s

LoadPanics-loaded :
    (on : Bool) (m : Option SurvivalMotor) (level : ℕ) (result : Outcome ℕ)
    → LoadPanics on m level result
    → (on ≡ true) × (result ≡ panic)
LoadPanics-loaded on none level result q = absurd q
LoadPanics-loaded on (some sm) level result (e, _, _, _, p) = (e, p)

module _ {F : Type 0} ⦃fl : Float F⦄ where
  -- What holds of the agent between two rounds.
  abbrev pub AreSound : RingBuffer F → PredictiveCortex F → Type 0
  AreSound buf pc = IsWellFormed buf × (0 < buf.vars) × IsSound buf.vars pc

  abbrev pub IsRunning : Agent F → Type 0
  IsRunning s = AreSound s.buffer s.cortex

  -- The agents of a list of rounds, the events and the log lines aside.
  unfoldable pub rounds : Agent F → List (Inputs F) → Outcome (Agent F)
  unfolding tick
  rounds s [] = ok s
  rounds s (i ∷ is) = do r ← tick s i; rounds r.agent is

  insert-Safe :
      (rb : RingBuffer F) (reading : List F)
      → IsWellFormed rb
      → Safe
          (λ rb'. IsWellFormed rb' × (rb'.vars ≡ rb.vars) × (length reading ≡ rb.vars))
          (insert rb reading)
  unfolding insert
  insert-Safe rb reading wf = elim (Bool-cases (length reading == rb.vars)) [
    | inr e ↦ rw e tt
    | inl e ↦ sized ((==_iff (length reading) rb.vars).0 e)
  ]
    where
      Kept : RingBuffer F → Type 0
      Kept rb' = IsWellFormed rb' × (rb'.vars ≡ rb.vars) × (length reading ≡ rb.vars)

      sized : length reading ≡ rb.vars → Safe Kept (insert rb reading)
      sized len =
          let (rb', e, (wf', _, _, _, ev, _)) = insert_lem rb reading wf len in rw e (wf', ev, len)

  -- What a round keeps, if it returns.
  abbrev Keeps : Agent F → Round F → Type 0
  Keeps s r = IsRunning r.agent × (r.agent.phase2_enabled ≡ s.phase2_enabled)

  -- Phase 2 is enabled, and the load of the scheduler panics if the round calls it.
  abbrev Panics : Agent F → Inputs F → Type 0
  Panics s i = (s.phase2_enabled ≡ true) × (i.env.loaded ≡ panic)

  act-Keeps :
      (s : Agent F) (i : Inputs F) (cpu : F) (a : Analysis F)
      → IsRunning s
      → ReturnsOr (Keeps s) (Panics s i) (act s i cpu a)
  unfolding act
  act-Keeps s i cpu a run =
      let p2 : Phase2State F = record {
        survival_motor = s.survival_motor;
        last_h_frag = (sample_frag s.frag_monitor s.last_h_frag cpu i).h_frag;
        enabled = s.phase2_enabled;
      } in
      let panics = LoadPanics s.phase2_enabled s.survival_motor a.level i.env.loaded in
      let reacted =
        react s.motor a.stress a.dm_dot a.level s.tick_count s.intervals p2 i.env s.kernel in
      ReturnsOr-bind (Reacted a.level s.intervals p2) (Keeps s) (Panics s i) reacted _
        (ReturnsOr-map (Reacted a.level s.intervals p2) (Reacted a.level s.intervals p2) panics
          (Panics s i) reacted (λ r p. p)
          (LoadPanics-loaded s.phase2_enabled s.survival_motor a.level i.env.loaded)
          (react-Reacted s.motor a.stress a.dm_dot a.level s.tick_count s.intervals p2 i.env
            s.kernel))
        (λ r p. (run, refl))

  after_analysis_ok :
      (s : Agent F) (i : Inputs F) (a : Analysis F)
      → IsRunning s
      → length i.reading ≡ s.buffer.vars
      → ReturnsOr (Keeps s) (Panics s i) (after_analysis s i a)
  unfolding after_analysis
  after_analysis_ok s i a run len = by_error a.error refl
    where
      by_error :
          (e : Option GoError)
          → a.error ≡ e
          → ReturnsOr (Keeps s) (Panics s i) (after_analysis s i a)
      by_error (some e) eq = rw eq (run, refl)
      by_error none eq =
          let (cpu, e) = index_ok i.reading 0 (omega arith) in rw (eq, e) (act-Keeps s i cpu a run)

  tick_ok : (s : Agent F) (i : Inputs F) → IsRunning s → ReturnsOr (Keeps s) (Panics s i) (tick s i)
  unfolding tick
  tick_ok s i (wf, pos, sound) =
      ReturnsOr-attempt
        (λ rb'. IsWellFormed rb' × (rb'.vars ≡ s.buffer.vars) × (length i.reading ≡ s.buffer.vars))
        (Keeps s) (Panics s i) (insert s.buffer i.reading) _ _ (insert-Safe s.buffer i.reading wf)
        (λ e. ((wf, pos, sound), refl))
        (λ buf (wf', ev, len).
          Returns-then (Analyzed buf.vars) (Keeps s) (Panics s i) _ _
            (analyze_ok s.cortex buf i.env.now wf' (rw ev sound))
            (λ (pc, a) (sound', _).
              after_analysis_ok
                (record s { tick_count = s.tick_count + 1; buffer = buf; cortex = pc }) i a
                (wf', omega arith, sound') (omega arith)))

  new_predictive_cortex-IsSound :
      (buf : RingBuffer F) (cfg : PredictorConfig F)
      → 0 < buf.vars
      → IsSound buf.vars (new_predictive_cortex buf cfg)
  unfolding new_predictive_cortex
  new_predictive_cortex-IsSound buf cfg some_vars =
      let sized : (buf.vars == 0) ≡ false = ground arith in
      (rw sized (new_welford_state-IsSized F buf.vars), new_predictive_cortex-IsSettled buf cfg)

  new_ring_buffer-AreSound :
      (capacity vars : ℕ) (cfg : PredictorConfig F)
      → 0 < capacity
      → 0 < vars
      → AreSound
          (new_ring_buffer capacity vars)
          (new_predictive_cortex (new_ring_buffer capacity vars) cfg)
  unfolding new_ring_buffer
  new_ring_buffer-AreSound capacity vars cfg pos some_vars =
      let buf : RingBuffer F = new_ring_buffer capacity vars in
      (
        (pos, new_matrix-IsShaped F capacity vars, pos, inr (pos, refl)),
        some_vars,
        new_predictive_cortex-IsSound buf cfg some_vars,
      )

  start-IsRunning :
      (s : Agent F) (capacity vars : ℕ) (cfg : PredictorConfig F)
      → 0 < capacity
      → 0 < vars
      → s.buffer ≡ new_ring_buffer capacity vars
      → s.cortex ≡ new_predictive_cortex (new_ring_buffer capacity vars) cfg
      → IsRunning s
  start-IsRunning s capacity vars cfg pos some_vars eb ec =
      subst (λ b. AreSound b s.cortex) (sym eb)
        (subst (λ c. AreSound (new_ring_buffer capacity vars) c) (sym ec)
          (new_ring_buffer-AreSound capacity vars cfg pos some_vars))

  -- In one of the rounds, the load of the scheduler panics if it is called.
  abbrev pub AnyPanics : List (Inputs F) → Type 0
  AnyPanics [] = ⊥
  AnyPanics (i ∷ is) = (i.env.loaded ≡ panic) ⊎ AnyPanics is

  rounds_from :
      (s : Agent F) (is : List (Inputs F))
      → IsRunning s
      → ReturnsOr IsRunning ((s.phase2_enabled ≡ true) × AnyPanics is) (rounds s is)
  unfolding rounds
  rounds_from s [] run = run
  rounds_from s (i ∷ is) run =
      let Q = (s.phase2_enabled ≡ true) × AnyPanics (i ∷ is) in
      ReturnsOr-bind (Keeps s) IsRunning Q (tick s i) _
        (ReturnsOr-map (Keeps s) (Keeps s) (Panics s i) Q (tick s i) (λ r p. p)
          (λ (on, p). (on, inl p)) (tick_ok s i run))
        (λ r (run', same).
          ReturnsOr-map IsRunning IsRunning ((r.agent.phase2_enabled ≡ true) × AnyPanics is) Q
            (rounds r.agent is) (λ t p. p) (λ (on, p). (sym same ∙ on, inr p))
            (rounds_from r.agent is run'))

  -- From the start, with a buffer and a cortex as `main` makes them for any positive capacity and
  -- number of metrics, any list of rounds returns, unless phase 2 is enabled and in one of the rounds
  -- the load of the scheduler panics: whatever the readings, of whatever length and with NaN and
  -- infinities, and whichever writes fail, nothing else ends the loop. Where it returns, the buffer is
  -- well-formed, the statistics have the size of the readings, and the level and the count of calm
  -- cycles are within their bounds.
  pub rounds_ok :
      (s : Agent F) (capacity vars : ℕ) (cfg : PredictorConfig F) (is : List (Inputs F))
      → 0 < capacity
      → 0 < vars
      → s.buffer ≡ new_ring_buffer capacity vars
      → s.cortex ≡ new_predictive_cortex (new_ring_buffer capacity vars) cfg
      → ReturnsOr IsRunning ((s.phase2_enabled ≡ true) × AnyPanics is) (rounds s is)
  rounds_ok s capacity vars cfg is pos some_vars eb ec =
      rounds_from s is (start-IsRunning s capacity vars cfg pos some_vars eb ec)
