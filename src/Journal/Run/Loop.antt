-- ===== src/Journal/Run/Loop.antt =====
-- The phase in which the controlled evaluator leaves the session of the recording engine.
use prospect_engine.Base.{
  ℕ, suc, ◌+◌, ◌<◌, ◌≡◌, ◌≢◌, refl, sym, ap, subst, ◌∙◌, ◌⊎◌, inl, inr, true, false, Option, none,
  some, List, [], ◌∷◌, ◌++◌, map, length, length-append, length-map, is_some, Result, ok, err,
  arith,
}
use mathlib.Core.List.{append_assoc, map-append}
use prospect_engine.Base.Text.{Text}
use prospect_engine.Base.Key.{text_key}
use prospect_engine.Bundle.Json.{Value}
use prospect_engine.Core.{ScenarioId, Scenario, ProspectiveEngine}
use prospect_engine.Scenario.{ScenarioOutcome}
use prospect_engine.Scenario.Controlled.{
  BatchExecution, BatchStatus, EvaluationControl, Host, InterruptionReason, admitted,
  baseline_returned, checkpoint, duplicate_scenario_id, engine_failed, report, run_candidates,
  unstarted,
}
use prospect_engine.Scenario.Controlled.Accounting.{outcome_scenarios}
use prospect_engine.Scenario.Controlled.Ends.{checkpoint_goes}
use prospect_engine.Scenario.Controlled.Rules.{admitted_none_rule, run_cons_rule, run_nil_rule}
use prospect_engine.Record.Capture.{Encoders}
use prospect_engine.Journal.{Header, Lifecycle, baseline_call, default, is_at, scenario_call}
use prospect_engine.Journal.Emit.{JournalSerde, JournalSink}
use prospect_engine.Journal.Phases.{Phase, at, baseline_failed, between, idle, scenario_failed}
use prospect_engine.Journal.Session.{
  CallFailure, Session, blocked_before_engine, emit, engine_error, evaluate_call, intended, invoke,
  nth, recording_engine, target_found,
}
use prospect_engine.Journal.Run.{beside_control, beside_host}
use prospect_engine.Journal.Chain.{IsFaithful}
use prospect_engine.Journal.Run.Accepts.{baseline-Admits, is_at-append, nth-append, scenario-Admits}
use prospect_engine.Journal.Run.Calls.{Goes, IsSilent, Returns, invoke-Returns}
use prospect_engine.Journal.Run.Written.{Stuck, Stuck-moves, Written, Written-moves}

module _ {ℓ} {C J O W State I S E : Type ℓ} (serde : JournalSerde C J) (sink : JournalSink O W)
    (stored : W → List ℕ) (header : Header (Value C)) (encoders : Encoders S E W)
    (engine : ProspectiveEngine State I S E W) (state : State) (control : EvaluationControl W)
    (host : Host W) where
  -- The sink keeps what it is given, and the engine, the encoders and the clock do not write to it.
  pub record IsSingleWriter : Type ℓ where
    pub faithful : IsFaithful serde sink stored
    pub silent : IsSilent serde sink stored header [] encoders
    pub baseline_silent : (w : W) → stored (engine.baseline state w).1 ≡ stored w
    pub evaluate_silent : (i : I) (w : W) → stored (engine.evaluate state i w).1 ≡ stored w
    pub now_silent : (w : W) → stored (host.now w).1 ≡ stored w

module _ {ℓ} {I S E : Type ℓ} where
  -- the phase that fits the end of a report
  abbrev pub Fit :
      BatchExecution I S (CallFailure E) → BatchStatus I (CallFailure E) → Phase → Type 0
  Fit r BatchStatus.completed p = p ≡ between (length r.outcomes)
  Fit r (BatchStatus.interrupted _) p =
      (p ≡ between (length r.outcomes)) ⊎ ((p ≡ idle) × (length r.outcomes ≡ 0))
  Fit r (engine_failed _ (engine_error _)) p =
      (p ≡ baseline_failed) ⊎ ((k : ℕ) × (id : Text) × (p ≡ scenario_failed k id))
  Fit r (engine_failed _ blocked_before_engine) p = ⊥
  Fit r (duplicate_scenario_id _) p = Unit

module _ {ℓ} {C J O W State I S E : Type ℓ} (serde : JournalSerde C J) (sink : JournalSink O W)
    (stored : W → List ℕ) (header : Header (Value C)) (encoders : Encoders S E W)
    (engine : ProspectiveEngine State I S E W) (state : State) (control : EvaluationControl W)
    (host : Host W)
    (single : IsSingleWriter serde sink stored header encoders engine state control host)
    (quota : header.max_evaluations ≡ control.max_evaluations) (all : List (Scenario I)) where
  abbrev ids : List Text
  ids = map (λ s. s.id.value) all

  abbrev recorded : ProspectiveEngine State I S (CallFailure E) (Session J O × W)
  recorded = recording_engine serde sink encoders ids engine

  abbrev Going : Lifecycle → ℕ → Session J O × W → Type ℓ
  Going l n u = Goes serde sink stored header ids encoders l n u

  -- How the session stands when the evaluator is done.
  abbrev pub Ended : BatchExecution I S (CallFailure E) × (Session J O × W) → Type ℓ
  Ended (r, u) =
      Stuck serde sink stored header ids u
      ⊎ ((p : Phase) × (n : ℕ) × Written serde sink stored header ids (at p none) n u
          × Fit r r.status p)

  moved-Going :
      (l : Lifecycle) (n : ℕ) (s : Session J O) (w w' : W)
      → stored w' ≡ stored w
      → Going l n (s, w)
      → Going l n (s, w')
  moved-Going l n s w w' e (inl h) = inl (Written-moves serde sink stored header ids l n s w w' e h)
  moved-Going l n s w w' e (inr h) = inr (Stuck-moves serde sink stored header ids s w w' e h)

  -- a checkpoint only reads the clock
  checkpoint-Going :
      (l : Lifecycle) (n : ℕ) (u : Session J O × W) (count pending : ℕ)
      (reason : Option InterruptionReason) (u' : Session J O × W)
      → checkpoint recorded state (beside_control control) (beside_host host) u count pending
        ≡ (reason, u')
      → Going l n u
      → Going l n u'
  unfolding checkpoint
  checkpoint-Going l n (s, w) count pending reason u' h g =
      subst (Going l n) (ap (λ x. x.1) h)
        (moved-Going l n s w (host.now w).1 (single.now_silent w) g)

  silent_here : IsSilent serde sink stored header ids encoders
  silent_here = record {
    signature_silent = single.silent.signature_silent;
    error_silent = single.silent.error_silent;
  }

  invoke-Stuck :
      (success failure : Lifecycle) (n : ℕ) (call : W → Result S E × W) (u : Session J O × W)
      → Stuck serde sink stored header ids u
      → Returns serde sink stored header ids encoders success failure n
          (invoke serde sink encoders baseline_call call u)
  unfolding invoke intended emit
  invoke-Stuck success failure n call (s, w) h = rw h.0 h

  baseline-Returns :
      (u : Session J O × W)
      → header.max_evaluations ≢ 0
      → Going default 0 u
      → Returns serde sink stored header ids encoders
          (at (between 0) none)
          (at baseline_failed none)
          0
          (recorded.baseline state u)
  baseline-Returns u m (inl h) =
      invoke-Returns serde sink stored header ids encoders single.faithful silent_here baseline_call
        _ _ _ _ 0 (baseline-Admits serde sink stored header ids encoders m) (engine.baseline state)
        single.baseline_silent u h
  baseline-Returns u m (inr h) = invoke-Stuck _ _ 0 (engine.baseline state) u h

  evaluate-Returns :
      (k : ℕ) (id : Text) (i : I) (u : Session J O × W)
      → k < header.max_evaluations
      → is_at ids k id ≡ true
      → nth ids k ≡ some id
      → Going (at (between k) none) k u
      → Returns serde sink stored header ids encoders
          (at (between (suc k)) none)
          (at (scenario_failed k id) none)
          (suc k)
          (recorded.evaluate state i u)
  unfolding evaluate_call target_found
  evaluate-Returns k id i (s, w) m a q (inl h) =
      let live : is_some s.error ≡ false = ap is_some h.no_error in
      let found : nth ids s.next ≡ some id = rw h.next_is q in
      rw (live, found)
        (invoke-Returns serde sink stored header ids encoders single.faithful silent_here
          (scenario_call id) _ _ _ _ (suc k)
          (scenario-Admits serde sink stored header ids encoders k id m a) (engine.evaluate state i)
          (single.evaluate_silent i) (record s { next = s.next + 1 }, w)
          (record {
            no_error = h.no_error;
            next_is = omega (arith, h.next_is);
            journal = h.journal;
          }))
  evaluate-Returns k id i (s, w) m a q (inr h) = rw h.0 h

  returned-Ended :
      (k : ℕ) (id : Text) (r : BatchExecution I S (CallFailure E)) (s : Scenario I) (n : ℕ)
      (e : CallFailure E) (u : Session J O × W)
      → r.status ≡ engine_failed (some s) e
      → Returns serde sink stored header ids encoders
          (at (between (suc k)) none)
          (at (scenario_failed k id) none)
          n
          (err e, u)
      → Ended (r, u)
  returned-Ended k id r s n blocked_before_engine u q h = inl h
  returned-Ended k id r s n (engine_error e) u q (inl h) =
      inr (scenario_failed k id, n, h, rw q (inr (k, id, refl)))
  returned-Ended k id r s n (engine_error e) u q (inr h) = inl h

  stopped-Ended :
      (r : BatchExecution I S (CallFailure E)) (reason : InterruptionReason) (u : Session J O × W)
      → r.status ≡ BatchStatus.interrupted reason
      → Going (at (between (length r.outcomes)) none) (length r.outcomes) u
      → Ended (r, u)
  stopped-Ended r reason u q (inl h) =
      inr (between (length r.outcomes), length r.outcomes, h, rw q (inl refl))
  stopped-Ended r reason u q (inr h) = inl h

  completed-Ended :
      (r : BatchExecution I S (CallFailure E)) (u : Session J O × W)
      → r.status ≡ BatchStatus.completed
      → Going (at (between (length r.outcomes)) none) (length r.outcomes) u
      → Ended (r, u)
  completed-Ended r u q (inl h) = inr (between (length r.outcomes), length r.outcomes, h, rw q refl)
  completed-Ended r u q (inr h) = inl h

  length-snoc :
      (os : List (ScenarioOutcome I S)) (o : ScenarioOutcome I S)
      → length (os ++ o ∷ []) ≡ suc (length os)
  length-snoc os o = omega (arith, length-append os (o ∷ []))

  -- the id of the next scenario, at the place that the outcomes count
  input_ids :
      (os : List (ScenarioOutcome I S)) (s : Scenario I) (ss : List (Scenario I))
      → outcome_scenarios os ++ s ∷ ss ≡ all
      → (is_at ids (length os) s.id.value ≡ true) × (nth ids (length os) ≡ some s.id.value)
  input_ids os s ss h =
      let front = map (λ s. s.id.value) (outcome_scenarios os) in
      let e : front ++ s.id.value ∷ map (λ s. s.id.value) ss ≡ ids =
        sym (map-append (λ s. s.id.value) (outcome_scenarios os) (s ∷ ss))
        ∙ ap (λ xs. map (λ s. s.id.value) xs) h in
      let n : length front ≡ length os =
        length-map (outcome_scenarios os) (λ s. s.id.value) ∙ length-map os (λ o. o.scenario) in
      (
        subst (λ xs. is_at xs (length os) s.id.value ≡ true) e
            (subst (λ k. is_at (front ++ s.id.value ∷ map (λ s. s.id.value) ss) k s.id.value ≡ true)
              n (is_at-append front s.id.value (map (λ s. s.id.value) ss))),
        subst (λ xs. nth xs (length os) ≡ some s.id.value) e
            (subst (λ k. nth (front ++ s.id.value ∷ map (λ s. s.id.value) ss) k ≡ some s.id.value) n
              (nth-append front s.id.value (map (λ s. s.id.value) ss))),
      )

  abbrev Returned : ℕ → Text → Result S (CallFailure E) × (Session J O × W) → Type ℓ
  Returned k id c =
      Returns serde sink stored header ids encoders (at (between (suc k)) none)
        (at (scenario_failed k id) none) (suc k) c

  next-Returned :
      (os : List (ScenarioOutcome I S)) (s : Scenario I) (ss : List (Scenario I))
      (u u₁ : Session J O × W)
      → outcome_scenarios os ++ s ∷ ss ≡ all
      → checkpoint recorded state
          (beside_control control)
          (beside_host host)
          u
          (length os)
          (suc (length ss))
        ≡ (none, u₁)
      → Going (at (between (length os)) none) (length os) u
      → Returned (length os) s.id.value (recorded.evaluate state s.intervention u₁)
  next-Returned os s ss u u₁ h c g =
      let (a, n) = input_ids os s ss h in
      evaluate-Returns (length os) s.id.value s.intervention u₁
        (omega (
          arith,
          quota,
          checkpoint_goes recorded state (beside_control control) (beside_host host) u u₁
              (length os) (length ss) c,
        ))
        a n (checkpoint-Going _ _ u (length os) (suc (length ss)) none u₁ c g)

  run_candidates-Ended :
      (total : ℕ) (b : S) (ss : List (Scenario I)) (os : List (ScenarioOutcome I S))
      (u : Session J O × W)
      → outcome_scenarios os ++ ss ≡ all
      → Going (at (between (length os)) none) (length os) u
      → Ended (
          run_candidates recorded state (beside_control control) (beside_host host) total b ss os u)
  run_candidates-Ended total b [] os u h g =
      run_nil_rule recorded state (beside_control control) (beside_host host) Ended total b os u
        (λ r u' c.
          stopped-Ended
            (report recorded state (beside_control control) (beside_host host) total b os []
              (BatchStatus.interrupted r))
            r u' refl (checkpoint-Going _ _ u (length os) 0 (some r) u' c g))
        (λ u' c.
          completed-Ended
            (report recorded state (beside_control control) (beside_host host) total b os []
              BatchStatus.completed)
            u' refl (checkpoint-Going _ _ u (length os) 0 none u' c g))
  run_candidates-Ended total b (s ∷ ss) os u h g =
      run_cons_rule recorded state (beside_control control) (beside_host host) Ended total b s ss os
        u
        (λ r u' c.
          stopped-Ended
            (report recorded state (beside_control control) (beside_host host) total b os (s ∷ ss)
              (BatchStatus.interrupted r))
            r u' refl (checkpoint-Going _ _ u (length os) (suc (length ss)) (some r) u' c g))
        (λ u₁ e u₂ c q.
          returned-Ended (length os) s.id.value
            (report recorded state (beside_control control) (beside_host host) total b os ss
              (engine_failed (some s) e))
            s (suc (length os)) e u₂ refl
            (subst (Returned (length os) s.id.value) q (next-Returned os s ss u u₁ h c g)))
        (λ u₁ signature u₂ c q.
          run_candidates-Ended total b ss
            (os ++ record { scenario = s; signature = signature } ∷ []) u₂
            (rw (map-append, append_assoc) h)
            (subst (λ k. Going (at (between k) none) k u₂)
              (sym (length-snoc os (record { scenario = s; signature = signature })))
              (subst (Returned (length os) s.id.value) q (next-Returned os s ss u u₁ h c g))))

  baseline_returned-Ended :
      (c : Result S (CallFailure E) × (Session J O × W))
      → Returns serde sink stored header ids encoders
          (at (between 0) none)
          (at baseline_failed none)
          0
          c
      → Ended (baseline_returned recorded state (beside_control control) (beside_host host) all c)
  unfolding baseline_returned
  baseline_returned-Ended (ok b, u) h = run_candidates-Ended (length all) b all [] u refl h
  baseline_returned-Ended (err blocked_before_engine, u) h = inl h
  baseline_returned-Ended (err (engine_error e), u) (inl h) = inr (baseline_failed, 0, h, inl refl)
  baseline_returned-Ended (err (engine_error e), u) (inr h) = inl h

  idle-Ended :
      (status : BatchStatus I (CallFailure E)) (u : Session J O × W)
      → Fit
          (unstarted recorded state (beside_control control) (beside_host host) all status)
          status
          idle
      → Going default 0 u
      → Ended (unstarted recorded state (beside_control control) (beside_host host) all status, u)
  idle-Ended status u f (inl h) = inr (idle, 0, h, f)
  idle-Ended status u f (inr h) = inl h

  -- The evaluator leaves the session stuck, or in the phase that fits its report.
  pub admitted-Ended :
      (s : Scenario I) (ss : List (Scenario I)) (d : Option ScenarioId) (u : Session J O × W)
      → all ≡ s ∷ ss
      → Going default 0 u
      → Ended (admitted recorded state (beside_control control) (beside_host host) all d u)
  unfolding admitted
  admitted-Ended s ss (some id) u e g = idle-Ended (duplicate_scenario_id id) u tt g
  admitted-Ended s ss none u e g =
      admitted_none_rule recorded state (beside_control control) (beside_host host) Ended all u
        (λ r u' c.
          idle-Ended (BatchStatus.interrupted r) u' (inr (refl, refl))
            (checkpoint-Going _ _ u 0 (length all) (some r) u' c g))
        (λ u' c. baseline_returned-Ended (recorded.baseline state u') (
          baseline-Returns u'
            (omega (
              arith,
              quota,
              checkpoint_goes recorded state (beside_control control) (beside_host host) u u' 0
                  (length ss)
                  (subst
                    (λ (xs : List (Scenario I)).
                      checkpoint recorded state (beside_control control) (beside_host host) u 0
                        (length xs)
                      ≡ (none, u'))
                    e c),
            ))
            (checkpoint-Going _ _ u 0 (length all) none u' c g)))
