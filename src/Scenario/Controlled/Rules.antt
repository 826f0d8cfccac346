-- ===== src/Scenario/Controlled/Rules.antt =====
-- Proof rules for the steps of the controlled evaluator: a property of the report and the world
-- holds after a step if it holds after each way the step can go.
use prospect_engine.Base.{
  ℕ, ◌≡◌, refl, Option, none, some, List, [], ◌∷◌, ◌++◌, Result, ok, err, length, suc, ◌+◌,
}
use prospect_engine.Core.{ScenarioId, Scenario, ProspectiveEngine, scenario_id_key}
use prospect_engine.Scenario.{ScenarioOutcome}
use prospect_engine.Scenario.Controlled.{
  EvaluationControl, InterruptionReason, BatchStatus, BatchExecution, Host, scenario_completed,
  engine_failed, duplicate_scenario_id, checkpoint, on_checkpoint, report, candidate_returned,
  run_candidates, unstarted, baseline_returned, admitted,
}

-- a status that a run can end with before any candidate call
abbrev pub IsEarly {ℓ} : {I E : Type ℓ} → BatchStatus I E → Type 0
IsEarly BatchStatus.completed = ⊥
IsEarly (engine_failed (some _) _) = ⊥
IsEarly _ = Unit

module _ {ℓ κ} {State I S E W : Type ℓ} (engine : ProspectiveEngine State I S E W) (state : State)
    (control : EvaluationControl W) (host : Host W) (P : BatchExecution I S E × W → Type κ) where
  pub on_checkpoint_rule :
      (stop : InterruptionReason → BatchExecution I S E) (go : W → BatchExecution I S E × W)
      (c : Option InterruptionReason × W)
      → ((r : InterruptionReason) (w : W) → c ≡ (some r, w) → P (stop r, w))
      → ((w : W) → c ≡ (none, w) → P (go w))
      → P (on_checkpoint engine state control host stop go c)
  unfolding on_checkpoint
  on_checkpoint_rule stop go (some r, w) h k = h r w refl
  on_checkpoint_rule stop go (none, w) h k = k w refl

  -- the notification that follows a successful candidate call
  abbrev pub notified : ℕ → ℕ → Scenario I → W → W
  notified total index s w =
      host.progress
        (record {
          event = scenario_completed index s.id;
          completed_scenarios = index + 1;
          total_scenarios = total;
        })
        w

  candidate_returned_rule :
      (total : ℕ) (b : S) (s : Scenario I) (ss : List (Scenario I))
      (os : List (ScenarioOutcome I S))
      (continue : List (ScenarioOutcome I S) → W → BatchExecution I S E × W) (c : Result S E × W)
      → ((signature : S) (w : W)
          → c ≡ (ok signature, w)
          → P (
              continue
                (os ++ record { scenario = s; signature = signature } ∷ [])
                (notified total (length os) s w)))
      → ((e : E) (w : W)
          → c ≡ (err e, w)
          → P (report engine state control host total b os ss (engine_failed (some s) e), w))
      → P (candidate_returned engine state control host total b s ss os continue c)
  unfolding candidate_returned
  candidate_returned_rule total b s ss os continue (ok signature, w) h k = h signature w refl
  candidate_returned_rule total b s ss os continue (err e, w) h k = k e w refl

  module _ (total : ℕ) (b : S) where
    pub run_nil_rule :
        (os : List (ScenarioOutcome I S)) (w : W)
        → ((r : InterruptionReason) (w' : W)
            → checkpoint engine state control host w (length os) 0 ≡ (some r, w')
            → P (report engine state control host total b os [] (BatchStatus.interrupted r), w'))
        → ((w' : W)
            → checkpoint engine state control host w (length os) 0 ≡ (none, w')
            → P (report engine state control host total b os [] BatchStatus.completed, w'))
        → P (run_candidates engine state control host total b [] os w)
    unfolding run_candidates
    run_nil_rule os w h k = on_checkpoint_rule _ _ _ h k

    pub run_cons_rule :
        (s : Scenario I) (ss : List (Scenario I)) (os : List (ScenarioOutcome I S)) (w : W)
        → ((r : InterruptionReason) (w' : W)
            → checkpoint engine state control host w (length os) (suc (length ss)) ≡ (some r, w')
            → P (
              report engine state control host total b os (s ∷ ss) (BatchStatus.interrupted r),
              w',
            ))
        → ((w₁ : W) (e : E) (w₂ : W)
            → checkpoint engine state control host w (length os) (suc (length ss)) ≡ (none, w₁)
            → engine.evaluate state s.intervention w₁ ≡ (err e, w₂)
            → P (report engine state control host total b os ss (engine_failed (some s) e), w₂))
        → ((w₁ : W) (signature : S) (w₂ : W)
            → checkpoint engine state control host w (length os) (suc (length ss)) ≡ (none, w₁)
            → engine.evaluate state s.intervention w₁ ≡ (ok signature, w₂)
            → P (
                run_candidates engine state control host total b ss
                  (os ++ record { scenario = s; signature = signature } ∷ [])
                  (notified total (length os) s w₂)))
        → P (run_candidates engine state control host total b (s ∷ ss) os w)
    unfolding run_candidates
    run_cons_rule s ss os w h k l =
        on_checkpoint_rule _
          (λ w'.
            candidate_returned engine state control host total b s ss os
              (run_candidates engine state control host total b ss)
              (engine.evaluate state s.intervention w'))
          _ h
          (λ w₁ c.
            candidate_returned_rule total b s ss os
              (run_candidates engine state control host total b ss)
              (engine.evaluate state s.intervention w₁) (λ signature w₂ q. l w₁ signature w₂ c q)
              (λ e w₂ q. k w₁ e w₂ c q))

  baseline_returned_rule :
      (ss : List (Scenario I)) (c : Result S E × W)
      → ((status : BatchStatus I E) (w : W)
          → IsEarly status
          → P (unstarted engine state control host ss status, w))
      → ((b : S) (w : W) → P (run_candidates engine state control host (length ss) b ss [] w))
      → P (baseline_returned engine state control host ss c)
  unfolding baseline_returned
  baseline_returned_rule ss (ok b, w) h k = k b _
  baseline_returned_rule ss (err e, w) h k = h (engine_failed none e) w tt

  pub admitted_none_rule :
      (ss : List (Scenario I)) (w : W)
      → ((r : InterruptionReason) (w' : W)
          → checkpoint engine state control host w 0 (length ss) ≡ (some r, w')
          → P (unstarted engine state control host ss (BatchStatus.interrupted r), w'))
      → ((w' : W)
          → checkpoint engine state control host w 0 (length ss) ≡ (none, w')
          → P (baseline_returned engine state control host ss (engine.baseline state w')))
      → P (admitted engine state control host ss none w)
  unfolding admitted
  admitted_none_rule ss w h k =
      on_checkpoint_rule
        (λ reason. unstarted engine state control host ss (BatchStatus.interrupted reason))
        (λ w'. baseline_returned engine state control host ss (engine.baseline state w')) _ h k

  -- A property of every report that the evaluator can return before its last notification.
  pub admitted_rule :
      (ss : List (Scenario I)) (d : Option ScenarioId) (w : W)
      → ((status : BatchStatus I E) (w' : W)
          → IsEarly status
          → P (unstarted engine state control host ss status, w'))
      → ((b : S) (w' : W) → P (run_candidates engine state control host (length ss) b ss [] w'))
      → P (admitted engine state control host ss d w)
  unfolding admitted
  admitted_rule ss (some id) w h k = h (duplicate_scenario_id id) w tt
  admitted_rule ss none w h k =
      admitted_none_rule ss w (λ r w' _. h (BatchStatus.interrupted r) w' tt)
        (λ w' _. baseline_returned_rule ss (engine.baseline state w') h k)
