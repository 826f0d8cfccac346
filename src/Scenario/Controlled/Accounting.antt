-- ===== src/Scenario/Controlled/Accounting.antt =====
-- No scenario is lost, repeated or reordered by the controlled evaluator.
use prospect_engine.Base.{◌≡◌, refl, none, some, List, [], ◌∷◌, ◌++◌, map, length}
use mathlib.Core.List.{append_assoc, map-append}
use prospect_engine.Core.{Scenario, ProspectiveEngine}
use prospect_engine.Scenario.{ScenarioOutcome}
use prospect_engine.Scenario.Controlled.{
  EvaluationControl, BatchStatus, BatchExecution, Host, engine_failed, duplicate_scenario_id,
  run_candidates, unstarted, evaluate_with_clock,
}
use prospect_engine.Scenario.Controlled.Rules.{IsEarly, run_nil_rule, run_cons_rule, admitted_rule}

-- the candidate whose call failed
abbrev pub failed_candidate {ℓ} : {I E : Type ℓ} → BatchStatus I E → List (Scenario I)
failed_candidate (engine_failed (some s) _) = s ∷ []
failed_candidate _ = []

abbrev pub outcome_scenarios {ℓ} : {I S : Type ℓ} → List (ScenarioOutcome I S) → List (Scenario I)
outcome_scenarios os = map (λ o. o.scenario) os

-- The successful prefix, the failed candidate and the unstarted rest make up the input.
pub record Accounts {ℓ} {I S E : Type ℓ} (ss : List (Scenario I)) (r : BatchExecution I S E)
    : Type ℓ where
  pub partition : outcome_scenarios r.outcomes ++ (failed_candidate r.status ++ r.pending) ≡ ss
  pub total : r.total_scenarios ≡ length ss

module _ {ℓ} {State I S E W : Type ℓ} (engine : ProspectiveEngine State I S E W) (state : State)
    (control : EvaluationControl W) (host : Host W) where
  run_candidates-Accounts :
      (input : List (Scenario I)) (b : S) (ss : List (Scenario I)) (os : List (ScenarioOutcome I S))
      (w : W)
      → outcome_scenarios os ++ ss ≡ input
      → Accounts input (run_candidates engine state control host (length input) b ss os w).0
  run_candidates-Accounts input b [] os w h =
      run_nil_rule engine state control host (λ r. Accounts input r.0) (length input) b os w
        (λ r w' _. record { partition = h; total = refl })
        (λ w' _. record { partition = h; total = refl })
  run_candidates-Accounts input b (s ∷ ss) os w h =
      run_cons_rule engine state control host (λ r. Accounts input r.0) (length input) b s ss os w
        (λ r w' _. record { partition = h; total = refl })
        (λ w₁ e w₂ _ _. record { partition = h; total = refl })
        (λ w₁ signature w₂ _ _.
          run_candidates-Accounts input b ss
            (os ++ record { scenario = s; signature = signature } ∷ []) _
            (rw (map-append, append_assoc) h))

  -- However a run ends, its successful outcomes, the candidate whose call failed and the pending
  -- scenarios are together the input, in input order, and the report counts them all.
  pub evaluate_with_clock-Accounts :
      (ss : List (Scenario I)) (w : W)
      → Accounts ss (evaluate_with_clock engine state control host ss w).0
  unfolding evaluate_with_clock
  evaluate_with_clock-Accounts ss w =
      admitted_rule engine state control host (λ r. Accounts ss r.0) ss _ w
        (λ status w' early. early_Accounts status early)
        (λ b w'. run_candidates-Accounts ss b ss [] w' refl)
    where
      early_Accounts :
          (status : BatchStatus I E)
          → IsEarly status
          → Accounts ss (unstarted engine state control host ss status)
      early_Accounts BatchStatus.completed early = absurd early
      early_Accounts (BatchStatus.interrupted r) early = record { partition = refl; total = refl }
      early_Accounts (engine_failed none e) early = record { partition = refl; total = refl }
      early_Accounts (engine_failed (some s) e) early = absurd early
      early_Accounts (duplicate_scenario_id id) early = record { partition = refl; total = refl }
