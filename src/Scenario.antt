-- ===== src/Scenario.antt =====
-- crates/prospect-scenario/src/lib.rs: batch evaluation, scoring and selection by one policy.
pub mod Laws
pub mod Controlled
pub mod Decision
mod Tests
use prospect_engine.Base.{
  Bool, true, false, Option, none, some, List, [], ◌∷◌, map, Result, ok, err, if◌then◌else◌,
  Ordering,
}
use prospect_engine.Base.Ord.{Ord, is_gt}
use prospect_engine.Base.Effects.{Effect, ◌>>=◌, return}
use prospect_engine.Core.{ScenarioId, Scenario, ProspectiveEngine, SignatureMetric, DecisionPolicy}

pub record ScenarioOutcome {ℓ} (I S : Type ℓ) : Type ℓ where
  pub scenario : Scenario I
  pub signature : S

pub record BatchResult {ℓ} (I S : Type ℓ) : Type ℓ where
  pub baseline : S
  pub outcomes : List (ScenarioOutcome I S)

pub record ScenarioScore {ℓ} (Score : Type ℓ) : Type ℓ where
  pub scenario_id : ScenarioId
  pub score : Score

module _ {ℓ} {State I S E W : Type ℓ} (engine : ProspectiveEngine State I S E W)
    (state : State) where
  -- The loop of `evaluate_batch` over `scenarios`; `?` leaves it at the first error.
  unfoldable pub evaluate_each : List (Scenario I) → Effect W E (List (ScenarioOutcome I S))
  evaluate_each [] = return []
  evaluate_each (s ∷ ss) = do
    signature ← engine.evaluate state s.intervention
    outcomes ← evaluate_each ss
    return (record { scenario = s; signature = signature } ∷ outcomes)

  unfoldable pub evaluate_batch : List (Scenario I) → Effect W E (BatchResult I S)
  unfolding evaluate_each
  evaluate_batch scenarios = do
    baseline ← engine.baseline state
    outcomes ← evaluate_each scenarios
    return (record { baseline = baseline; outcomes = outcomes })

unfoldable pub score_against_baseline {ℓ} :
    {I S Score : Type ℓ} → BatchResult I S → SignatureMetric S Score → List (ScenarioScore Score)
score_against_baseline batch metric =
    map
      (λ outcome. record {
        scenario_id = outcome.scenario.id;
        score = metric.compare batch.baseline outcome.signature;
      })
      batch.outcomes

module _ {ℓ} {I S Score : Type ℓ} ⦃o : Ord Score⦄ (policy : DecisionPolicy S Score) where
  -- The loop of `best_by_policy`: a candidate replaces the best only if it scores more.
  unfoldable pub best_from :
      ScenarioOutcome I S → Score → List (ScenarioOutcome I S) → ScenarioOutcome I S × Score
  best_from best best_score [] = (best, best_score)
  best_from best best_score (candidate ∷ rest) =
      let score = policy.utility candidate.signature in
      let better = is_gt (o.cmp score best_score) in
      best_from (if better then candidate else best) (if better then score else best_score) rest

  unfoldable pub best_by_policy : BatchResult I S → Option (ScenarioOutcome I S × Score)
  unfolding best_from
  best_by_policy batch = elim batch.outcomes [
    | [] ↦ none
    | first ∷ rest ↦ some (best_from first (policy.utility first.signature) rest)
  ]
