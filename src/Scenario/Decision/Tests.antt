-- ===== src/Scenario/Decision/Tests.antt =====
-- The decision theorems at three alternatives of two objectives.
use prospect_engine.Base.{
  ℕ, ◌+◌, ◌≡◌, refl, false, some, List, [], ◌∷◌, ◌++◌, Result, ok, err, if◌then◌else◌, ltb, filter,
}
use prospect_engine.Base.Ord.{nat_ord}
use prospect_engine.Base.Text.{text, text_cmp}
use prospect_engine.Base.Key.{same, text_key}
use prospect_engine.Base.Sets.{IsDistinct, IsFirstRepeat, first_duplicate, contains}
use prospect_engine.Scenario.{ScenarioOutcome, BatchResult}
use prospect_engine.Scenario.Decision.{
  AlternativeId, alternative_id_key, baseline, scenario, maximize, minimize, Objective,
  ObjectiveSpec, AssessedAlternative, ConstrainedDecisionSet, duplicate_alternative_id, admissible,
  rejected, is_admissible, compare_vectors, preferred_cmp, dominates,
}
use prospect_engine.Scenario.Decision.Assess.{
  push_assessment, assess_decision_set, scenario_alternatives,
}
use prospect_engine.Scenario.Decision.Select.{
  lexicographic_best, pareto_front, pareto_dominance_witnesses,
}
use prospect_engine.Scenario.Decision.Schema.{
  IsWellFormed, alternative_ids, assess_decision_set-IsWellFormed, assess_decision_set_rejects,
}
use prospect_engine.Scenario.Decision.Lexicographic.{Picks, lexicographic_best-Picks}
use prospect_engine.Scenario.Decision.Pareto.{is_dominated}
use prospect_engine.Scenario.Decision.Optimal.{lexicographic_best-pareto_front}
use prospect_engine.Scenario.Decision.Witnesses.{all_witnesses, pareto_dominance_witnesses-all}

abbrev outcome : ℕ → ℕ → ScenarioOutcome ℕ ℕ
outcome i signature = record {
  scenario = record { id = record { value = i ∷ [] }; intervention = i };
  signature = signature;
}

abbrev batch : BatchResult ℕ ℕ
batch = record { baseline = 10; outcomes = outcome 1 12 ∷ outcome 2 50 ∷ outcome 3 11 ∷ [] }

abbrev doubled : BatchResult ℕ ℕ
doubled = record { baseline = 10; outcomes = outcome 1 12 ∷ outcome 1 50 ∷ [] }

abbrev measured : ℕ → List (Objective ℕ)
measured signature =
    record { id = text "utility"; direction = maximize; value = signature }
    ∷ record { id = text "cost"; direction = minimize; value = 3 }
    ∷ []

-- Signatures above 20 break the constraint. The world counts the calls.
abbrev assess : AlternativeId → ℕ → ℕ → ℕ → Result (List (Objective ℕ)) ℕ × ℕ
assess id reference signature calls =
    (if ltb 20 signature then err signature else ok (measured signature), calls + 1)

abbrev specs : List ObjectiveSpec
specs =
    record { id = text "utility"; direction = maximize }
    ∷ record { id = text "cost"; direction = minimize }
    ∷ []

abbrev numbered : ℕ → AlternativeId
numbered i = scenario (record { value = i ∷ [] })

abbrev best : AssessedAlternative ℕ ℕ
best = record { id = numbered 1; assessment = admissible (measured 12) }

abbrev assessed : ConstrainedDecisionSet ℕ ℕ
assessed = record {
  alternatives =
      record { id = baseline; assessment = admissible (measured 10) }
      ∷ best
      ∷ record { id = numbered 2; assessment = rejected 50 }
      ∷ record { id = numbered 3; assessment = admissible (measured 11) }
      ∷ [];
  schema = some specs;
}

assess_runs : assess_decision_set batch assess 0 ≡ (ok assessed, 4)
unfolding assess_decision_set push_assessment first_duplicate contains same text_key text_cmp
assess_runs = refl

assess_decision_set-IsWellFormed_example :
    IsWellFormed assessed
    × (alternative_ids assessed ≡ baseline ∷ scenario_alternatives batch.outcomes)
    × IsDistinct (scenario_alternatives batch.outcomes)
assess_decision_set-IsWellFormed_example =
    assess_decision_set-IsWellFormed batch assess 0 assess_runs

assess_decision_set_rejects_example :
    (id : AlternativeId) × IsFirstRepeat (scenario_alternatives doubled.outcomes) id
    × (assess_decision_set doubled assess 0 ≡ (err (duplicate_alternative_id id), 0))
assess_decision_set_rejects_example = assess_decision_set_rejects doubled assess 0 (λ d. d.0.0 refl)

picks_best : lexicographic_best assessed ≡ some best
unfolding lexicographic_best compare_vectors preferred_cmp
picks_best = refl

lexicographic_best-Picks_example : Picks specs assessed.alternatives (lexicographic_best assessed)
lexicographic_best-Picks_example =
    lexicographic_best-Picks assessed specs assess_decision_set-IsWellFormed_example.0 refl

front : pareto_front assessed ≡ best ∷ []
unfolding pareto_front dominates preferred_cmp
front = refl

lexicographic_best-pareto_front_example :
    (is_dominated assessed best ≡ false)
    × (before : List (AssessedAlternative ℕ ℕ)) × (after : List (AssessedAlternative ℕ ℕ))
    × (pareto_front assessed ≡ before ++ best ∷ after)
lexicographic_best-pareto_front_example =
    lexicographic_best-pareto_front assessed specs best assess_decision_set-IsWellFormed_example.0
      refl picks_best

pareto_dominance_witnesses-all_example :
    pareto_dominance_witnesses assessed
    ≡ all_witnesses
        (filter is_admissible assessed.alternatives)
        (filter is_admissible assessed.alternatives)
pareto_dominance_witnesses-all_example = pareto_dominance_witnesses-all assessed
