-- ===== src/Scenario/Tests.antt =====
-- The evaluation theorems at a small engine, which counts its calls in the world.
use prospect_engine.Base.{
  ℕ, ◌+◌, ◌≡◌, refl, ◌⊎◌, false, none, List, [], ◌∷◌, ok, err, if◌then◌else◌, ◌==◌, arith,
}
use prospect_engine.Base.Ord.{nat_ord}
use prospect_engine.Base.Text.{text, text_cmp}
use prospect_engine.Base.Sets.{IsDistinct, IsFirstRepeat, first_duplicate}
use prospect_engine.Base.Key.{same}
use prospect_engine.Core.{ScenarioId, Scenario, ProspectiveEngine, DecisionPolicy, scenario_id_key}
use prospect_engine.Scenario.{BatchResult, evaluate_batch, best_by_policy}
use prospect_engine.Scenario.Laws.{
  Calls, FailedAt, evaluate_batch_ok, evaluate_batch_err, Selects, best_by_policy-Selects,
}
use prospect_engine.Scenario.Controlled.{
  CancellationToken, EvaluationControl, BatchStatus, Host, duplicate_scenario_id,
  evaluate_with_clock, into_completed_batch,
}
use prospect_engine.Scenario.Controlled.Accounting.{
  Accounts, evaluate_with_clock-Accounts, outcome_scenarios,
}
use prospect_engine.Scenario.Controlled.Ends.{IsCoherent, evaluate_with_clock-IsCoherent}
use prospect_engine.Scenario.Controlled.Gate.{
  ids, IsGenuine, evaluate_with_clock-IsGenuine, evaluate_with_clock_rejects,
  into_completed_batch_opens,
}
use prospect_engine.Scenario.Controlled.Refinement.{
  IsQuiet, verdict, certain, evaluate_with_clock-evaluate_batch,
}

-- Adds the intervention to the state; the intervention 99 fails.
abbrev adder : ProspectiveEngine ℕ ℕ ℕ ℕ ℕ
adder = record {
  baseline = λ state w. (ok state, w + 1);
  evaluate = λ state i w. (if i == 99 then err i else ok (state + i), w + 1);
}

abbrev named : ScenarioId
named = record { value = text "small" }

abbrev other : ScenarioId
other = record { value = text "large" }

abbrev plan : List (Scenario ℕ)
plan = record { id = named; intervention = 2 } ∷ record { id = other; intervention = 7 } ∷ []

abbrev bad_plan : List (Scenario ℕ)
bad_plan = record { id = named; intervention = 2 } ∷ record { id = other; intervention = 99 } ∷ []

abbrev twice_plan : List (Scenario ℕ)
twice_plan = record { id = named; intervention = 2 } ∷ record { id = named; intervention = 7 } ∷ []

abbrev result : BatchResult ℕ ℕ
result = record {
  baseline = 10;
  outcomes =
      record { scenario = record { id = named; intervention = 2 }; signature = 12 }
      ∷ record { scenario = record { id = other; intervention = 7 }; signature = 17 }
      ∷ [];
}

batch_runs : evaluate_batch adder 10 plan 0 ≡ (ok result, 3)
unfolding evaluate_batch
batch_runs = refl

batch_fails : evaluate_batch adder 10 bad_plan 0 ≡ (err 99, 3)
unfolding evaluate_batch
batch_fails = refl

evaluate_batch_ok_example :
    (w₁ : ℕ) × (adder.baseline 10 0 ≡ (ok result.baseline, w₁))
    × Calls adder 10 plan w₁ result.outcomes 3
evaluate_batch_ok_example = evaluate_batch_ok adder 10 plan 0 batch_runs

evaluate_batch_err_example :
    (adder.baseline 10 0 ≡ (err 99, 3))
    ⊎ ((b : ℕ) × (w₁ : ℕ) × (adder.baseline 10 0 ≡ (ok b, w₁)) × FailedAt adder 10 bad_plan w₁ 99 3)
evaluate_batch_err_example = evaluate_batch_err adder 10 bad_plan 0 batch_fails

abbrev prefer_higher : DecisionPolicy ℕ ℕ
prefer_higher = record { utility = λ signature. signature }

best_by_policy-Selects_example :
    Selects prefer_higher result.outcomes (best_by_policy prefer_higher result)
best_by_policy-Selects_example = best_by_policy-Selects prefer_higher result

-- A signal that nobody sets, a clock that stands at 5, and no callback.
abbrev calm : Host ℕ
calm = record { now = λ w. (5, w); progress = λ _ w. w }

abbrev silent : CancellationToken ℕ
silent = record { load = λ _. false; store_true = λ w. w }

abbrev quota : ℕ → EvaluationControl ℕ
quota n = record { max_evaluations = n; deadline = none; cancellation = silent }

-- A quota of one leaves the second scenario pending.
quota_stops :
    (evaluate_with_clock adder 10 (quota 1) calm plan 0).0.pending
    ≡ record { id = other; intervention = 7 } ∷ []
unfolding evaluate_with_clock first_duplicate same text_cmp
quota_stops = refl

run_completes :
    (evaluate_with_clock adder 10 (quota 2) calm plan 0).0.status ≡ BatchStatus.completed
unfolding evaluate_with_clock first_duplicate same text_cmp
run_completes = refl

evaluate_with_clock-Accounts_example :
    Accounts bad_plan (evaluate_with_clock adder 10 (quota 5) calm bad_plan 0).0
evaluate_with_clock-Accounts_example =
    evaluate_with_clock-Accounts adder 10 (quota 5) calm bad_plan 0

evaluate_with_clock-IsGenuine_example :
    IsGenuine adder 10
      (quota 1)
      calm
      (evaluate_with_clock adder 10 (quota 1) calm plan 0).0.outcomes
evaluate_with_clock-IsGenuine_example = evaluate_with_clock-IsGenuine adder 10 (quota 1) calm plan 0

twice_not-IsDistinct : ¬ (IsDistinct (ids twice_plan))
twice_not-IsDistinct d = d.0.0 refl

evaluate_with_clock_rejects_example :
    (id : ScenarioId) × IsFirstRepeat (ids twice_plan) id
    × (evaluate_with_clock adder 10 (quota 2) calm twice_plan 0 ≡ (
      record {
        total_scenarios = 2;
        baseline = none;
        outcomes = [];
        pending = twice_plan;
        status = duplicate_scenario_id id;
      },
      0,
    ))
evaluate_with_clock_rejects_example =
    evaluate_with_clock_rejects adder 10 (quota 2) calm twice_plan 0 twice_not-IsDistinct

into_completed_batch_opens_example :
    (b : BatchResult ℕ ℕ) × (into_completed_batch
        (evaluate_with_clock adder 10 (quota 2) calm plan 0).0
      ≡ ok b)
    × (outcome_scenarios b.outcomes ≡ plan)
    × IsDistinct (ids plan)
into_completed_batch_opens_example =
    into_completed_batch_opens adder 10 (quota 2) calm plan 0 run_completes

calm-IsQuiet : IsQuiet (quota 2) calm
calm-IsQuiet = record {
  not_cancelled = λ w. refl;
  no_deadline = refl;
  clock_silent = λ w. refl;
  progress_silent = λ u w. refl;
}

plan-IsDistinct : IsDistinct (ids plan)
plan-IsDistinct = into_completed_batch_opens_example.3

evaluate_with_clock-evaluate_batch_example :
    verdict (evaluate_with_clock adder 10 (quota 2) calm plan 0)
    ≡ certain (evaluate_batch adder 10 plan 0)
evaluate_with_clock-evaluate_batch_example =
    evaluate_with_clock-evaluate_batch adder 10 (quota 2) calm calm-IsQuiet plan 0 plan-IsDistinct
      (omega arith)

evaluate_with_clock-IsCoherent_example :
    IsCoherent (quota 1) (evaluate_with_clock adder 10 (quota 1) calm plan 0).0
evaluate_with_clock-IsCoherent_example =
    evaluate_with_clock-IsCoherent adder 10 (quota 1) calm (record { id = named; intervention = 2 })
      (record { id = other; intervention = 7 } ∷ []) 0
