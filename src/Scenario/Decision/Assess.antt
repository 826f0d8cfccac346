-- ===== src/Scenario/Decision/Assess.antt =====
-- crates/prospect-scenario/src/decision.rs: `assess_decision_set` and its helpers. The callback is
-- `FnMut`: it takes and returns the world `W`.
use prospect_engine.Base.{
  ℕ, ◌+◌, Bool, true, false, ◌&&◌, Option, none, some, List, [], ◌∷◌, ◌++◌, map, if◌then◌else◌,
  is_empty, Result, ok, err,
}
use prospect_engine.Base.Effects.{Effect, return, ◌>>=◌}
use prospect_engine.Base.Key.{same, text_key}
use prospect_engine.Base.Text.{Text, is_blank}
use prospect_engine.Base.Sets.{contains, first_duplicate}
use prospect_engine.Scenario.{ScenarioOutcome, BatchResult}
use prospect_engine.Scenario.Decision.{
  AlternativeId, baseline, scenario, alternative_id_key, ObjectiveDirection, maximize, minimize,
  Objective, admissible, rejected, AssessedAlternative, DecisionSetError, duplicate_alternative_id,
  empty_objective_vector, empty_objective_id, duplicate_objective_id, objective_schema_mismatch,
  ObjectiveSpec, ConstrainedDecisionSet,
}

-- The derived `PartialEq`s.
abbrev pub same_direction : ObjectiveDirection → ObjectiveDirection → Bool
same_direction maximize maximize = true
same_direction minimize minimize = true
same_direction _ _ = false

abbrev pub same_spec : ObjectiveSpec → ObjectiveSpec → Bool
same_spec a b = same a.id b.id && same_direction a.direction b.direction

abbrev pub same_specs : List ObjectiveSpec → List ObjectiveSpec → Bool
same_specs [] [] = true
same_specs (a ∷ as₀) (b ∷ bs) = same_spec a b && same_specs as₀ bs
same_specs _ _ = false

-- The schema entry of an objective.
abbrev pub spec_of {ℓ} : {T : Type ℓ} → Objective T → ObjectiveSpec
spec_of objective = record { id = objective.id; direction = objective.direction }

abbrev pub prepend {ℓ κ} : {A : Type ℓ} {E : Type κ} → A → Result (List A) E → Result (List A) E
prepend a (ok rest) = ok (a ∷ rest)
prepend a (err e) = err e

-- The loop of `validate_objectives`, with the ids seen and the index; its result is `current`.
unfoldable pub collect_specs {ℓ} :
    {T : Type ℓ}
    → AlternativeId
    → List Text
    → ℕ
    → List (Objective T)
    → Result (List ObjectiveSpec) DecisionSetError
collect_specs alternative ids index [] = ok []
collect_specs alternative ids index (objective ∷ rest) =
    let current = collect_specs alternative (objective.id ∷ ids) (index + 1) rest in
    if is_blank objective.id
    then err (empty_objective_id alternative index)
    else if contains objective.id ids
    then err (duplicate_objective_id alternative objective.id)
    else prepend (spec_of objective) current

-- The match on the schema: the first admissible alternative sets it, the others must meet it.
unfoldable pub settle_schema :
    AlternativeId
    → Option (List ObjectiveSpec)
    → List ObjectiveSpec
    → Result (Option (List ObjectiveSpec)) DecisionSetError
settle_schema alternative none current = ok (some current)
settle_schema alternative (some expected) current =
    if same_specs expected current
    then ok (some expected)
    else err (objective_schema_mismatch alternative)

abbrev pub settle_collected :
    AlternativeId
    → Option (List ObjectiveSpec)
    → Result (List ObjectiveSpec) DecisionSetError
    → Result (Option (List ObjectiveSpec)) DecisionSetError
settle_collected alternative schema (ok current) = settle_schema alternative schema current
settle_collected alternative schema (err e) = err e

-- `validate_objectives`; the schema that it writes through `&mut` is its result.
unfoldable pub validate_objectives {ℓ} :
    {T : Type ℓ}
    → AlternativeId
    → List (Objective T)
    → Option (List ObjectiveSpec)
    → Result (Option (List ObjectiveSpec)) DecisionSetError
unfolding collect_specs settle_schema
validate_objectives alternative objectives schema =
    if is_empty objectives
    then err (empty_objective_vector alternative)
    else settle_collected alternative schema (collect_specs alternative [] 0 objectives)

module _ {ℓ} {R T : Type ℓ} where
  unfoldable pub push_validated :
      List (AssessedAlternative R T)
      → AlternativeId
      → List (Objective T)
      → Result (Option (List ObjectiveSpec)) DecisionSetError
      → Result (ConstrainedDecisionSet R T) DecisionSetError
  push_validated alternatives id objectives (ok schema) = ok (record {
    alternatives = alternatives ++ record { id = id; assessment = admissible objectives } ∷ [];
    schema = schema;
  })
  push_validated alternatives id objectives (err e) = err e

  -- `push_assessment`: the two `&mut` arguments are the set built so far.
  unfoldable pub push_assessment :
      ConstrainedDecisionSet R T
      → AlternativeId
      → Result (List (Objective T)) R
      → Result (ConstrainedDecisionSet R T) DecisionSetError
  unfolding validate_objectives push_validated
  push_assessment set id (err reason) = ok (record set {
    alternatives = set.alternatives ++ record { id = id; assessment = rejected reason } ∷ [];
  })
  push_assessment set id (ok objectives) =
      push_validated set.alternatives id objectives (validate_objectives id objectives set.schema)

module _ {ℓ} {S R T W : Type ℓ}
    (assess : AlternativeId → S → S → W → Result (List (Objective T)) R × W) (reference : S) where
  -- One call of the callback and the `push_assessment` that follows it.
  unfoldable pub assess_alternative :
      AlternativeId
      → S
      → ConstrainedDecisionSet R T
      → Effect W DecisionSetError (ConstrainedDecisionSet R T)
  assess_alternative id signature set w =
      let (assessment, w') = assess id reference signature w in
      (push_assessment set id assessment, w')

module _ {ℓ} {I S R T W : Type ℓ}
    (assess : AlternativeId → S → S → W → Result (List (Objective T)) R × W) (reference : S) where
  -- The loop over the outcomes.
  unfoldable pub assess_outcomes :
      List (ScenarioOutcome I S)
      → ConstrainedDecisionSet R T
      → Effect W DecisionSetError (ConstrainedDecisionSet R T)
  unfolding assess_alternative
  assess_outcomes [] set = return set
  assess_outcomes (outcome ∷ rest) set = do
    set' ← assess_alternative assess reference (scenario outcome.scenario.id) outcome.signature set
    assess_outcomes rest set'

abbrev pub scenario_alternatives {ℓ} :
    {I S : Type ℓ} → List (ScenarioOutcome I S) → List AlternativeId
scenario_alternatives outcomes = map (λ o. scenario o.scenario.id) outcomes

module _ {ℓ} {I S R T W : Type ℓ} (batch : BatchResult I S)
    (assess : AlternativeId → S → S → W → Result (List (Objective T)) R × W) where
  -- The rest of `assess_decision_set`, given the first duplicate id if there is one.
  unfoldable pub assess_checked :
      Option AlternativeId → Effect W DecisionSetError (ConstrainedDecisionSet R T)
  unfolding assess_outcomes assess_alternative
  assess_checked (some id) w = (err (duplicate_alternative_id id), w)
  assess_checked none w =
      (assess_alternative assess batch.baseline baseline batch.baseline
            (record { alternatives = []; schema = none })
          >>= assess_outcomes assess batch.baseline batch.outcomes)
        w

  unfoldable pub assess_decision_set : Effect W DecisionSetError (ConstrainedDecisionSet R T)
  unfolding assess_checked
  assess_decision_set w =
      assess_checked (first_duplicate [] (scenario_alternatives batch.outcomes)) w
