-- ===== src/Scenario/Decision.antt =====
-- crates/prospect-scenario/src/decision.rs: the data of constraint-first decisions, and the
-- comparison of objective vectors.
pub mod Assess
pub mod Select
pub mod Validated
pub mod Schema
pub mod Vectors
pub mod Lexicographic
pub mod Pareto
pub mod Optimal
pub mod Witnesses
mod Tests
use prospect_engine.Base.{
  ℕ, ◌≡◌, refl, Bool, true, false, ◌&&◌, Option, none, some, List, [], ◌∷◌, ◌++◌, if◌then◌else◌,
  length, filter, Ordering, lt, eq, gt, is_empty, ◌-◌, arith, ◌≢◌, not,
}
use prospect_engine.Base.Ord.{Ord, flip}
use prospect_engine.Base.Key.{Key}
use prospect_engine.Base.Text.{Text, text_cmp, text_cmp-flip, text_cmp_trans}
use prospect_engine.Core.{ScenarioId, scenario_id_eq}

pub data AlternativeId : Type 0 where
  baseline : AlternativeId
  scenario : ScenarioId → AlternativeId

-- The derived `Ord`: the baseline comes first.
abbrev pub alternative_cmp : AlternativeId → AlternativeId → Ordering
alternative_cmp baseline baseline = eq
alternative_cmp baseline (scenario _) = lt
alternative_cmp (scenario _) baseline = gt
alternative_cmp (scenario a) (scenario b) = text_cmp a.value b.value

pub alternative_cmp-flip : (a b : AlternativeId) → alternative_cmp b a ≡ flip (alternative_cmp a b)
alternative_cmp-flip baseline baseline = refl
alternative_cmp-flip baseline (scenario _) = refl
alternative_cmp-flip (scenario _) baseline = refl
alternative_cmp-flip (scenario a) (scenario b) = text_cmp-flip a.value b.value

pub alternative_cmp_trans :
    (a b c : AlternativeId)
    → alternative_cmp a b ≢ gt
    → alternative_cmp b c ≢ gt
    → alternative_cmp a c ≢ gt
alternative_cmp_trans baseline b baseline h k = ground arith
alternative_cmp_trans baseline b (scenario _) h k = ground arith
alternative_cmp_trans (scenario _) baseline c h k = absurd (h refl)
alternative_cmp_trans (scenario _) (scenario _) baseline h k = absurd (k refl)
alternative_cmp_trans (scenario a) (scenario b) (scenario c) h k =
    text_cmp_trans a.value b.value c.value h k

pub alternative_eq : (a b : AlternativeId) → alternative_cmp a b ≡ eq → a ≡ b
alternative_eq baseline baseline h = refl
alternative_eq baseline (scenario _) h = cc
alternative_eq (scenario _) baseline h = cc
alternative_eq (scenario a) (scenario b) h = mathlib.Core.Path.ap scenario (scenario_id_eq a b h)

instance abbrev pub alternative_id_key : Key AlternativeId
alternative_id_key = record {
  order = record {
    cmp = alternative_cmp;
    cmp_flip = alternative_cmp-flip;
    cmp_trans = alternative_cmp_trans;
  };
  eq_of_cmp = alternative_eq;
}

pub data ObjectiveDirection : Type 0 where
  maximize minimize : ObjectiveDirection

pub record Objective {ℓ} (T : Type ℓ) : Type ℓ where
  pub id : Text
  pub direction : ObjectiveDirection
  pub value : T

pub data AlternativeAssessment {ℓ} (R T : Type ℓ) : Type ℓ where
  admissible : List (Objective T) → AlternativeAssessment R T
  rejected : R → AlternativeAssessment R T

pub record AssessedAlternative {ℓ} (R T : Type ℓ) : Type ℓ where
  pub id : AlternativeId
  pub assessment : AlternativeAssessment R T

pub data DecisionSetError : Type 0 where
  duplicate_alternative_id : AlternativeId → DecisionSetError
  empty_objective_vector : AlternativeId → DecisionSetError
  empty_objective_id : AlternativeId → ℕ → DecisionSetError
  duplicate_objective_id : AlternativeId → Text → DecisionSetError
  objective_schema_mismatch : AlternativeId → DecisionSetError

pub record ObjectiveSpec : Type 0 where
  pub id : Text
  pub direction : ObjectiveDirection

pub record ParetoDominanceWitness : Type 0 where
  pub dominator : AlternativeId
  pub dominated : AlternativeId
  pub strictly_better_objective_ids : List Text

pub record ConstrainedDecisionSet {ℓ} (R T : Type ℓ) : Type ℓ where
  pub alternatives : List (AssessedAlternative R T)
  pub schema : Option (List ObjectiveSpec)

module _ {ℓ} {R T : Type ℓ} where
  abbrev pub assessment_objectives : AlternativeAssessment R T → Option (List (Objective T))
  assessment_objectives (admissible objectives) = some objectives
  assessment_objectives (rejected _) = none

  abbrev pub assessment_admissible : AlternativeAssessment R T → Bool
  assessment_admissible (admissible _) = true
  assessment_admissible (rejected _) = false

  -- `AssessedAlternative::is_admissible`
  abbrev pub is_admissible : AssessedAlternative R T → Bool
  is_admissible alternative = assessment_admissible alternative.assessment

  -- `AssessedAlternative::objectives`
  abbrev pub objectives : AssessedAlternative R T → Option (List (Objective T))
  objectives alternative = assessment_objectives alternative.assessment

  -- `objectives().expect(…)`, which is called on admissible alternatives only.
  abbrev pub expect_objectives : AssessedAlternative R T → List (Objective T)
  expect_objectives alternative = elim (objectives alternative) [ some v ↦ v | none ↦ [] ]

  unfoldable pub admissible_count : ConstrainedDecisionSet R T → ℕ
  admissible_count set = length (filter is_admissible set.alternatives)

  unfoldable pub rejected_count : ConstrainedDecisionSet R T → ℕ
  unfolding admissible_count
  rejected_count set = length set.alternatives - admissible_count set

  unfoldable pub objective_count : ConstrainedDecisionSet R T → ℕ
  objective_count set = elim set.schema [ none ↦ 0 | some specs ↦ length specs ]

module _ {ℓ} {T : Type ℓ} ⦃o : Ord T⦄ where
  unfoldable pub preferred_cmp : T → T → ObjectiveDirection → Ordering
  preferred_cmp left right maximize = o.cmp left right
  preferred_cmp left right minimize = o.cmp right left

  -- `zip` ends with the shorter vector; the first order that is not `Equal` is returned.
  unfoldable pub compare_vectors : List (Objective T) → List (Objective T) → Ordering
  compare_vectors [] _ = eq
  compare_vectors (_ ∷ _) [] = eq
  compare_vectors (l ∷ ls) (r ∷ rs) =
      let rest = compare_vectors ls rs in
      elim (preferred_cmp l.value r.value l.direction) [ eq ↦ rest | lt ↦ lt | gt ↦ gt ]

  -- The loop of `dominates` with its flag.
  unfoldable pub dominates_from : Bool → List (Objective T) → List (Objective T) → Bool
  dominates_from strictly_better [] _ = strictly_better
  dominates_from strictly_better (_ ∷ _) [] = strictly_better
  dominates_from strictly_better (l ∷ ls) (r ∷ rs) =
      elim (preferred_cmp l.value r.value l.direction) [
        | lt ↦ false
        | gt ↦ dominates_from true ls rs
        | eq ↦ dominates_from strictly_better ls rs
      ]

  unfoldable pub dominates : List (Objective T) → List (Objective T) → Bool
  unfolding dominates_from
  dominates left right = dominates_from false left right

  -- The loop of `dominance_strict_objective_ids` with the ids found so far.
  unfoldable pub strict_ids_from :
      List Text → List (Objective T) → List (Objective T) → Option (List Text)
  strict_ids_from found [] _ = if is_empty found then none else some found
  strict_ids_from found (_ ∷ _) [] = if is_empty found then none else some found
  strict_ids_from found (l ∷ ls) (r ∷ rs) = elim (preferred_cmp l.value r.value l.direction) [
    | lt ↦ none
    | gt ↦ strict_ids_from (found ++ l.id ∷ []) ls rs
    | eq ↦ strict_ids_from found ls rs
  ]

  unfoldable pub dominance_strict_objective_ids :
      List (Objective T) → List (Objective T) → Option (List Text)
  unfolding strict_ids_from
  dominance_strict_objective_ids left right = strict_ids_from [] left right
