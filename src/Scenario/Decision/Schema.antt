-- ===== src/Scenario/Decision/Schema.antt =====
-- What an assessed decision set guarantees: its alternatives, and one schema for all that are
-- admissible.
use prospect_engine.Base.{
  ◌≡◌, refl, sym, ap, ◌∙◌, ◌⊎◌, inl, inr, Option, none, some, List, [], ◌∷◌, ◌++◌, map, Result, ok,
  err, All, All-imp, All-append, arith, Option-cases,
}
use mathlib.Core.List.{append-nil, append_assoc, map-append}
use prospect_engine.Base.Effects.{and_then_cases}
use prospect_engine.Base.Key.{text_key}
use prospect_engine.Base.Sets.{
  IsDistinct, first_duplicate, first_duplicate-none_iff, IsFirstRepeat, first_duplicate-some,
}
use prospect_engine.Scenario.{ScenarioOutcome, BatchResult}
use prospect_engine.Scenario.Decision.{
  AlternativeId, alternative_id_key, baseline, scenario, Objective, AlternativeAssessment,
  admissible, rejected, AssessedAlternative, DecisionSetError, duplicate_alternative_id,
  ObjectiveSpec, ConstrainedDecisionSet,
}
use prospect_engine.Scenario.Decision.Assess.{
  spec_of, validate_objectives, push_validated, push_assessment, assess_alternative,
  assess_outcomes, scenario_alternatives, assess_checked, assess_decision_set,
}
use prospect_engine.Scenario.Decision.Validated.{IsSchema, validate_objectives-ok}

-- An assessment meets the schema of its set.
abbrev pub Conforms {ℓ} :
    {R T : Type ℓ} → Option (List ObjectiveSpec) → AlternativeAssessment R T → Type 0
Conforms schema (admissible v) = schema ≡ some (map spec_of v)
Conforms schema (rejected r) = Unit

abbrev pub IsSchema? : Option (List ObjectiveSpec) → Type 0
IsSchema? none = Unit
IsSchema? (some specs) = IsSchema specs

pub record IsWellFormed {ℓ} {R T : Type ℓ} (set : ConstrainedDecisionSet R T) : Type ℓ where
  pub conform : All (λ a. Conforms set.schema a.assessment) set.alternatives
  pub good_schema : IsSchema? set.schema

module _ {ℓ} {R T : Type ℓ} where
  -- the ids of the alternatives of a set, in order
  abbrev pub alternative_ids : ConstrainedDecisionSet R T → List AlternativeId
  alternative_ids set = map (λ a. a.id) set.alternatives

  Conforms-none :
      (schema : Option (List ObjectiveSpec)) (a : AlternativeAssessment R T)
      → Conforms none a
      → Conforms schema a
  Conforms-none schema (admissible v) h = cc
  Conforms-none schema (rejected r) h = tt

  Conforms-settled :
      (set : ConstrainedDecisionSet R T) (schema : Option (List ObjectiveSpec))
      → (set.schema ≡ none) ⊎ (set.schema ≡ schema)
      → IsWellFormed set
      → All (λ a. Conforms schema a.assessment) set.alternatives
  Conforms-settled set schema (inl e) w =
      All-imp (λ a c. Conforms-none schema a.assessment (rw e at c)) set.alternatives w.conform
  Conforms-settled set schema (inr e) w = All-imp (λ a c. rw e at c) set.alternatives w.conform

  -- A step that succeeds adds one alternative and keeps the set well formed.
  record Extends (set : ConstrainedDecisionSet R T) (id : AlternativeId)
      (set' : ConstrainedDecisionSet R T) : Type ℓ where
    well_formed : IsWellFormed set'
    added : alternative_ids set' ≡ alternative_ids set ++ id ∷ []

  Extends-push :
      (set : ConstrainedDecisionSet R T) (id : AlternativeId) (a : AlternativeAssessment R T)
      (schema : Option (List ObjectiveSpec))
      → (set.schema ≡ none) ⊎ (set.schema ≡ schema)
      → Conforms schema a
      → IsSchema? schema
      → IsWellFormed set
      → Extends set id (record {
        alternatives = set.alternatives ++ record { id = id; assessment = a } ∷ [];
        schema = schema;
      })
  Extends-push set id a schema old c good w = record {
    well_formed = record {
      conform =
          All-append _ set.alternatives (record { id = id; assessment = a } ∷ [])
            (Conforms-settled set schema old w) (c, tt);
      good_schema = good;
    };
    added = map-append (λ x. x.id) set.alternatives (record { id = id; assessment = a } ∷ []);
  }

  push_validated-eq-ok :
      (alternatives : List (AssessedAlternative R T)) (id : AlternativeId) (v : List (Objective T))
      (r : Result (Option (List ObjectiveSpec)) DecisionSetError)
      {set' : ConstrainedDecisionSet R T}
      → push_validated alternatives id v r ≡ ok set'
      → (schema : Option (List ObjectiveSpec)) × (r ≡ ok schema)
        × (set' ≡ record {
          alternatives = alternatives ++ record { id = id; assessment = admissible v } ∷ [];
          schema = schema;
        })
  unfolding push_validated
  push_validated-eq-ok alternatives id v (ok schema) h = (schema, refl, ground arith)
  push_validated-eq-ok alternatives id v (err e) h = cc

  push_assessment-Extends :
      (set : ConstrainedDecisionSet R T) (id : AlternativeId) (a : Result (List (Objective T)) R)
      {set' : ConstrainedDecisionSet R T}
      → push_assessment set id a ≡ ok set'
      → IsWellFormed set
      → Extends set id set'
  unfolding push_assessment
  push_assessment-Extends set id (err reason) {set'} h w =
      let e : set' ≡ record set {
        alternatives = set.alternatives ++ record { id = id; assessment = rejected reason } ∷ [];
      } =
        ground arith in
      rw e (Extends-push set id (rejected reason) set.schema (inr refl) tt w.good_schema w)
  push_assessment-Extends set id (ok v) {set'} h w =
      let (schema, called, e) =
        push_validated-eq-ok set.alternatives id v (validate_objectives id v set.schema) h in
      let (specs, good, old) = validate_objectives-ok id v set.schema called in
      rw e (Extends-push set id (admissible v) schema old specs (rw specs good) w)

module _ {ℓ} {I S R T W : Type ℓ}
    (assess : AlternativeId → S → S → W → Result (List (Objective T)) R × W) (reference : S) where
  assess_outcomes-ok :
      (os : List (ScenarioOutcome I S)) (set : ConstrainedDecisionSet R T) (w : W)
      {set' : ConstrainedDecisionSet R T} {w' : W}
      → assess_outcomes assess reference os set w ≡ (ok set', w')
      → IsWellFormed set
      → IsWellFormed set' × (alternative_ids set' ≡ alternative_ids set ++ scenario_alternatives os)
  unfolding assess_outcomes
  assess_outcomes-ok [] set w {set'} h g =
      let e : set' ≡ set = ground arith in rw e (g, sym (append-nil (alternative_ids set)))
  assess_outcomes-ok (x ∷ os) set w h g =
      elim (and_then_cases _
        (assess_alternative assess reference (scenario x.scenario.id) x.signature set w) h) [
          | inl (set₁, w₁, called, rest) ↦
              let step =
                push_assessment-Extends set (scenario x.scenario.id) _ (ap (λ p. p.0) called) g in
              let (good, more) = assess_outcomes-ok os set₁ w₁ rest step.well_formed in
              (
                good,
                more
                    ∙ ap (λ l. l ++ scenario_alternatives os) step.added
                    ∙ append_assoc (alternative_ids set) (scenario x.scenario.id ∷ [])
                        (scenario_alternatives os),
              )
          | inr (e, w₁, called, q) ↦ cc
        ]

duplicate_failed {ℓ} :
    {R T W : Type ℓ} {set : ConstrainedDecisionSet R T} {id : AlternativeId} {w w' : W}
    → ◌≡◌ {A = Result (ConstrainedDecisionSet R T) DecisionSetError × W}
        (err (duplicate_alternative_id id), w)
        (ok set, w')
    → ⊥
duplicate_failed h = cc

-- A decision set that is returned holds the baseline and then every scenario, in input order, with
-- no id twice. All its admissible alternatives have the objectives of its schema, in order, whose
-- ids are neither blank nor repeated.
pub assess_decision_set-IsWellFormed {ℓ} :
    {I S R T W : Type ℓ} (batch : BatchResult I S)
    (assess : AlternativeId → S → S → W → Result (List (Objective T)) R × W) (w : W)
    {set : ConstrainedDecisionSet R T} {w' : W}
    → assess_decision_set batch assess w ≡ (ok set, w')
    → IsWellFormed set
      × (alternative_ids set ≡ baseline ∷ scenario_alternatives batch.outcomes)
      × IsDistinct (scenario_alternatives batch.outcomes)
unfolding assess_decision_set
assess_decision_set-IsWellFormed batch assess w h =
    elim (Option-cases (first_duplicate [] (scenario_alternatives batch.outcomes))) [
      | inr (id, e) ↦ absurd (duplicate_failed (rw (e, assess_checked) at h))
      | inl e ↦
          elim (and_then_cases (assess_outcomes assess batch.baseline batch.outcomes)
            (assess_alternative assess batch.baseline baseline batch.baseline
              (record { alternatives = []; schema = none }) w)
            (rw (e, assess_checked) at h)) [
              | inl (set₁, w₁, called, rest) ↦
                  let step =
                    push_assessment-Extends (record { alternatives = []; schema = none }) baseline _
                      (ap (λ p. p.0) called) (record { conform = tt; good_schema = tt }) in
                  let (good, more) =
                    assess_outcomes-ok assess batch.baseline batch.outcomes set₁ w₁ rest
                      step.well_formed in
                  (
                    good,
                    more ∙ ap (λ l. l ++ scenario_alternatives batch.outcomes) step.added,
                    (first_duplicate-none_iff (scenario_alternatives batch.outcomes)).0 e,
                  )
              | inr (f, w₁, called, q) ↦ cc
            ]
    ]

-- With a scenario id that occurs twice the callback is never called: the result is the error that
-- names the first id that repeats an earlier one, and the world is as it was.
pub assess_decision_set_rejects {ℓ} :
    {I S R T W : Type ℓ} (batch : BatchResult I S)
    (assess : AlternativeId → S → S → W → Result (List (Objective T)) R × W) (w : W)
    → ¬ (IsDistinct (scenario_alternatives batch.outcomes))
    → (id : AlternativeId) × IsFirstRepeat (scenario_alternatives batch.outcomes) id
      × (assess_decision_set batch assess w ≡ (err (duplicate_alternative_id id), w))
unfolding assess_decision_set
assess_decision_set_rejects batch assess w h =
    elim (Option-cases (first_duplicate [] (scenario_alternatives batch.outcomes))) [
      | inl e ↦ absurd (h ((first_duplicate-none_iff (scenario_alternatives batch.outcomes)).0 e))
      | inr (id, e) ↦ (
        id,
        first_duplicate-some (scenario_alternatives batch.outcomes) id e,
        rw (e, assess_checked),
      )
    ]
