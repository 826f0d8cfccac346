-- ===== src/Scenario/Decision/Select.antt =====
-- crates/prospect-scenario/src/decision.rs: the selections over an assessed decision set. The
-- code tells two alternatives apart by address; here by their place among the admissible ones.
use prospect_engine.Base.{
  ℕ, suc, Bool, ◌&&◌, not, Option, none, some, List, [], ◌∷◌, ◌++◌, map, if◌then◌else◌, filter, any,
  ◌==◌,
}
use prospect_engine.Base.Ord.{Ord, is_gt}
use prospect_engine.Scenario.Decision.{
  AssessedAlternative, ConstrainedDecisionSet, ParetoDominanceWitness, is_admissible, objectives,
  expect_objectives, compare_vectors, dominates, dominance_strict_objective_ids,
}

-- `Iterator::enumerate` from a number
abbrev pub enumerate {ℓ} : {A : Type ℓ} → ℕ → List A → List (ℕ × A)
enumerate i [] = []
enumerate i (x ∷ xs) = (i, x) ∷ enumerate (suc i) xs

module _ {ℓ} {R T : Type ℓ} ⦃o : Ord T⦄ where
  -- The body of the loop of `lexicographic_best`.
  unfoldable pub improve :
      Option (AssessedAlternative R T) → AssessedAlternative R T → Option (AssessedAlternative R T)
  improve best candidate = elim (objectives candidate) [
    | none ↦ best
    | some candidate_objectives ↦ elim best [
      | none ↦ some candidate
      | some current ↦
          if is_gt (compare_vectors candidate_objectives (expect_objectives current))
          then some candidate
          else some current
    ]
  ]

  unfoldable pub lexicographic_from :
      Option (AssessedAlternative R T)
      → List (AssessedAlternative R T)
      → Option (AssessedAlternative R T)
  unfolding improve
  lexicographic_from best [] = best
  lexicographic_from best (candidate ∷ rest) = lexicographic_from (improve best candidate) rest

  unfoldable pub lexicographic_best : ConstrainedDecisionSet R T → Option (AssessedAlternative R T)
  unfolding lexicographic_from
  lexicographic_best set = lexicographic_from none set.alternatives

  -- `!ptr::eq(candidate, other) && dominates(other, candidate)`
  abbrev pub beats : ℕ × AssessedAlternative R T → ℕ × AssessedAlternative R T → Bool
  beats other candidate =
      not (candidate.0 == other.0)
      && dominates (expect_objectives other.1) (expect_objectives candidate.1)

  unfoldable pub pareto_front : ConstrainedDecisionSet R T → List (AssessedAlternative R T)
  pareto_front set =
      let admissible = enumerate 0 (filter is_admissible set.alternatives) in
      map (λ c. c.1)
        (filter (λ candidate. not (any (λ other. beats other candidate) admissible)) admissible)

  -- The inner loop of `pareto_dominance_witnesses`, for one dominated alternative.
  unfoldable pub witnesses_against :
      ℕ × AssessedAlternative R T → List (ℕ × AssessedAlternative R T) → List ParetoDominanceWitness
  witnesses_against dominated [] = []
  witnesses_against dominated (dominator ∷ rest) =
      let others = witnesses_against dominated rest in
      if dominated.0 == dominator.0
      then others
      else elim (dominance_strict_objective_ids (expect_objectives dominator.1)
          (expect_objectives dominated.1)) [
            | none ↦ others
            | some ids ↦
                record {
                  dominator = dominator.1.id;
                  dominated = dominated.1.id;
                  strictly_better_objective_ids = ids;
                }
                ∷ others
          ]

  -- The outer loop, over the alternatives that may be dominated.
  unfoldable pub witnesses_from :
      List (ℕ × AssessedAlternative R T)
      → List (ℕ × AssessedAlternative R T)
      → List ParetoDominanceWitness
  unfolding witnesses_against
  witnesses_from admissible [] = []
  witnesses_from admissible (dominated ∷ rest) =
      witnesses_against dominated admissible ++ witnesses_from admissible rest

  unfoldable pub pareto_dominance_witnesses :
      ConstrainedDecisionSet R T → List ParetoDominanceWitness
  unfolding witnesses_from
  pareto_dominance_witnesses set =
      let admissible = enumerate 0 (filter is_admissible set.alternatives) in
      witnesses_from admissible admissible
