-- ===== src/Scenario/Decision/Witnesses.antt =====
-- The Pareto witnesses, described without positions.
use prospect_engine.Base.{
  ℕ, suc, ◌≡◌, refl, ap, false, List, [], ◌∷◌, ◌++◌, map, filter, All, Bool-cases, ◌==◌, ==_iff,
  inl, inr,
}
use prospect_engine.Base.Ord.{Ord}
use prospect_engine.Scenario.Decision.{
  AssessedAlternative, ConstrainedDecisionSet, ParetoDominanceWitness, is_admissible,
  expect_objectives, dominates,
}
use prospect_engine.Scenario.Decision.Select.{
  enumerate, witnesses_against, witnesses_from, pareto_dominance_witnesses,
}
use prospect_engine.Scenario.Decision.Vectors.{
  dominates_irrefl, better_ids, dominance_strict_objective_ids-better,
}
use prospect_engine.Scenario.Decision.Pareto.{SamePlace, enumerate-SamePlace}

module _ {ℓ} {R T : Type ℓ} ⦃o : Ord T⦄ where
  -- the witness that one alternative dominates another
  abbrev pub witness : AssessedAlternative R T → AssessedAlternative R T → ParetoDominanceWitness
  witness dominated dominator = record {
    dominator = dominator.id;
    dominated = dominated.id;
    strictly_better_objective_ids =
        better_ids (expect_objectives dominator) (expect_objectives dominated);
  }

  -- the alternatives of the list that dominate this one
  abbrev pub dominators :
      AssessedAlternative R T → List (AssessedAlternative R T) → List (AssessedAlternative R T)
  dominators x l = filter (λ d. dominates (expect_objectives d) (expect_objectives x)) l

  -- one witness for each pair, by dominated alternative and then by dominator
  abbrev pub all_witnesses :
      List (AssessedAlternative R T) → List (AssessedAlternative R T) → List ParetoDominanceWitness
  all_witnesses l [] = []
  all_witnesses l (x ∷ xs) = map (witness x) (dominators x l) ++ all_witnesses l xs

  witnesses_against-dominators :
      (c : ℕ × AssessedAlternative R T) (k : ℕ) (xs : List (AssessedAlternative R T))
      → SamePlace c (enumerate k xs)
      → witnesses_against c (enumerate k xs) ≡ map (witness c.1) (dominators c.1 xs)
  unfolding witnesses_against
  witnesses_against-dominators c k [] h = refl
  witnesses_against-dominators c k (x ∷ xs) h = elim (Bool-cases (c.0 == k)) [
    | inl e ↦
        let q = h.0 ((==_iff c.0 k).0 e) in
        let d : dominates (expect_objectives x) (expect_objectives c.1) ≡ false =
          rw (← q) (dominates_irrefl (expect_objectives c.1)) in
        rw (e, d, witnesses_against) (witnesses_against-dominators c (suc k) xs h.1)
    | inr e ↦ elim (Bool-cases (dominates (expect_objectives x) (expect_objectives c.1))) [
      | inl d ↦
          rw
            (
              e,
              dominance_strict_objective_ids-better (expect_objectives x) (expect_objectives c.1),
              d,
            )
            (ap (λ l. witness c.1 x ∷ l) (witnesses_against-dominators c (suc k) xs h.1))
      | inr d ↦
          rw
            (
              e,
              dominance_strict_objective_ids-better (expect_objectives x) (expect_objectives c.1),
              d,
            )
            (witnesses_against-dominators c (suc k) xs h.1)
    ]
  ]

  witnesses_from-All :
      (l : List (AssessedAlternative R T)) (k : ℕ) (xs : List (AssessedAlternative R T))
      → All (λ c. SamePlace c (enumerate 0 l)) (enumerate k xs)
      → witnesses_from (enumerate 0 l) (enumerate k xs) ≡ all_witnesses l xs
  unfolding witnesses_from
  witnesses_from-All l k [] h = refl
  witnesses_from-All l k (x ∷ xs) h =
      rw (witnesses_against-dominators (k, x) 0 l h.0, witnesses_from-All l (suc k) xs h.1)

  -- There is exactly one witness for each pair of admissible alternatives of which one dominates
  -- the other, ordered by the dominated and then by the dominating one. It names the two and the
  -- objectives on which the dominating one is preferred.
  pub pareto_dominance_witnesses-all :
      (set : ConstrainedDecisionSet R T)
      → pareto_dominance_witnesses set
        ≡ all_witnesses
            (filter is_admissible set.alternatives)
            (filter is_admissible set.alternatives)
  unfolding pareto_dominance_witnesses
  pareto_dominance_witnesses-all set =
      witnesses_from-All (filter is_admissible set.alternatives) 0
        (filter is_admissible set.alternatives)
        (enumerate-SamePlace 0 (filter is_admissible set.alternatives))
