-- ===== src/Scenario/Decision/Pareto.antt =====
-- The Pareto front: its description without positions, and that the lexicographic best is on it.
use prospect_engine.Base.{
  ℕ, suc, ◌≤◌, ◌≡◌, refl, ap, ◌∙◌, inl, inr, Bool, false, not, List, [], ◌∷◌, map, filter, any, All,
  All-imp, arith, Bool-cases, ◌==◌, ==_iff,
}
use prospect_engine.Base.Ord.{Ord}
use prospect_engine.Scenario.Decision.{
  AssessedAlternative, ConstrainedDecisionSet, is_admissible, expect_objectives, dominates,
}
use prospect_engine.Scenario.Decision.Select.{enumerate, beats, pareto_front}
use prospect_engine.Scenario.Decision.Vectors.{dominates_irrefl}

module _ {ℓ} {A : Type ℓ} where
  -- every number of the enumeration is at least `i`
  enumerate_above : (i k : ℕ) (xs : List A) → i ≤ k → All (λ p. i ≤ p.0) (enumerate k xs)
  enumerate_above i k [] h = tt
  enumerate_above i k (x ∷ xs) h = (h, enumerate_above i (suc k) xs (omega arith))

  -- the pairs that carry the number of `c` carry its item
  abbrev pub SamePlace : ℕ × A → List (ℕ × A) → Type ℓ
  SamePlace c l = All (λ p. c.0 ≡ p.0 → c.1 ≡ p.1) l

  SamePlace-above : (c : ℕ × A) (l : List (ℕ × A)) → All (λ p. suc c.0 ≤ p.0) l → SamePlace c l
  SamePlace-above c [] h = tt
  SamePlace-above c (p ∷ l) h = (λ e. absurd (omega arith), SamePlace-above c l h.1)

  -- A number belongs to one item only.
  pub enumerate-SamePlace :
      (k : ℕ) (xs : List A) → All (λ c. SamePlace c (enumerate k xs)) (enumerate k xs)
  enumerate-SamePlace k [] = tt
  enumerate-SamePlace k (x ∷ xs) =
      let above = enumerate_above (suc k) (suc k) xs (omega arith) in
      (
        (λ _. refl, SamePlace-above (k, x) (enumerate (suc k) xs) above),
        All-add (enumerate (suc k) xs) above (enumerate-SamePlace (suc k) xs),
      )
    where
      All-add :
          (l : List (ℕ × A))
          → All (λ p. suc k ≤ p.0) l
          → All (λ c. SamePlace c (enumerate (suc k) xs)) l
          → All (λ c. SamePlace c (enumerate k (x ∷ xs))) l
      All-add [] h q = tt
      All-add (p ∷ l) h q = ((λ e. absurd (omega arith), q.0), All-add l h.1 q.1)

  map-filter-enumerate :
      (p : A → Bool) (k : ℕ) (xs : List A)
      → map (λ c. c.1) (filter (λ c. p c.1) (enumerate k xs)) ≡ filter p xs
  map-filter-enumerate p k [] = refl
  map-filter-enumerate p k (x ∷ xs) = elim (Bool-cases (p x)) [
    | inl e ↦ rw e (ap (λ l. x ∷ l) (map-filter-enumerate p (suc k) xs))
    | inr e ↦ rw e (map-filter-enumerate p (suc k) xs)
  ]

  filter-ext : (p q : A → Bool) (xs : List A) → All (λ x. p x ≡ q x) xs → filter p xs ≡ filter q xs
  filter-ext p q [] h = refl
  filter-ext p q (x ∷ xs) h = rw (h.0, filter-ext p q xs h.1)

  any-enumerate :
      (p : A → Bool) (k : ℕ) (xs : List A) → any (λ c. p c.1) (enumerate k xs) ≡ any p xs
  any-enumerate p k [] = refl
  any-enumerate p k (x ∷ xs) = rw (any-enumerate p (suc k) xs)

module _ {ℓ} {R T : Type ℓ} ⦃o : Ord T⦄ where
  -- some admissible alternative dominates this one
  abbrev pub is_dominated : ConstrainedDecisionSet R T → AssessedAlternative R T → Bool
  is_dominated set x =
      any (λ other. dominates (expect_objectives other) (expect_objectives x))
        (filter is_admissible set.alternatives)

  any-beats :
      (c : ℕ × AssessedAlternative R T) (l : List (ℕ × AssessedAlternative R T))
      → SamePlace c l
      → any (λ other. beats other c) l
        ≡ any (λ other. dominates (expect_objectives other.1) (expect_objectives c.1)) l
  any-beats c [] h = refl
  any-beats c (p ∷ l) h = elim (Bool-cases (c.0 == p.0)) [
    | inl e ↦
        let q = h.0 ((==_iff c.0 p.0).0 e) in
        let d : dominates (expect_objectives p.1) (expect_objectives c.1) ≡ false =
          rw (← q) (dominates_irrefl (expect_objectives c.1)) in
        rw (e, d) (any-beats c l h.1)
    | inr e ↦ rw (e, any-beats c l h.1)
  ]

  pub pareto_front-filter :
      (set : ConstrainedDecisionSet R T)
      → pareto_front set
        ≡ filter (λ x. not (is_dominated set x)) (filter is_admissible set.alternatives)
  unfolding pareto_front
  pareto_front-filter set =
      let admissible = filter is_admissible set.alternatives in
      let l = enumerate 0 admissible in
      ap (map (λ c. c.1)) (
        filter-ext (λ c. not (any (λ other. beats other c) l)) (λ c. not (is_dominated set c.1)) l
          (All-imp
            (λ c h. ap not (
              any-beats c l h
              ∙ any-enumerate (λ other. dominates (expect_objectives other) (expect_objectives c.1))
                  0 admissible))
            l (enumerate-SamePlace 0 admissible)))
      ∙ map-filter-enumerate (λ x. not (is_dominated set x)) 0 admissible
