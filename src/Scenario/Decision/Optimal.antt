-- ===== src/Scenario/Decision/Optimal.antt =====
-- The lexicographic best is on the Pareto front.
use prospect_engine.Base.{
  ◌≡◌, refl, sym, ap, ◌∙◌, ◌≢◌, Bool, true, false, not, some, List, [], ◌∷◌, ◌++◌, map, filter, any,
  gt, All, All-imp, All-append, arith, Bool-cases, inl, inr,
}
use mathlib.Core.Path.{subst}
use prospect_engine.Base.Ord.{Ord, cmp_refl}
use prospect_engine.Base.Selection.{IsFirstMax}
use prospect_engine.Scenario.Decision.{
  ObjectiveSpec, AssessedAlternative, ConstrainedDecisionSet, is_admissible, expect_objectives,
  dominates,
}
use prospect_engine.Scenario.Decision.Assess.{spec_of}
use prospect_engine.Scenario.Decision.Select.{pareto_front, lexicographic_best}
use prospect_engine.Scenario.Decision.Schema.{IsWellFormed}
use prospect_engine.Scenario.Decision.Vectors.{compare_vectors-dominates}
use prospect_engine.Scenario.Decision.Lexicographic.{
  lex, lex_ord, values, Meets, specs_of_admissible, compare_vectors-lex, lexicographic_best-Picks,
}
use prospect_engine.Scenario.Decision.Pareto.{is_dominated, pareto_front-filter}

module _ {ℓ} {A : Type ℓ} where
  All-filter :
      {P : A → Type 0} {Q : A → Type 0} (p : A → Bool) (xs : List A)
      → ((x : A) → p x ≡ true → P x → Q x)
      → All P xs
      → All Q (filter p xs)
  All-filter p [] f h = tt
  All-filter p (x ∷ xs) f h = elim (Bool-cases (p x)) [
    | inl e ↦ rw e (f x e h.0, All-filter p xs f h.1)
    | inr e ↦ rw e (All-filter p xs f h.1)
  ]

  any-false : (p : A → Bool) (xs : List A) → All (λ x. p x ≡ false) xs → any p xs ≡ false
  any-false p [] h = refl
  any-false p (x ∷ xs) h = rw (h.0, any-false p xs h.1)

  All-middle : (P : A → Type 0) (xs : List A) (b : A) (ys : List A) → All P (xs ++ b ∷ ys) → P b
  All-middle P [] b ys h = h.0
  All-middle P (x ∷ xs) b ys h = All-middle P xs b ys h.1

  -- A kept item stays between what is kept before and after it.
  filter-middle :
      (p : A → Bool) (xs : List A) (b : A) (ys : List A)
      → p b ≡ true
      → filter p (xs ++ b ∷ ys) ≡ filter p xs ++ b ∷ filter p ys
  filter-middle p [] b ys h = rw h
  filter-middle p (x ∷ xs) b ys h = elim (Bool-cases (p x)) [
    | inl e ↦ rw (e, filter-middle p xs b ys h)
    | inr e ↦ rw (e, filter-middle p xs b ys h)
  ]

module _ {ℓ} {R T : Type ℓ} ⦃o : Ord T⦄ (set : ConstrainedDecisionSet R T)
    (specs : List ObjectiveSpec) where
  abbrev Shape : AssessedAlternative R T → Type 0
  Shape x = map spec_of (expect_objectives x) ≡ specs

  not_dominating :
      (x b : AssessedAlternative R T)
      → Shape x
      → Shape b
      → lex specs (values x) (values b) ≢ gt
      → dominates (expect_objectives x) (expect_objectives b) ≡ false
  not_dominating x b p q h = ground (
    arith,
    compare_vectors-dominates (expect_objectives x) (expect_objectives b),
    compare_vectors-lex specs (expect_objectives x) (expect_objectives b) p q,
  )

  -- no admissible alternative is greater than the first greatest one
  IsFirstMax-bound :
      {xs : List (AssessedAlternative R T)} {b : AssessedAlternative R T}
      → IsFirstMax ⦃o = lex_ord specs⦄ values xs b
      → All (λ x. lex specs (values x) (values b) ≢ gt) xs
  IsFirstMax-bound {b = b} m =
      subst (All (λ x. lex specs (values x) (values b) ≢ gt)) (sym m.split) (
        All-append _ m.before (b ∷ m.after) (All-imp (λ x h. ground arith) m.before m.earlier)
          ((λ h. ground (arith, cmp_refl ⦃o = lex_ord specs⦄ (values b))), m.later))

  All-both :
      (xs : List (AssessedAlternative R T)) (b : AssessedAlternative R T)
      → Shape b
      → All Shape xs
      → All (λ x. lex specs (values x) (values b) ≢ gt) xs
      → All (λ x. dominates (expect_objectives x) (expect_objectives b) ≡ false) xs
  All-both [] b q h k = tt
  All-both (x ∷ xs) b q h k = (not_dominating x b h.0 q k.0, All-both xs b q h.1 k.1)

  -- The alternative that `lexicographic_best` returns is dominated by none that is admissible, and
  -- stands on the Pareto front.
  pub lexicographic_best-pareto_front :
      (b : AssessedAlternative R T)
      → IsWellFormed set
      → set.schema ≡ some specs
      → lexicographic_best set ≡ some b
      → (is_dominated set b ≡ false)
        × (before : List (AssessedAlternative R T)) × (after : List (AssessedAlternative R T))
        × (pareto_front set ≡ before ++ b ∷ after)
  lexicographic_best-pareto_front b w e h =
      let m = rw h at (lexicographic_best-Picks set specs w e) in
      let shapes : All Shape (filter is_admissible set.alternatives) =
        All-filter {P = Meets specs} is_admissible set.alternatives
          (λ x a c. specs_of_admissible specs x a c) (rw e at w.conform) in
      let own : Shape b = All-middle Shape m.before b m.after (subst (All Shape) m.split shapes) in
      let free =
        any-false _ (filter is_admissible set.alternatives)
          (All-both (filter is_admissible set.alternatives) b own shapes (IsFirstMax-bound m)) in
      (
        free,
        filter (λ x. not (is_dominated set x)) m.before,
        filter (λ x. not (is_dominated set x)) m.after,
        pareto_front-filter set
            ∙ ap (filter (λ x. not (is_dominated set x))) m.split
            ∙ filter-middle (λ x. not (is_dominated set x)) m.before b m.after (rw free),
      )
