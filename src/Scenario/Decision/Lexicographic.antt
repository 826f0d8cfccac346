-- ===== src/Scenario/Decision/Lexicographic.antt =====
-- `lexicographic_best` finds the first greatest admissible alternative in the order of the schema.
use prospect_engine.Base.{
  ◌≡◌, refl, sym, ◌∙◌, ◌≢◌, inl, inr, Bool, true, false, Option, none, some, List, [], ◌∷◌, map,
  filter, Ordering, lt, eq, gt, if◌then◌else◌, All, arith, Bool-cases,
}
use prospect_engine.Base.Ord.{Ord, flip, is_gt}
use prospect_engine.Base.Selection.{IsFirstMax, scan_max, scan_max-IsFirstMax}
use prospect_engine.Scenario.Decision.{
  Objective, ObjectiveSpec, AssessedAlternative, AlternativeAssessment, admissible, rejected,
  ConstrainedDecisionSet, is_admissible, assessment_admissible, assessment_objectives,
  expect_objectives, preferred_cmp, compare_vectors,
}
use prospect_engine.Scenario.Decision.Assess.{spec_of}
use prospect_engine.Scenario.Decision.Select.{improve, lexicographic_from, lexicographic_best}
use prospect_engine.Scenario.Decision.Schema.{Conforms, IsWellFormed}
use prospect_engine.Scenario.Decision.Vectors.{preferred_flip, preferred_trans}

module _ {ℓ} {T : Type ℓ} ⦃o : Ord T⦄ where
  -- The lexicographic order of value vectors under a schema: the first entry has most weight.
  pub lex : List ObjectiveSpec → List T → List T → Ordering
  lex specs [] [] = eq
  lex specs [] (_ ∷ _) = lt
  lex specs (_ ∷ _) [] = gt
  lex [] (_ ∷ _) (_ ∷ _) = eq
  lex (s ∷ specs) (x ∷ xs) (y ∷ ys) =
      let rest = lex specs xs ys in
      elim (preferred_cmp x y s.direction) [ eq ↦ rest | lt ↦ lt | gt ↦ gt ]

  pub lex-flip :
      (specs : List ObjectiveSpec) (xs ys : List T) → lex specs ys xs ≡ flip (lex specs xs ys)
  unfolding lex
  lex-flip specs [] [] = refl
  lex-flip specs [] (_ ∷ _) = refl
  lex-flip specs (_ ∷ _) [] = refl
  lex-flip [] (_ ∷ _) (_ ∷ _) = refl
  lex-flip (s ∷ specs) (x ∷ xs) (y ∷ ys) =
      ground (arith, lex-flip specs xs ys, preferred_flip x y s.direction)

  pub lex_trans :
      (specs : List ObjectiveSpec) (xs ys zs : List T)
      → lex specs xs ys ≢ gt
      → lex specs ys zs ≢ gt
      → lex specs xs zs ≢ gt
  unfolding lex
  lex_trans specs [] ys [] h k = ground arith
  lex_trans specs [] ys (_ ∷ _) h k = ground arith
  lex_trans specs (_ ∷ _) [] zs h k = absurd (h refl)
  lex_trans specs (_ ∷ _) (_ ∷ _) [] h k = absurd (k refl)
  lex_trans [] (_ ∷ _) (_ ∷ _) (_ ∷ _) h k = ground arith
  lex_trans (s ∷ specs) (x ∷ xs) (y ∷ ys) (z ∷ zs) h k = ground (
    arith,
    lex_trans specs xs ys zs,
    preferred_trans x y z s.direction,
    preferred_trans z x y s.direction,
    preferred_trans y z x s.direction,
    preferred_flip x y s.direction,
    preferred_flip y z s.direction,
    preferred_flip x z s.direction,
  )

  abbrev pub lex_ord : List ObjectiveSpec → Ord (List T)
  lex_ord specs = record { cmp = lex specs; cmp_flip = lex-flip specs; cmp_trans = lex_trans specs }

  -- the objective values of an alternative
  abbrev pub values : {R : Type ℓ} → AssessedAlternative R T → List T
  values a = map (λ x. x.value) (expect_objectives a)

  -- Under one schema the code's comparison is the lexicographic order.
  pub compare_vectors-lex :
      (specs : List ObjectiveSpec) (ls rs : List (Objective T))
      → map spec_of ls ≡ specs
      → map spec_of rs ≡ specs
      → compare_vectors ls rs ≡ lex specs (map (λ x. x.value) ls) (map (λ x. x.value) rs)
  unfolding compare_vectors lex
  compare_vectors-lex specs [] [] h k = refl
  compare_vectors-lex specs [] (r ∷ rs) h k = absurd (nil_cons (h ∙ sym k))
    where
      nil_cons :
          {s : ObjectiveSpec} {l : List ObjectiveSpec} → ◌≡◌ {A = List ObjectiveSpec} [] (s ∷ l) → ⊥
      nil_cons e = cc
  compare_vectors-lex specs (l ∷ ls) [] h k = absurd (nil_cons (k ∙ sym h))
    where
      nil_cons :
          {s : ObjectiveSpec} {l : List ObjectiveSpec} → ◌≡◌ {A = List ObjectiveSpec} [] (s ∷ l) → ⊥
      nil_cons e = cc
  compare_vectors-lex [] (l ∷ ls) (r ∷ rs) h k = cc
  compare_vectors-lex (s ∷ specs) (l ∷ ls) (r ∷ rs) h k =
      ground (arith, compare_vectors-lex specs ls rs)

module _ {ℓ} {R T : Type ℓ} ⦃o : Ord T⦄ (specs : List ObjectiveSpec) where
  -- the alternative meets the schema
  abbrev pub Meets : AssessedAlternative R T → Type 0
  Meets x = Conforms (some specs) x.assessment

  abbrev scan : AssessedAlternative R T → List (AssessedAlternative R T) → AssessedAlternative R T
  scan = scan_max ⦃o = lex_ord specs⦄ values

  pub specs_of_admissible :
      (x : AssessedAlternative R T)
      → is_admissible x ≡ true
      → Meets x
      → map spec_of (expect_objectives x) ≡ specs
  specs_of_admissible x a m = go x.assessment a m
    where
      go :
          (y : AlternativeAssessment R T)
          → assessment_admissible y ≡ true
          → Conforms (some specs) y
          → map spec_of (elim (assessment_objectives y) [ some v ↦ v | none ↦ [] ]) ≡ specs
      go (admissible v) a m = ground arith
      go (rejected r) a m = cc

  improve-rejected :
      (best : Option (AssessedAlternative R T)) (x : AssessedAlternative R T)
      → is_admissible x ≡ false
      → improve best x ≡ best
  unfolding improve
  improve-rejected best x h = ground arith

  improve-first : (x : AssessedAlternative R T) → is_admissible x ≡ true → improve none x ≡ some x
  unfolding improve
  improve-first x h = ground arith

  improve-admissible :
      (b x : AssessedAlternative R T)
      → is_admissible x ≡ true
      → map spec_of (expect_objectives x) ≡ specs
      → map spec_of (expect_objectives b) ≡ specs
      → improve (some b) x ≡ some (if is_gt (lex specs (values x) (values b)) then x else b)
  unfolding improve
  improve-admissible b x h p q =
      ground (arith, compare_vectors-lex specs (expect_objectives x) (expect_objectives b) p q)

  either :
      (g : Bool) (x b : AssessedAlternative R T)
      → map spec_of (expect_objectives x) ≡ specs
      → map spec_of (expect_objectives b) ≡ specs
      → map spec_of (expect_objectives (if g then x else b)) ≡ specs
  either true x b q p = q
  either false x b q p = p

  lexicographic_from-scan :
      (b : AssessedAlternative R T) (xs : List (AssessedAlternative R T))
      → map spec_of (expect_objectives b) ≡ specs
      → All Meets xs
      → lexicographic_from (some b) xs ≡ some (scan b (filter is_admissible xs))
  unfolding lexicographic_from scan_max
  lexicographic_from-scan b [] p m = refl
  lexicographic_from-scan b (x ∷ xs) p m = elim (Bool-cases (is_admissible x)) [
    | inr no₁ ↦ rw (improve-rejected (some b) x no₁, no₁) (lexicographic_from-scan b xs p m.1)
    | inl yes₁ ↦
        let q = specs_of_admissible x yes₁ m.0 in
        let g = is_gt (lex specs (values x) (values b)) in
        rw (improve-admissible b x yes₁ q p, yes₁)
          (lexicographic_from-scan (if g then x else b) xs (either g x b q p) m.1)
  ]

  -- What `lexicographic_best` returns for a list of alternatives.
  abbrev pub Picks : List (AssessedAlternative R T) → Option (AssessedAlternative R T) → Type ℓ
  Picks xs none = filter is_admissible xs ≡ []
  Picks xs (some b) = IsFirstMax ⦃o = lex_ord specs⦄ values (filter is_admissible xs) b

  Picks-rejected :
      (x : AssessedAlternative R T) (xs : List (AssessedAlternative R T))
      (r : Option (AssessedAlternative R T))
      → is_admissible x ≡ false
      → Picks xs r
      → Picks (x ∷ xs) r
  Picks-rejected x xs none h k = rw h k
  Picks-rejected x xs (some b) h k = rw h k

  lexicographic_from-Picks :
      (xs : List (AssessedAlternative R T)) → All Meets xs → Picks xs (lexicographic_from none xs)
  unfolding lexicographic_from
  lexicographic_from-Picks [] m = refl
  lexicographic_from-Picks (x ∷ xs) m = elim (Bool-cases (is_admissible x)) [
    | inr no₁ ↦
        rw (improve-rejected none x no₁)
          (Picks-rejected x xs (lexicographic_from none xs) no₁ (lexicographic_from-Picks xs m.1))
    | inl yes₁ ↦
        rw
          (
            improve-first x yes₁,
            lexicographic_from-scan x xs (specs_of_admissible x yes₁ m.0) m.1,
            yes₁,
          )
          (scan_max-IsFirstMax ⦃o = lex_ord specs⦄ values x (filter is_admissible xs))
  ]

-- In a well-formed set `lexicographic_best` returns nothing only if no alternative is admissible.
-- What it returns is the first admissible alternative whose objective values are greatest in the
-- lexicographic order of the schema.
pub lexicographic_best-Picks {ℓ} :
    {R T : Type ℓ} ⦃o : Ord T⦄ (set : ConstrainedDecisionSet R T) (specs : List ObjectiveSpec)
    → IsWellFormed set
    → set.schema ≡ some specs
    → Picks specs set.alternatives (lexicographic_best set)
unfolding lexicographic_best
lexicographic_best-Picks set specs w e =
    lexicographic_from-Picks specs set.alternatives (rw e at w.conform)
