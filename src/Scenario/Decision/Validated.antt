-- ===== src/Scenario/Decision/Validated.antt =====
-- What `validate_objectives` has checked when it returns a schema.
use prospect_engine.Base.{
  ℕ, ◌+◌, ◌≡◌, refl, sym, ap, ◌∙◌, ◌≢◌, ◌⊎◌, inl, inr, true, false, Option, none, some, List, [],
  ◌∷◌, map, Result, ok, err, All, arith, Bool-cases,
}
use prospect_engine.Base.Key.{same→eq, text_key}
use prospect_engine.Base.Text.{Text, is_blank}
use prospect_engine.Base.Sets.{contains, Fresh, IsDistinct, Fresh-of_contains}
use prospect_engine.Scenario.Decision.{
  AlternativeId, alternative_id_key, ObjectiveDirection, Objective, DecisionSetError, ObjectiveSpec,
}
use prospect_engine.Scenario.Decision.Assess.{
  same_direction, same_specs, spec_of, prepend, collect_specs, settle_schema, settle_collected,
  validate_objectives,
}

-- Objective ids that a schema may have: not blank, no one twice.
pub record IsSchema (specs : List ObjectiveSpec) : Type 0 where
  pub not_empty : specs ≢ []
  pub not_blank : All (λ s. is_blank s.id ≡ false) specs
  pub distinct : IsDistinct (map (λ s. s.id) specs)

same_direction→eq : (a b : ObjectiveDirection) → same_direction a b ≡ true → a ≡ b
same_direction→eq a b h = ground arith

same_specs→eq : (a b : List ObjectiveSpec) → same_specs a b ≡ true → a ≡ b
same_specs→eq [] [] h = refl
same_specs→eq [] (_ ∷ _) h = cc
same_specs→eq (_ ∷ _) [] h = cc
same_specs→eq (a ∷ xs) (b ∷ ys) h =
    ground
      (arith, same→eq a.id b.id, same_direction→eq a.direction b.direction, same_specs→eq xs ys)

failed :
    {e : DecisionSetError} {specs : List ObjectiveSpec}
    → ◌≡◌ {A = Result (List ObjectiveSpec) DecisionSetError} (err e) (ok specs)
    → ⊥
failed h = cc

prepend-eq-ok :
    (s : ObjectiveSpec) (r : Result (List ObjectiveSpec) DecisionSetError)
    {specs : List ObjectiveSpec}
    → prepend s r ≡ ok specs
    → (rest : List ObjectiveSpec) × (r ≡ ok rest) × (specs ≡ s ∷ rest)
prepend-eq-ok s (ok rest) h = (rest, refl, ground arith)
prepend-eq-ok s (err e) h = cc

Fresh-parts :
    (i : Text) (ids : List Text) (specs : List ObjectiveSpec)
    → All (λ s. Fresh s.id (i ∷ ids)) specs
    → Fresh i (map (λ s. s.id) specs) × All (λ s. Fresh s.id ids) specs
Fresh-parts i ids [] h = (tt, tt)
Fresh-parts i ids (s ∷ specs) h =
    let (f, g) = Fresh-parts i ids specs h.1 in ((λ e. h.0.0 (sym e), f), (h.0.1, g))

module _ {ℓ} {T : Type ℓ} where
  -- What the loop has checked when it returns.
  record Collected (ids : List Text) (v : List (Objective T)) (specs : List ObjectiveSpec)
      : Type ℓ where
    specs_of : specs ≡ map spec_of v
    not_blank : All (λ s. is_blank s.id ≡ false) specs
    distinct : IsDistinct (map (λ s. s.id) specs)
    fresh : All (λ s. Fresh s.id ids) specs

  Collected-cons :
      (ids : List Text) (x : Objective T) (v : List (Objective T)) (rest : List ObjectiveSpec)
      → is_blank x.id ≡ false
      → Fresh x.id ids
      → Collected (x.id ∷ ids) v rest
      → Collected ids (x ∷ v) (spec_of x ∷ rest)
  Collected-cons ids x v rest filled new c =
      let (f, g) = Fresh-parts x.id ids rest c.fresh in
      record {
        specs_of = ap (λ l. spec_of x ∷ l) c.specs_of;
        not_blank = (filled, c.not_blank);
        distinct = (f, c.distinct);
        fresh = (new, g);
      }

  collect_specs-Collected :
      (a : AlternativeId) (ids : List Text) (i : ℕ) (v : List (Objective T))
      {specs : List ObjectiveSpec}
      → collect_specs a ids i v ≡ ok specs
      → Collected ids v specs
  unfolding collect_specs
  collect_specs-Collected a ids i [] {specs} h =
      let e : specs ≡ [] = ground arith in
      record { specs_of = e; not_blank = rw e tt; distinct = rw e tt; fresh = rw e tt }
  collect_specs-Collected a ids i (x ∷ v) {specs} h = elim (Bool-cases (is_blank x.id)) [
    | inl blank ↦ absurd (failed (rw blank at h))
    | inr filled ↦ elim (Bool-cases (contains x.id ids)) [
      | inl old ↦ absurd (failed (rw (filled, old) at h))
      | inr new ↦
          let (rest, called, e) =
            prepend-eq-ok (spec_of x) (collect_specs a (x.id ∷ ids) (i + 1) v)
              (rw (filled, new) at h) in
          rw e (
            Collected-cons ids x v rest filled (Fresh-of_contains x.id ids new)
              (collect_specs-Collected a (x.id ∷ ids) (i + 1) v called))
    ]
  ]

  settle_collected-eq-ok :
      (a : AlternativeId) (schema : Option (List ObjectiveSpec)) (v : List (Objective T))
      (r : Result (List ObjectiveSpec) DecisionSetError) {schema' : Option (List ObjectiveSpec)}
      → settle_collected a schema r ≡ ok schema'
      → (specs : List ObjectiveSpec) × (r ≡ ok specs)
        × (schema' ≡ some specs)
        × ((schema ≡ none) ⊎ (schema ≡ schema'))
  unfolding settle_schema
  settle_collected-eq-ok a none v (ok specs) h = (specs, refl, ground arith, inl refl)
  settle_collected-eq-ok a (some expected) v (ok specs) h =
      elim (Bool-cases (same_specs expected specs)) [
        | inl e ↦
            let q = same_specs→eq expected specs e in
            (specs, refl, ground (arith, q), inr (ground arith))
        | inr e ↦ absurd (ground arith)
      ]
  settle_collected-eq-ok a schema v (err e) h = cc

  -- What `validate_objectives` has established when it returns a schema.
  pub validate_objectives-ok :
      (a : AlternativeId) (v : List (Objective T)) (schema : Option (List ObjectiveSpec))
      {schema' : Option (List ObjectiveSpec)}
      → validate_objectives a v schema ≡ ok schema'
      → (schema' ≡ some (map spec_of v))
        × IsSchema (map spec_of v)
        × ((schema ≡ none) ⊎ (schema ≡ schema'))
  unfolding validate_objectives
  validate_objectives-ok a [] schema h = cc
  validate_objectives-ok a (x ∷ v) schema h =
      let (specs, called, e, old) =
        settle_collected-eq-ok a schema (x ∷ v) (collect_specs a [] 0 (x ∷ v)) h in
      let c = collect_specs-Collected a [] 0 (x ∷ v) called in
      (
        e ∙ ap some c.specs_of,
        record {
          not_empty = λ q. cc;
          not_blank = rw c.specs_of at c.not_blank;
          distinct = rw c.specs_of at c.distinct;
        },
        old,
      )
