-- ===== src/Scenario/Decision/Vectors.antt =====
-- Objective vectors of one schema: `dominates` and `compare_vectors`.
use prospect_engine.Base.{
  ◌≡◌, refl, ◌∙◌, ◌≢◌, ◌⊎◌, inl, inr, Bool, true, false, none, some, List, [], ◌∷◌, ◌++◌, lt, eq,
  gt, is_empty, if◌then◌else◌, arith, ◌↔◌, not,
}
use mathlib.Core.List.{append-nil, append_assoc}
use prospect_engine.Base.Text.{Text}
use prospect_engine.Base.Ord.{Ordering-cases, Ord, flip, cmp_refl}
use prospect_engine.Scenario.Decision.{
  ObjectiveDirection, maximize, minimize, Objective, preferred_cmp, compare_vectors, dominates_from,
  dominates, strict_ids_from, dominance_strict_objective_ids,
}

push_not_empty : (found : List Text) (i : Text) → is_empty (found ++ i ∷ []) ≡ false
push_not_empty [] i = refl
push_not_empty (x ∷ found) i = refl

module _ {ℓ} {T : Type ℓ} ⦃o : Ord T⦄ where
  -- the order of preference in one direction is a total preorder too
  preferred_refl : (a : T) (d : ObjectiveDirection) → preferred_cmp a a d ≡ eq
  unfolding preferred_cmp
  preferred_refl a maximize = cmp_refl a
  preferred_refl a minimize = cmp_refl a

  pub preferred_flip :
      (a b : T) (d : ObjectiveDirection) → preferred_cmp b a d ≡ flip (preferred_cmp a b d)
  unfolding preferred_cmp
  preferred_flip a b maximize = o.cmp_flip a b
  preferred_flip a b minimize = o.cmp_flip b a

  pub preferred_trans :
      (a b c : T) (d : ObjectiveDirection)
      → preferred_cmp a b d ≢ gt
      → preferred_cmp b c d ≢ gt
      → preferred_cmp a c d ≢ gt
  unfolding preferred_cmp
  preferred_trans a b c maximize h k = o.cmp_trans a b c h k
  preferred_trans a b c minimize h k = o.cmp_trans c b a k h

  abbrev directed_ord : ObjectiveDirection → Ord T
  directed_ord d = record {
    cmp = λ a b. preferred_cmp a b d;
    cmp_flip = λ a b. preferred_flip a b d;
    cmp_trans = λ a b c. preferred_trans a b c d;
  }

  -- What `dominates` means: at no place worse, and at some place better.
  abbrev pub NoWorse : List (Objective T) → List (Objective T) → Type 0
  NoWorse [] _ = Unit
  NoWorse (_ ∷ _) [] = Unit
  NoWorse (l ∷ ls) (r ∷ rs) = (preferred_cmp l.value r.value l.direction ≢ lt) × NoWorse ls rs

  abbrev pub BetterSomewhere : List (Objective T) → List (Objective T) → Type 0
  BetterSomewhere [] _ = ⊥
  BetterSomewhere (_ ∷ _) [] = ⊥
  BetterSomewhere (l ∷ ls) (r ∷ rs) =
      (preferred_cmp l.value r.value l.direction ≡ gt) ⊎ BetterSomewhere ls rs

  dominates_from_sound :
      (b : Bool) (ls rs : List (Objective T))
      → dominates_from b ls rs ≡ true
      → NoWorse ls rs × ((b ≡ true) ⊎ BetterSomewhere ls rs)
  unfolding dominates_from
  dominates_from_sound b [] rs h = (tt, inl h)
  dominates_from_sound b (l ∷ ls) [] h = (tt, inl h)
  dominates_from_sound b (l ∷ ls) (r ∷ rs) h =
      ground (arith, dominates_from_sound true ls rs, dominates_from_sound b ls rs)

  dominates_from_complete :
      (b : Bool) (ls rs : List (Objective T))
      → NoWorse ls rs
      → (b ≡ true) ⊎ BetterSomewhere ls rs
      → dominates_from b ls rs ≡ true
  unfolding dominates_from
  dominates_from_complete b [] rs n h = ground arith
  dominates_from_complete b (l ∷ ls) [] n h = ground arith
  dominates_from_complete b (l ∷ ls) (r ∷ rs) n h =
      ground (arith, dominates_from_complete true ls rs, dominates_from_complete b ls rs)

  -- `dominates` holds exactly when the first vector is nowhere worse and somewhere better.
  pub dominates_iff :
      (ls rs : List (Objective T))
      → (dominates ls rs ≡ true) ↔ (NoWorse ls rs × BetterSomewhere ls rs)
  unfolding dominates
  dominates_iff ls rs = (
    λ h. let (n, b) = dominates_from_sound false ls rs h in (n, ground arith),
    λ p. dominates_from_complete false ls rs p.0 (inr p.1),
  )

  dominates_from_self : (b : Bool) (v : List (Objective T)) → dominates_from b v v ≡ b
  unfolding dominates_from
  dominates_from_self b [] = refl
  dominates_from_self b (x ∷ v) =
      rw (preferred_refl x.value x.direction, dominates_from) (dominates_from_self b v)

  -- No vector dominates itself.
  pub dominates_irrefl : (v : List (Objective T)) → dominates v v ≡ false
  unfolding dominates
  dominates_irrefl v = dominates_from_self false v

  -- A dominating vector is lexicographically greater.
  pub compare_vectors-dominates :
      (ls rs : List (Objective T)) → dominates ls rs ≡ true → compare_vectors ls rs ≡ gt
  unfolding dominates compare_vectors
  compare_vectors-dominates [] rs h = cc
  compare_vectors-dominates (l ∷ ls) [] h = cc
  compare_vectors-dominates (l ∷ ls) (r ∷ rs) h = ground (arith, compare_vectors-dominates ls rs)

  -- the ids of the objectives on which the first vector is preferred
  abbrev pub better_ids : List (Objective T) → List (Objective T) → List Text
  better_ids [] _ = []
  better_ids (_ ∷ _) [] = []
  better_ids (l ∷ ls) (r ∷ rs) =
      let rest = better_ids ls rs in
      elim (preferred_cmp l.value r.value l.direction) [ gt ↦ l.id ∷ rest | _ ↦ rest ]

  strict_ids_from-better :
      (found : List Text) (ls rs : List (Objective T))
      → strict_ids_from found ls rs ≡ (
          if dominates_from (not (is_empty found)) ls rs
          then some (found ++ better_ids ls rs)
          else none)
  unfolding strict_ids_from dominates_from
  strict_ids_from-better [] [] rs = refl
  strict_ids_from-better (i ∷ is) [] rs = rw (append-nil (i ∷ is))
  strict_ids_from-better [] (l ∷ ls) [] = refl
  strict_ids_from-better (i ∷ is) (l ∷ ls) [] = rw (append-nil (i ∷ is))
  strict_ids_from-better found (l ∷ ls) (r ∷ rs) =
      elim (Ordering-cases (preferred_cmp l.value r.value l.direction)) [
        | inl e ↦ rw (e, strict_ids_from, dominates_from, better_ids)
        | inr (inl e) ↦
            rw (e, strict_ids_from, dominates_from, better_ids) (strict_ids_from-better found ls rs)
        | inr (inr e) ↦
            rw (e, strict_ids_from, dominates_from, better_ids)
              (strict_ids_from-better (found ++ l.id ∷ []) ls rs
                ∙ rw (push_not_empty found l.id, append_assoc))
      ]

  -- The ids are there exactly when the first vector dominates, and they are those of the
  -- objectives on which it is preferred, in schema order.
  pub dominance_strict_objective_ids-better :
      (ls rs : List (Objective T))
      → dominance_strict_objective_ids ls rs
        ≡ (if dominates ls rs then some (better_ids ls rs) else none)
  unfolding dominance_strict_objective_ids dominates
  dominance_strict_objective_ids-better ls rs = strict_ids_from-better [] ls rs
