-- ===== src/Base/Sets.antt =====
-- `BTreeSet<K>` as the parts use it: `insert` tells whether the key is new. The set is the list of
-- the keys inserted so far; its order is never read.
use mathlib.Core.Path.{◌≡◌, refl, sym, ap, subst}
use mathlib.Core.Logic.{◌≢◌, ◌↔◌, ◌⊎◌, inl, inr}
use mathlib.Core.Bool.{Bool, true, false, ◌||◌}
use mathlib.Core.Option.{Option, none, some}
use mathlib.Core.List.{List, [], ◌∷◌, ◌++◌, Memᴰ}
use mathlib.Core.List.Memᴰ as Mem
use native.Mathlib.Omega.{arith}
use prospect_engine.Base.Bools.{if◌then◌else◌, Bool-cases}
use prospect_engine.Base.Lists.{All, All-imp}
use prospect_engine.Base.Key.{Key, same, same→eq, eq→same, ne→same}

module _ {ℓ} {K : Type ℓ} ⦃k : Key K⦄ where
  unfoldable pub contains : K → List K → Bool
  contains x [] = false
  contains x (y ∷ ys) = same x y || contains x ys

  -- The first key of the list that repeats an earlier one: the loop
  -- `find(|id| !seen.insert(id))`.
  unfoldable pub first_duplicate : List K → List K → Option K
  unfolding contains
  first_duplicate seen [] = none
  first_duplicate seen (x ∷ xs) =
      let rest = first_duplicate (x ∷ seen) xs in if contains x seen then some x else rest

  -- `x` is none of the keys
  abbrev pub Fresh : K → List K → Type ℓ
  Fresh x ys = All (λ y. x ≢ y) ys

  -- no key occurs twice
  abbrev pub IsDistinct : List K → Type ℓ
  IsDistinct [] = Unit
  IsDistinct (x ∷ xs) = Fresh x xs × IsDistinct xs

  pub Fresh-of_contains : (x : K) (ys : List K) → contains x ys ≡ false → Fresh x ys
  unfolding contains
  Fresh-of_contains x [] h = tt
  Fresh-of_contains x (y ∷ ys) h =
      (λ e. ground (arith, eq→same x y e), Fresh-of_contains x ys (ground arith))

  pub contains_of_Fresh : (x : K) (ys : List K) → Fresh x ys → contains x ys ≡ false
  unfolding contains
  contains_of_Fresh x [] h = refl
  contains_of_Fresh x (y ∷ ys) h = ground (arith, ne→same x y h.0, contains_of_Fresh x ys h.1)

  All-Fresh_split :
      (x : K) (seen xs : List K)
      → All (λ y. Fresh y (x ∷ seen)) xs
      → Fresh x xs × All (λ y. Fresh y seen) xs
  All-Fresh_split x seen xs h = (All-imp (λ y f e. f.0 (sym e)) xs h, All-imp (λ y f. f.1) xs h)

  All-Fresh_join :
      (x : K) (seen xs : List K)
      → Fresh x xs
      → All (λ y. Fresh y seen) xs
      → All (λ y. Fresh y (x ∷ seen)) xs
  All-Fresh_join x seen [] f h = tt
  All-Fresh_join x seen (y ∷ ys) f h = ((λ e. f.0 (sym e), h.0), All-Fresh_join x seen ys f.1 h.1)

  IsDistinct-of_none :
      (seen xs : List K)
      → first_duplicate seen xs ≡ none
      → IsDistinct xs × All (λ x. Fresh x seen) xs
  unfolding first_duplicate
  IsDistinct-of_none seen [] h = (tt, tt)
  IsDistinct-of_none seen (x ∷ xs) h = elim (Bool-cases (contains x seen)) [
    | inl old ↦ absurd (ground (arith, h))
    | inr new ↦
        let (d, f) = IsDistinct-of_none (x ∷ seen) xs (rw new at h) in
        let (fx, fs) = All-Fresh_split x seen xs f in ((fx, d), (Fresh-of_contains x seen new, fs))
  ]

  none_of_distinct :
      (seen xs : List K)
      → IsDistinct xs
      → All (λ x. Fresh x seen) xs
      → first_duplicate seen xs ≡ none
  unfolding first_duplicate
  none_of_distinct seen [] d f = refl
  none_of_distinct seen (x ∷ xs) d f =
      rw (contains_of_Fresh x seen f.0)
        (none_of_distinct (x ∷ seen) xs d.1 (All-Fresh_join x seen xs d.0 f.1))

  All-Fresh_nil : (xs : List K) → All (λ x. Fresh x []) xs
  All-Fresh_nil [] = tt
  All-Fresh_nil (x ∷ xs) = (tt, All-Fresh_nil xs)

  -- No duplicate is found exactly when no key occurs twice.
  pub first_duplicate-none_iff : (xs : List K) → (first_duplicate [] xs ≡ none) ↔ IsDistinct xs
  first_duplicate-none_iff xs =
      (λ h. (IsDistinct-of_none [] xs h).0, λ d. none_of_distinct [] xs d (All-Fresh_nil xs))

  -- `x` is the first key that repeats an earlier one
  abbrev pub IsFirstRepeat : List K → K → Type ℓ
  IsFirstRepeat xs x =
      (before : List K) × (after : List K) × (xs ≡ before ++ x ∷ after)
      × Memᴰ x before
      × IsDistinct before

  Mem-of_contains : (x : K) (ys : List K) → contains x ys ≡ true → Memᴰ x ys
  unfolding contains
  Mem-of_contains x [] h = cc
  Mem-of_contains x (y ∷ ys) h = elim (Bool-cases (same x y)) [
    | inl e ↦ Memᴰ.head (same→eq x y e)
    | inr e ↦ Memᴰ.tail (Mem-of_contains x ys (rw e at h))
  ]

  first_duplicate-seen :
      (seen xs : List K) (x : K)
      → first_duplicate seen xs ≡ some x
      → (before : List K) × (after : List K) × (xs ≡ before ++ x ∷ after)
        × (Memᴰ x seen ⊎ Memᴰ x before)
        × IsDistinct before
        × All (λ y. Fresh y seen) before
  unfolding first_duplicate
  first_duplicate-seen seen [] x h = cc
  first_duplicate-seen seen (y ∷ ys) x h = elim (Bool-cases (contains y seen)) [
    | inl old ↦
        let e : y ≡ x = ground (arith, rw old at h) in
        (
          [],
          ys,
          ap (λ z. z ∷ ys) e,
          inl (subst (λ z. Memᴰ z seen) e (Mem-of_contains y seen old)),
          tt,
          tt,
        )
    | inr new ↦
        let (before, after, split, member, distinct, fresh) =
          first_duplicate-seen (y ∷ seen) ys x (rw new at h) in
        let (first, rest) = All-Fresh_split y seen before fresh in
        (
          y ∷ before,
          after,
          ap (λ zs. y ∷ zs) split,
          moved y before member,
          (first, distinct),
          (Fresh-of_contains y seen new, rest),
        )
  ]
    where
      moved :
          (y : K) (before : List K)
          → Memᴰ x (y ∷ seen) ⊎ Memᴰ x before
          → Memᴰ x seen ⊎ Memᴰ x (y ∷ before)
      moved y before (inl (Memᴰ.head e)) = inr (Memᴰ.head e)
      moved y before (inl (Memᴰ.tail m)) = inl m
      moved y before (inr m) = inr (Memᴰ.tail m)

  -- What is found is the first key that repeats an earlier one.
  pub first_duplicate-some :
      (xs : List K) (x : K) → first_duplicate [] xs ≡ some x → IsFirstRepeat xs x
  first_duplicate-some xs x h =
      let (before, after, split, member, distinct, _) = first_duplicate-seen [] xs x h in
      (before, after, split, earlier before member, distinct)
    where
      earlier : (before : List K) → Memᴰ x [] ⊎ Memᴰ x before → Memᴰ x before
      earlier before (inl m) = absurd (Mem.not-nil m)
      earlier before (inr m) = m
