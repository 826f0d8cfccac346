-- ===== src/Base/Sort.antt =====
-- `[T]::sort_by`, a stable sort by a key, and the search `windows(2).find` for two neighbours with
-- the same key.
use Prim.Native.Nat.Ordering.{lt, gt}
use mathlib.Core.Path.{◌≡◌, refl, sym, ap, ◌∙◌, subst}
use mathlib.Core.Logic.{◌≢◌, ◌↔◌, inl, inr}
use mathlib.Core.Option.{Option, none, some}
use mathlib.Core.List.{List, [], ◌∷◌, map}
use mathlib.Core.List.{Permᴰ}
use mathlib.Core.List.Permᴰ as Perm
use native.Mathlib.Omega.{arith}
use prospect_engine.Base.Bools.{if◌then◌else◌, Bool-cases}
use prospect_engine.Base.Lists.{All, All-imp}
use prospect_engine.Base.Ord.{is_eq, is_gt, cmp_refl, ≺_≼_trans}
use prospect_engine.Base.Key.{Key}
use prospect_engine.Base.Sets.{Fresh, IsDistinct}

module _ {ℓ} {A : Type ℓ} where
  pub All-Perm {κ} : (P : A → Type κ) {xs ys : List A} → Permᴰ xs ys → All P xs → All P ys
  All-Perm P Permᴰ.nil h = h
  All-Perm P (Permᴰ.cons e d) h = (subst P e h.0, All-Perm P d h.1)
  All-Perm P (Permᴰ.swap e d) h = (subst P d h.1.0, (subst P e h.0, h.1.1))
  All-Perm P (Permᴰ.trans c d) h = All-Perm P d (All-Perm P c h)

pub Perm-map {ℓ κ} :
    {A : Type ℓ} {B : Type κ} (f : A → B) {xs ys : List A}
    → Permᴰ xs ys
    → Permᴰ (map f xs) (map f ys)
Perm-map f Permᴰ.nil = Permᴰ.nil
Perm-map f (Permᴰ.cons e d) = Permᴰ.cons (ap f e) (Perm-map f d)
Perm-map f (Permᴰ.swap e d) = Permᴰ.swap (ap f e) (ap f d)
Perm-map f (Permᴰ.trans c d) = Permᴰ.trans (Perm-map f c) (Perm-map f d)

module _ {ℓ} {K : Type ℓ} ⦃k : Key K⦄ where
  pub IsDistinct-Perm : {xs ys : List K} → Permᴰ xs ys → IsDistinct xs → IsDistinct ys
  IsDistinct-Perm Permᴰ.nil d = d
  IsDistinct-Perm (Permᴰ.cons {l₂ = ys} e p) d =
      (subst (λ x. Fresh x ys) e (All-Perm (λ y. _ ≢ y) p d.0), IsDistinct-Perm p d.1)
  IsDistinct-Perm (Permᴰ.swap {l = l} e f) d = (
    ((λ q. d.0.0 (e ∙ sym q ∙ sym f)), subst (λ x. Fresh x l) f d.1.0),
    (subst (λ x. Fresh x l) e d.0.1, d.1.1),
  )
  IsDistinct-Perm (Permᴰ.trans p q) d = IsDistinct-Perm q (IsDistinct-Perm p d)

module _ {ℓ κ} {A : Type ℓ} {K : Type κ} ⦃k : Key K⦄ (f : A → K) where
  unfoldable pub insert_sorted : A → List A → List A
  insert_sorted x [] = x ∷ []
  insert_sorted x (y ∷ ys) =
      let rest = insert_sorted x ys in
      if is_gt (k.order.cmp (f x) (f y)) then y ∷ rest else x ∷ y ∷ ys

  -- `xs.sort_by(|a, b| f(a).cmp(f(b)))`
  unfoldable pub sort_by_key : List A → List A
  sort_by_key [] = []
  sort_by_key (x ∷ xs) = insert_sorted x (sort_by_key xs)

  -- `xs.windows(2).find(|pair| f(pair[0]) == f(pair[1])).map(|pair| pair[0])`
  unfoldable pub adjacent_duplicate : List A → Option A
  adjacent_duplicate [] = none
  adjacent_duplicate (x ∷ []) = none
  adjacent_duplicate (x ∷ y ∷ ys) =
      let rest = adjacent_duplicate (y ∷ ys) in
      if is_eq (k.order.cmp (f x) (f y)) then some x else rest

  -- the keys ascend, or repeat
  abbrev pub IsSorted : List A → Type 0
  IsSorted [] = Unit
  IsSorted (x ∷ xs) = All (λ y. k.order.cmp (f x) (f y) ≢ gt) xs × IsSorted xs

  -- the keys ascend strictly
  abbrev pub IsStrict : List A → Type 0
  IsStrict [] = Unit
  IsStrict (x ∷ xs) = All (λ y. k.order.cmp (f x) (f y) ≡ lt) xs × IsStrict xs

  insert_sorted-Perm : (x : A) (xs : List A) → Permᴰ (insert_sorted x xs) (x ∷ xs)
  unfolding insert_sorted
  insert_sorted-Perm x [] = Perm.refl (x ∷ [])
  insert_sorted-Perm x (y ∷ ys) = elim (Bool-cases (is_gt (k.order.cmp (f x) (f y)))) [
    | inl e ↦ rw e (Permᴰ.trans (Permᴰ.cons refl (insert_sorted-Perm x ys)) (Permᴰ.swap refl refl))
    | inr e ↦ rw e (Perm.refl (x ∷ y ∷ ys))
  ]

  -- `sort_by` only moves the items
  pub sort_by_key-Perm : (xs : List A) → Permᴰ (sort_by_key xs) xs
  unfolding sort_by_key
  sort_by_key-Perm [] = Permᴰ.nil
  sort_by_key-Perm (x ∷ xs) =
      Permᴰ.trans (insert_sorted-Perm x (sort_by_key xs)) (Permᴰ.cons refl (sort_by_key-Perm xs))

  insert_sorted-IsSorted : (x : A) (xs : List A) → IsSorted xs → IsSorted (insert_sorted x xs)
  unfolding insert_sorted
  insert_sorted-IsSorted x [] h = (tt, tt)
  insert_sorted-IsSorted x (y ∷ ys) h = elim (Bool-cases (is_gt (k.order.cmp (f x) (f y)))) [
    | inl e ↦ rw e (
      All-Perm (λ z. k.order.cmp (f y) (f z) ≢ gt) (Perm.symm (insert_sorted-Perm x ys))
          (ground (arith, k.order.cmp_flip (f x) (f y)), h.0),
      insert_sorted-IsSorted x ys h.1,
    )
    | inr e ↦ rw e (
      (ground arith, All-imp (λ z. k.order.cmp_trans (f x) (f y) (f z) (ground arith)) ys h.0),
      h,
    )
  ]

  pub sort_by_key-IsSorted : (xs : List A) → IsSorted (sort_by_key xs)
  unfolding sort_by_key
  sort_by_key-IsSorted [] = tt
  sort_by_key-IsSorted (x ∷ xs) =
      insert_sorted-IsSorted x (sort_by_key xs) (sort_by_key-IsSorted xs)

  insert_comm :
      (x y : A) (xs : List A)
      → f x ≢ f y
      → insert_sorted x (insert_sorted y xs) ≡ insert_sorted y (insert_sorted x xs)
  unfolding insert_sorted
  insert_comm x y [] n = ground (arith, k.eq_of_cmp (f x) (f y), k.order.cmp_flip (f x) (f y))
  insert_comm x y (z ∷ zs) n = ground (
    arith,
    insert_comm x y zs n,
    k.eq_of_cmp (f x) (f y),
    k.order.cmp_flip (f x) (f y),
    k.order.cmp_trans (f x) (f y) (f z),
    k.order.cmp_trans (f y) (f x) (f z),
    k.order.cmp_flip (f x) (f z),
    k.order.cmp_flip (f y) (f z),
    ≺_≼_trans ⦃o = k.order⦄ (f z) (f x) (f y),
    ≺_≼_trans ⦃o = k.order⦄ (f z) (f y) (f x),
  )

  -- With distinct keys the sorted order does not depend on the order of the input.
  pub sort_by_key_unique :
      {xs ys : List A} → Permᴰ xs ys → IsDistinct (map f xs) → sort_by_key xs ≡ sort_by_key ys
  unfolding sort_by_key
  sort_by_key_unique Permᴰ.nil d = refl
  sort_by_key_unique (Permᴰ.cons e p) d = λ i. insert_sorted (e i) (sort_by_key_unique p d.1 i)
  sort_by_key_unique (Permᴰ.swap {a} {b} {l = l} e g) d =
      insert_comm a b (sort_by_key l) d.0.0
      ∙ (λ i. insert_sorted (g i) (insert_sorted (e i) (sort_by_key l)))
  sort_by_key_unique (Permᴰ.trans p q) d =
      sort_by_key_unique p d ∙ sort_by_key_unique q (IsDistinct-Perm (Perm-map f p) d)

  IsStrict-of_none : (xs : List A) → IsSorted xs → adjacent_duplicate xs ≡ none → IsStrict xs
  unfolding adjacent_duplicate
  IsStrict-of_none [] s h = tt
  IsStrict-of_none (x ∷ []) s h = (tt, tt)
  IsStrict-of_none (x ∷ y ∷ ys) s h =
      let first : k.order.cmp (f x) (f y) ≡ lt = ground (arith, s.0.0) in
      (
        (first, All-imp (λ z. ≺_≼_trans ⦃o = k.order⦄ (f x) (f y) (f z) first) ys s.1.0),
        IsStrict-of_none (y ∷ ys) s.1 (ground arith),
      )

  none_of_distinct : (xs : List A) → IsDistinct (map f xs) → adjacent_duplicate xs ≡ none
  unfolding adjacent_duplicate
  none_of_distinct [] d = refl
  none_of_distinct (x ∷ []) d = refl
  none_of_distinct (x ∷ y ∷ ys) d =
      ground (arith, none_of_distinct (y ∷ ys) d.1, k.eq_of_cmp (f x) (f y), d.0.0)

  Fresh-of_strict :
      (x : A) (xs : List A) → All (λ y. k.order.cmp (f x) (f y) ≡ lt) xs → Fresh (f x) (map f xs)
  Fresh-of_strict x [] h = tt
  Fresh-of_strict x (y ∷ ys) h =
      ((λ e. ground (arith, cmp_refl ⦃o = k.order⦄ (f x), h.0)), Fresh-of_strict x ys h.1)

  pub IsDistinct-of_strict : (xs : List A) → IsStrict xs → IsDistinct (map f xs)
  IsDistinct-of_strict [] h = tt
  IsDistinct-of_strict (x ∷ xs) h = (Fresh-of_strict x xs h.0, IsDistinct-of_strict xs h.1)

  -- Sorting and looking at neighbours finds no duplicate exactly when the keys are distinct.
  pub adjacent_duplicate-sort_iff :
      (xs : List A) → (adjacent_duplicate (sort_by_key xs) ≡ none) ↔ IsDistinct (map f xs)
  adjacent_duplicate-sort_iff xs = (
    λ h. IsDistinct-Perm (Perm-map f (sort_by_key-Perm xs)) (
        IsDistinct-of_strict (sort_by_key xs)
          (IsStrict-of_none (sort_by_key xs) (sort_by_key-IsSorted xs) h)),
    λ d.
        none_of_distinct (sort_by_key xs)
          (IsDistinct-Perm (Perm-map f (Perm.symm (sort_by_key-Perm xs))) d),
  )

  -- Distinct keys ascend strictly once sorted.
  pub sort_by_key-IsStrict : (xs : List A) → IsDistinct (map f xs) → IsStrict (sort_by_key xs)
  sort_by_key-IsStrict xs d =
      IsStrict-of_none (sort_by_key xs) (sort_by_key-IsSorted xs)
        ((adjacent_duplicate-sort_iff xs).1 d)

  insert_sorted-below :
      (x : A) (xs : List A)
      → All (λ y. k.order.cmp (f x) (f y) ≡ lt) xs
      → insert_sorted x xs ≡ x ∷ xs
  unfolding insert_sorted
  insert_sorted-below x [] h = refl
  insert_sorted-below x (y ∷ ys) h = rw h.0 refl

  -- sorting a list in order changes nothing
  pub sort_by_key-of_strict : (xs : List A) → IsStrict xs → sort_by_key xs ≡ xs
  unfolding sort_by_key
  sort_by_key-of_strict [] h = refl
  sort_by_key-of_strict (x ∷ xs) h =
      rw (sort_by_key-of_strict xs h.1) (insert_sorted-below x xs h.0)
