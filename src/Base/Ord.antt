-- ===== src/Base/Ord.antt =====
-- `core::cmp::Ord`: a comparison with the laws that the trait documents. Two values that compare
-- `eq` need not be identical.
use Prim.Native.Nat.{ℕ, compare, Ordering}
use Prim.Native.Nat.Ordering.{lt, eq, gt}
use mathlib.Core.Path.{◌≡◌, refl}
use mathlib.Core.Logic.{◌≢◌, ◌⊎◌, inl, inr}
use mathlib.Core.Bool.{Bool, true, false}
use native.Mathlib.Omega.{arith}

-- `Ordering::reverse`
abbrev pub flip : Ordering → Ordering
flip lt = gt
flip eq = eq
flip gt = lt

-- `==` on orderings, as tests
abbrev pub is_eq : Ordering → Bool
is_eq eq = true
is_eq _ = false

abbrev pub is_gt : Ordering → Bool
is_gt gt = true
is_gt _ = false

pub Ordering-cases : (x : Ordering) → (x ≡ lt) ⊎ ((x ≡ eq) ⊎ (x ≡ gt))
Ordering-cases lt = inl refl
Ordering-cases eq = inr (inl refl)
Ordering-cases gt = inr (inr refl)

pub record Ord {ℓ} (K : Type ℓ) : Type ℓ where
  pub cmp : K → K → Ordering
  pub cmp_flip : (a b : K) → cmp b a ≡ flip (cmp a b)
  pub cmp_trans : (a b c : K) → cmp a b ≢ gt → cmp b c ≢ gt → cmp a c ≢ gt

infix 50 ◌≼◌ ◌≺◌
abbrev pub ◌≼◌ {ℓ} : {K : Type ℓ} ⦃o : Ord K⦄ → K → K → Type 0
◌≼◌ ⦃o⦄ a b = o.cmp a b ≢ gt

abbrev pub ◌≺◌ {ℓ} : {K : Type ℓ} ⦃o : Ord K⦄ → K → K → Type 0
◌≺◌ ⦃o⦄ a b = o.cmp a b ≡ lt

self_eq : (x : Ordering) → x ≡ flip x → x ≡ eq
self_eq lt h = cc
self_eq eq h = refl
self_eq gt h = cc

module _ {ℓ} {K : Type ℓ} ⦃o : Ord K⦄ where
  pub cmp_refl : (a : K) → o.cmp a a ≡ eq
  cmp_refl a = self_eq (o.cmp a a) (o.cmp_flip a a)

  pub ≼_refl : (a : K) → a ≼ a
  ≼_refl a h = ground (arith, cmp_refl a)

  pub ≺_≼_trans : (a b c : K) → a ≺ b → b ≼ c → a ≺ c
  ≺_≼_trans a b c h k = ground (arith, o.cmp_trans b c a k, o.cmp_flip a c, o.cmp_flip a b)

  pub ≼_≺_trans : (a b c : K) → a ≼ b → b ≺ c → a ≺ c
  ≼_≺_trans a b c h k =
      ground (arith, λ (p : o.cmp c a ≢ gt). o.cmp_trans c a b p h, o.cmp_flip a c, o.cmp_flip b c)

pub compare_flip : (a b : ℕ) → compare b a ≡ flip (compare a b)
compare_flip a b = ground arith

pub compare_trans : (a b c : ℕ) → compare a b ≢ gt → compare b c ≢ gt → compare a c ≢ gt
compare_trans a b c h k = ground arith

instance abbrev pub nat_ord : Ord ℕ
nat_ord = record { cmp = compare; cmp_flip = compare_flip; cmp_trans = compare_trans }
