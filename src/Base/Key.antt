-- ===== src/Base/Key.antt =====
-- Types whose derived `Eq` and `Ord` agree with identity: the keys of `BTreeMap` and `BTreeSet`.
use mathlib.Core.Path.{◌≡◌}
use mathlib.Core.Logic.{◌≢◌}
use mathlib.Core.Bool.{Bool, true, false}
use Prim.Native.Nat.Ordering.{eq}
use native.Mathlib.Omega.{arith}
use prospect_engine.Base.Ord.{Ord, is_eq, cmp_refl}
use prospect_engine.Base.Text.{Text, text_ord, text_cmp-eq}

pub record Key {ℓ} (K : Type ℓ) : Type ℓ where
  pub order : Ord K
  pub eq_of_cmp : (a b : K) → order.cmp a b ≡ eq → a ≡ b

instance unfoldable pub text_key : Key Text
unfolding text_ord
text_key = record { order = text_ord; eq_of_cmp = text_cmp-eq }

module _ {ℓ} {K : Type ℓ} ⦃k : Key K⦄ where
  -- `a == b`
  unfoldable pub same : K → K → Bool
  same a b = is_eq (k.order.cmp a b)

  pub same→eq : (a b : K) → same a b ≡ true → a ≡ b
  unfolding same
  same→eq a b h = ground (arith, k.eq_of_cmp a b)

  pub same_refl : (a : K) → same a a ≡ true
  unfolding same
  same_refl a = rw (cmp_refl ⦃o = k.order⦄ a)

  pub eq→same : (a b : K) → a ≡ b → same a b ≡ true
  eq→same a b e = rw e (same_refl b)

  pub ne→same : (a b : K) → a ≢ b → same a b ≡ false
  ne→same a b h = ground (arith, same→eq a b)
