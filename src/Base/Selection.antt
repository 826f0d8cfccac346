-- ===== src/Base/Selection.antt =====
-- The first greatest item of a list, and the scan that finds it: the shape of every selection loop.
use mathlib.Core.Path.{◌≡◌, refl, sym, ap, ◌∙◌, subst}
use mathlib.Core.Logic.{inl, inr}
use mathlib.Core.List.{List, [], ◌∷◌, ◌++◌, append_assoc}
use native.Mathlib.Omega.{arith}
use prospect_engine.Base.Bools.{if◌then◌else◌, Bool-cases}
use prospect_engine.Base.Lists.{All, All-imp, All-append}
use prospect_engine.Base.Ord.{Ord, ◌≼◌, ◌≺◌, is_gt, ≺_≼_trans, ≼_≺_trans}

-- `b` stands in the list, is greater than all before it and no less than all after it.
pub record IsFirstMax {ℓ κ} {A : Type ℓ} {K : Type κ} ⦃o : Ord K⦄ (f : A → K) (xs : List A) (b : A)
    : Type ℓ where
  pub before : List A
  pub after : List A
  pub split : xs ≡ before ++ b ∷ after
  pub earlier : All (λ x. f x ≺ f b) before
  pub later : All (λ x. f x ≼ f b) after

module _ {ℓ κ} {A : Type ℓ} {K : Type κ} ⦃o : Ord K⦄ (f : A → K) where
  -- `for c in cs { if f(c) > f(best) { best = c } }`
  unfoldable pub scan_max : A → List A → A
  scan_max b [] = b
  scan_max b (c ∷ cs) = scan_max (if is_gt (o.cmp (f c) (f b)) then c else b) cs

  IsFirstMax-replace :
      (xs : List A) (b c : A)
      → o.cmp (f b) (f c) ≡ Prim.Native.Nat.Ordering.lt
      → IsFirstMax f xs b
      → IsFirstMax f (xs ++ c ∷ []) c
  IsFirstMax-replace xs b c h m = record {
    before = xs;
    after = [];
    split = refl;
    earlier = subst (All (λ x. f x ≺ f c)) (sym m.split) (
        All-append _ m.before (b ∷ m.after)
          (All-imp (λ x p. ≺_≼_trans (f x) (f b) (f c) p (ground (arith, h))) m.before m.earlier)
          (h, All-imp (λ x p. ≼_≺_trans (f x) (f b) (f c) p h) m.after m.later));
    later = tt;
  }

  IsFirstMax-keep :
      (xs : List A) (b c : A) → f c ≼ f b → IsFirstMax f xs b → IsFirstMax f (xs ++ c ∷ []) b
  IsFirstMax-keep xs b c h m = record {
    before = m.before;
    after = m.after ++ c ∷ [];
    split = ap (λ l. l ++ c ∷ []) m.split ∙ append_assoc m.before (b ∷ m.after) (c ∷ []);
    earlier = m.earlier;
    later = All-append _ m.after (c ∷ []) m.later (h, tt);
  }

  scan_max-from :
      (xs : List A) (b : A) (cs : List A)
      → IsFirstMax f xs b
      → IsFirstMax f (xs ++ cs) (scan_max b cs)
  unfolding scan_max
  scan_max-from xs b [] m = subst (λ l. IsFirstMax f l b) (sym (mathlib.Core.List.append-nil xs)) m
  scan_max-from xs b (c ∷ cs) m =
      subst (λ l. IsFirstMax f l (scan_max b (c ∷ cs))) (append_assoc xs (c ∷ []) cs)
        (scan_max-from (xs ++ c ∷ []) (if is_gt (o.cmp (f c) (f b)) then c else b) cs next)
    where
      next : IsFirstMax f (xs ++ c ∷ []) (if is_gt (o.cmp (f c) (f b)) then c else b)
      next = elim (Bool-cases (is_gt (o.cmp (f c) (f b)))) [
        | inl g ↦ rw g (IsFirstMax-replace xs b c (ground (arith, o.cmp_flip (f c) (f b))) m)
        | inr l ↦ rw l (IsFirstMax-keep xs b c (ground arith) m)
      ]

  -- The scan finds the first greatest item.
  pub scan_max-IsFirstMax : (b : A) (cs : List A) → IsFirstMax f (b ∷ cs) (scan_max b cs)
  scan_max-IsFirstMax b cs =
      scan_max-from (b ∷ []) b cs
        (record { before = []; after = []; split = refl; earlier = tt; later = tt })
