-- ===== src/Base/Effects.antt =====
-- Calls that may fail and may change the world outside: `W → Result A E × W`, with `?` as bind.
use mathlib.Core.Path.{◌≡◌, refl, sym}
use mathlib.Core.Logic.{◌⊎◌, inl, inr}
use native.Mathlib.Omega.{arith}
use prospect_engine.Base.Results.{Result, ok, err}

abbrev pub Effect {ℓ κ μ} : Type ℓ → Type κ → Type μ → Type (ℓ ⊔ κ ⊔ μ)
Effect W E A = W → Result A E × W

abbrev pub and_then {ℓ κ μ ν} :
    {W : Type ℓ} {E : Type κ} {A : Type μ} {B : Type ν}
    → (A → Effect W E B)
    → Result A E × W
    → Result B E × W
and_then f (ok a, w) = f a w
and_then f (err e, w) = (err e, w)

infixl 5 ◌>>=◌
abbrev pub ◌>>=◌ {ℓ κ μ ν} :
    {W : Type ℓ} {E : Type κ} {A : Type μ} {B : Type ν}
    → Effect W E A
    → (A → Effect W E B)
    → Effect W E B
◌>>=◌ m f w = and_then f (m w)

abbrev pub return {ℓ κ μ} : {W : Type ℓ} {E : Type κ} {A : Type μ} → A → Effect W E A
return a w = (ok a, w)

module _ {ℓ κ μ ν} {W : Type ℓ} {E : Type κ} {A : Type μ} {B : Type ν} where
  -- A bind returned: its first part succeeded and the rest gave the result, or its first part failed.
  pub and_then_cases :
      (f : A → Effect W E B) (r : Result A E × W) {q : Result B E × W}
      → and_then f r ≡ q
      → ((a : A) × (w : W) × (r ≡ (ok a, w)) × (f a w ≡ q))
        ⊎ ((e : E) × (w : W) × (r ≡ (err e, w)) × (q ≡ (err e, w)))
  and_then_cases f (ok a, w) h = inl (a, w, refl, h)
  and_then_cases f (err e, w) h = inr (e, w, refl, sym h)

  -- The same failure, seen at the two result types of a bind.
  pub same_failure :
      (r : Result A E × W) {e e' : E} {w w' : W}
      → r ≡ (err e, w)
      → ◌≡◌ {A = Result B E × W} (err e', w') (err e, w)
      → r ≡ (err e', w')
  same_failure r h q = ground arith

  -- A bind that succeeds: both of its parts did.
  pub and_then-ok :
      (f : A → Effect W E B) (r : Result A E × W) {b : B} {w' : W}
      → and_then f r ≡ (ok b, w')
      → (a : A) × (w : W) × (r ≡ (ok a, w)) × (f a w ≡ (ok b, w'))
  and_then-ok f (ok a, w) h = (a, w, refl, h)
  and_then-ok f (err e, w) h = absurd (ground arith)
