-- ===== src/Base/TreeMap.antt =====
-- `BTreeMap<K, V>` as its entries in key order: what `values()` and `iter()` walk.
use Prim.Native.Nat.{suc}
use Prim.Native.Nat.Ordering.{lt, eq, gt}
use mathlib.Core.Path.{◌≡◌, refl, subst}
use mathlib.Core.Logic.{◌≢◌, inl, inr}
use mathlib.Core.Option.{Option, none, some}
use mathlib.Core.List.{List, [], ◌∷◌}
use native.Mathlib.Omega.{arith}
use prospect_engine.Base.Lists.{length, All}
use prospect_engine.Base.Ord.{Ordering-cases, cmp_refl, ≺_≼_trans}
use prospect_engine.Base.Key.{Key}

module _ {ℓ κ} {K : Type ℓ} {V : Type κ} ⦃k : Key K⦄ where
  -- `BTreeMap::get`
  unfoldable pub get : K → List (K × V) → Option V
  get q [] = none
  get q ((j, v) ∷ m) = let rest = get q m in elim (k.order.cmp q j) [ eq ↦ some v | _ ↦ rest ]

  -- `BTreeMap::insert`
  unfoldable pub insert : K → V → List (K × V) → List (K × V)
  insert q w [] = (q, w) ∷ []
  insert q w ((j, v) ∷ m) =
      let rest = insert q w m in
      elim (k.order.cmp q j) [ lt ↦ (q, w) ∷ (j, v) ∷ m | eq ↦ (j, w) ∷ m | gt ↦ (j, v) ∷ rest ]

  -- every key of the map is above `q`
  abbrev pub Above : K → List (K × V) → Type 0
  Above q [] = Unit
  Above q ((j, v) ∷ m) = (k.order.cmp q j ≡ lt) × Above q m

  -- the keys ascend strictly
  abbrev pub IsAscending : List (K × V) → Type 0
  IsAscending [] = Unit
  IsAscending ((j, v) ∷ m) = Above j m × IsAscending m

  Above-trans : (p q : K) (m : List (K × V)) → k.order.cmp p q ≡ lt → Above q m → Above p m
  Above-trans p q [] h a = tt
  Above-trans p q ((j, v) ∷ m) h a =
      (≺_≼_trans ⦃o = k.order⦄ p q j h (ground (arith, a.0)), Above-trans p q m h a.1)

  Above-insert :
      (p q : K) (w : V) (m : List (K × V))
      → k.order.cmp p q ≡ lt
      → Above p m
      → Above p (insert q w m)
  unfolding insert
  Above-insert p q w [] h a = (h, tt)
  Above-insert p q w ((j, v) ∷ m) h a = ground (arith, Above-insert p q w m h a.1)

  -- `insert` keeps the entries in key order
  pub insert-IsAscending :
      (q : K) (w : V) (m : List (K × V)) → IsAscending m → IsAscending (insert q w m)
  unfolding insert
  insert-IsAscending q w [] h = (tt, tt)
  insert-IsAscending q w ((j, v) ∷ m) h = ground (
    arith,
    insert-IsAscending q w m h.1,
    Above-trans q j m,
    Above-insert j q w m,
    k.order.cmp_flip j q,
  )

  pub get-insert_self : (q : K) (w : V) (m : List (K × V)) → get q (insert q w m) ≡ some w
  unfolding get insert
  get-insert_self q w [] = rw (cmp_refl ⦃o = k.order⦄ q, get)
  get-insert_self q w ((j, v) ∷ m) = ground (arith, get-insert_self q w m, cmp_refl ⦃o = k.order⦄ q)

  pub get-insert_ne : (p q : K) (w : V) (m : List (K × V)) → p ≢ q → get p (insert q w m) ≡ get p m
  unfolding get insert
  get-insert_ne p q w [] n = ground (arith, k.eq_of_cmp p q)
  get-insert_ne p q w ((j, v) ∷ m) n =
      ground (arith, get-insert_ne p q w m n, k.eq_of_cmp p q, k.eq_of_cmp q j)

  -- inserting a new key adds one entry
  pub length-insert :
      (q : K) (w : V) (m : List (K × V)) → get q m ≡ none → length (insert q w m) ≡ suc (length m)
  unfolding get insert
  length-insert q w [] h = refl
  length-insert q w ((j, v) ∷ m) h = ground (arith, length-insert q w m)

  -- what holds of every entry still does after `insert`
  pub All-insert {μ} :
      (P : K × V → Type μ) (q : K) (w : V) (m : List (K × V))
      → P (q, w)
      → All P m
      → All P (insert q w m)
  unfolding insert
  All-insert P q w [] h a = (h, tt)
  All-insert P q w ((j, v) ∷ m) h a = elim (Ordering-cases (k.order.cmp q j)) [
    | inl e ↦ rw (e, insert) (h, a)
    | inr (inl e) ↦ rw (e, insert) (subst (λ x. P (x, w)) (k.eq_of_cmp q j e) h, a.1)
    | inr (inr e) ↦ rw (e, insert) (a.0, All-insert P q w m h a.1)
  ]
