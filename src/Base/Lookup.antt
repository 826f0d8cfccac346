-- ===== src/Base/Lookup.antt =====
-- `iter().find(|item| key(item) == k)` on a list whose keys are distinct: the one item with the key.
use mathlib.Core.Path.{◌≡◌, sym, ap, ◌∙◌}
use mathlib.Core.Logic.{◌↔◌, ◌≢◌, inl, inr}
use mathlib.Core.Option.{some}
use mathlib.Core.List.{List, [], ◌∷◌, map, Permᴰ, Memᴰ}
use mathlib.Core.List.Memᴰ as Mem
use native.Mathlib.Omega.{arith}
use prospect_engine.Base.Bools.{Bool-cases}
use prospect_engine.Base.Lists.{find}
use prospect_engine.Base.Key.{Key, same, same→eq, eq→same, ne→same}
use prospect_engine.Base.Sets.{Fresh, IsDistinct}

pub Mem-Perm {ℓ} : {A : Type ℓ} {x : A} {xs ys : List A} → Permᴰ xs ys → Memᴰ x xs → Memᴰ x ys
Mem-Perm Permᴰ.nil m = absurd (Mem.not-nil m)
Mem-Perm (Permᴰ.cons e p) (Memᴰ.head q) = Memᴰ.head (q ∙ e)
Mem-Perm (Permᴰ.cons e p) (Memᴰ.tail m) = Memᴰ.tail (Mem-Perm p m)
Mem-Perm (Permᴰ.swap e g) (Memᴰ.head q) = Memᴰ.tail (Memᴰ.head (q ∙ e))
Mem-Perm (Permᴰ.swap e g) (Memᴰ.tail (Memᴰ.head q)) = Memᴰ.head (q ∙ g)
Mem-Perm (Permᴰ.swap e g) (Memᴰ.tail (Memᴰ.tail m)) = Memᴰ.tail (Memᴰ.tail m)
Mem-Perm (Permᴰ.trans p q) m = Mem-Perm q (Mem-Perm p m)

module _ {ℓ κ} {A : Type ℓ} {K : Type κ} ⦃k : Key K⦄ (f : A → K) where
  Fresh-Mem : (key : K) (xs : List A) {x : A} → Fresh key (map f xs) → Memᴰ x xs → key ≢ f x
  Fresh-Mem key [] h m = absurd (Mem.not-nil m)
  Fresh-Mem key (y ∷ ys) h (Memᴰ.head e) = λ q. h.0 (q ∙ ap f e)
  Fresh-Mem key (y ∷ ys) h (Memᴰ.tail m) = Fresh-Mem key ys h.1 m

  find_sound :
      (key : K) (xs : List A) (x : A)
      → find (λ y. same (f y) key) xs ≡ some x
      → Memᴰ x xs × (f x ≡ key)
  find_sound key [] x h = cc
  find_sound key (y ∷ ys) x h = elim (Bool-cases (same (f y) key)) [
    | inl e ↦
        let q : y ≡ x = ground (arith, rw e at h) in
        (Memᴰ.head (sym q), sym (ap f q) ∙ same→eq (f y) key e)
    | inr e ↦ let r = find_sound key ys x (ground (arith, rw e at h)) in (Memᴰ.tail r.0, r.1)
  ]

  find-of_Mem :
      (key : K) (xs : List A) (x : A)
      → IsDistinct (map f xs)
      → Memᴰ x xs
      → f x ≡ key
      → find (λ y. same (f y) key) xs ≡ some x
  find-of_Mem key [] x d m q = absurd (Mem.not-nil m)
  find-of_Mem key (y ∷ ys) x d (Memᴰ.head e) q =
      rw (eq→same (f y) key (sym (ap f e) ∙ q)) (ap some (sym e))
  find-of_Mem key (y ∷ ys) x d (Memᴰ.tail m) q =
      rw (ne→same (f y) key (λ e. Fresh-Mem (f y) ys d.0 m (e ∙ sym q)))
        (find-of_Mem key ys x d.1 m q)

  -- The search finds an item exactly when it is in the list and has the key.
  pub find_iff :
      (key : K) (xs : List A) (x : A)
      → IsDistinct (map f xs)
      → (find (λ y. same (f y) key) xs ≡ some x) ↔ (Memᴰ x xs × (f x ≡ key))
  find_iff key xs x d = (find_sound key xs x, λ h. find-of_Mem key xs x d h.0 h.1)
