-- ===== src/Dispatch/Catalog/Laws.antt =====
-- When a catalog can be built.
use prospect_engine.Base.{
  ◌≡◌, refl, ◌∙◌, ap, subst, ◌↔◌, Option, none, some, List, map, Result, ok, Bool, true, false,
  then-ok,
}
use mathlib.Core.List.{Permᴰ}
use mathlib.Core.List.Permᴰ as Perm
use prospect_engine.Base.Sets.{IsDistinct}
use prospect_engine.Base.Sort.{
  sort_by_key, IsStrict, adjacent_duplicate-sort_iff, sort_by_key-IsStrict, sort_by_key-Perm,
  sort_by_key-of_strict, sort_by_key_unique, IsDistinct-of_strict, IsDistinct-Perm, Perm-map,
}
use prospect_engine.Base.Key.{Key}
use prospect_engine.Adapter.{namespaced_id_key}
use prospect_engine.Dispatch.Catalog.{
  AvailableAdapter, AvailableRegistryEntry, DispatchCatalog, DispatchCatalogError, adapter_repeated,
  entry_repeated, reject_duplicate_adapters, reject_duplicate_registry, new_catalog,
}

module _ {ℓ κ} {A : Type ℓ} {K : Type κ} ⦃k : Key K⦄ (f : A → K) where
  -- the same items, with their keys in strictly ascending order
  abbrev pub IsOrdered : List A → List A → Type ℓ
  IsOrdered xs ys = Permᴰ ys xs × IsStrict f ys

  IsOrdered-sort : (xs : List A) → IsDistinct (map f xs) → IsOrdered xs (sort_by_key f xs)
  IsOrdered-sort xs d = (sort_by_key-Perm f xs, sort_by_key-IsStrict f xs d)

  pub IsDistinct-of_IsOrdered : (xs ys : List A) → IsOrdered xs ys → IsDistinct (map f xs)
  IsDistinct-of_IsOrdered xs ys h = IsDistinct-Perm (Perm-map f h.0) (IsDistinct-of_strict f ys h.1)

  sort_by_key-of_IsOrdered : (xs ys : List A) → IsOrdered xs ys → sort_by_key f xs ≡ ys
  sort_by_key-of_IsOrdered xs ys h =
      sort_by_key_unique f (Perm.symm h.0) (IsDistinct-of_IsOrdered xs ys h)
      ∙ sort_by_key-of_strict f ys h.1

-- the catalog holds what was given, each list in strictly ascending order of its ids
abbrev pub IsCatalogOf :
    List AvailableAdapter
    → List AvailableRegistryEntry
    → List AvailableRegistryEntry
    → DispatchCatalog
    → Type 0
IsCatalogOf adapters metrics policies catalog =
    IsOrdered (λ a. a.adapter_id) adapters catalog.adapters
    × IsOrdered (λ e. e.id) metrics catalog.metrics
    × IsOrdered (λ e. e.id) policies catalog.policies

module _ {ℓ} {E : Type ℓ} where
  adapter_repeated-ok :
      (found : Option AvailableAdapter) → adapter_repeated {E = E} found ≡ ok tt → found ≡ none
  unfolding adapter_repeated
  adapter_repeated-ok none h = refl
  adapter_repeated-ok (some a) h = cc

  entry_repeated-ok :
      (found : Option AvailableRegistryEntry) (metric : Bool)
      → entry_repeated {E = E} found metric ≡ ok tt
      → found ≡ none
  unfolding entry_repeated
  entry_repeated-ok none metric h = refl
  entry_repeated-ok (some a) true h = cc
  entry_repeated-ok (some a) false h = cc

  sorted_adapters-ok :
      (xs : List AvailableAdapter)
      → reject_duplicate_adapters {E = E} (sort_by_key (λ a. a.adapter_id) xs) ≡ ok tt
      → IsOrdered (λ a. a.adapter_id) xs (sort_by_key (λ a. a.adapter_id) xs)
  unfolding reject_duplicate_adapters
  sorted_adapters-ok xs h =
      IsOrdered-sort (λ a. a.adapter_id) xs
        ((adjacent_duplicate-sort_iff (λ a. a.adapter_id) xs).0 (adapter_repeated-ok _ h))

  sorted_entries-ok :
      (xs : List AvailableRegistryEntry) (metric : Bool)
      → reject_duplicate_registry {E = E} (sort_by_key (λ e. e.id) xs) metric ≡ ok tt
      → IsOrdered (λ e. e.id) xs (sort_by_key (λ e. e.id) xs)
  unfolding reject_duplicate_registry
  sorted_entries-ok xs metric h =
      IsOrdered-sort (λ e. e.id) xs
        ((adjacent_duplicate-sort_iff (λ e. e.id) xs).0 (entry_repeated-ok _ metric h))

  adapters_accepted :
      (xs ys : List AvailableAdapter)
      → IsOrdered (λ a. a.adapter_id) xs ys
      → reject_duplicate_adapters {E = E} (sort_by_key (λ a. a.adapter_id) xs) ≡ ok tt
  unfolding reject_duplicate_adapters adapter_repeated
  adapters_accepted xs ys h = ap adapter_repeated (
      (adjacent_duplicate-sort_iff (λ a. a.adapter_id) xs).1
        (IsDistinct-of_IsOrdered (λ a. a.adapter_id) xs ys h))

  entries_accepted :
      (xs ys : List AvailableRegistryEntry) (metric : Bool)
      → IsOrdered (λ e. e.id) xs ys
      → reject_duplicate_registry {E = E} (sort_by_key (λ e. e.id) xs) metric ≡ ok tt
  unfolding reject_duplicate_registry entry_repeated
  entries_accepted xs ys metric h =
      ap (λ found. entry_repeated found metric)
        ((adjacent_duplicate-sort_iff (λ e. e.id) xs).1
          (IsDistinct-of_IsOrdered (λ e. e.id) xs ys h))

  returned :
      (P : DispatchCatalog → Type 0) {c d : DispatchCatalog}
      → ◌≡◌ {A = Result DispatchCatalog (DispatchCatalogError E)} (ok c) (ok d)
      → P c
      → P d
  returned P {c} {d} e h = let q : c ≡ d = cc in subst P q h

  new_catalog-ok :
      (adapters : List AvailableAdapter) (metrics policies : List AvailableRegistryEntry)
      (catalog : DispatchCatalog)
      → new_catalog {E = E} adapters metrics policies ≡ ok catalog
      → IsCatalogOf adapters metrics policies catalog
  unfolding new_catalog
  new_catalog-ok adapters metrics policies catalog h =
      let a = then-ok (reject_duplicate_adapters (sort_by_key (λ a. a.adapter_id) adapters)) _ h in
      let m = then-ok (reject_duplicate_registry (sort_by_key (λ e. e.id) metrics) true) _ a.1 in
      let p = then-ok (reject_duplicate_registry (sort_by_key (λ e. e.id) policies) false) _ m.1 in
      returned (IsCatalogOf adapters metrics policies) p.1 (
        sorted_adapters-ok adapters a.0,
        sorted_entries-ok metrics true m.0,
        sorted_entries-ok policies false p.0,
      )

  new_catalog-of_IsCatalogOf :
      (adapters : List AvailableAdapter) (metrics policies : List AvailableRegistryEntry)
      (catalog : DispatchCatalog)
      → IsCatalogOf adapters metrics policies catalog
      → new_catalog {E = E} adapters metrics policies ≡ ok catalog
  unfolding new_catalog
  new_catalog-of_IsCatalogOf adapters metrics policies catalog h =
      rw
        (
          adapters_accepted adapters catalog.adapters h.0,
          entries_accepted metrics catalog.metrics true h.1,
          entries_accepted policies catalog.policies false h.2,
        )
        λ i. ok (record {
          adapters = sort_by_key-of_IsOrdered (λ a. a.adapter_id) adapters catalog.adapters h.0 i;
          metrics = sort_by_key-of_IsOrdered (λ e. e.id) metrics catalog.metrics h.1 i;
          policies = sort_by_key-of_IsOrdered (λ e. e.id) policies catalog.policies h.2 i;
        })

  -- A catalog is built exactly from lists without a repeated id, and it is the one catalog that
  -- holds the same items, each list in strictly ascending order of its ids.
  pub new_catalog-ok_iff :
      (adapters : List AvailableAdapter) (metrics policies : List AvailableRegistryEntry)
      (catalog : DispatchCatalog)
      → (new_catalog {E = E} adapters metrics policies ≡ ok catalog)
        ↔ IsCatalogOf adapters metrics policies catalog
  new_catalog-ok_iff adapters metrics policies catalog = (
    new_catalog-ok adapters metrics policies catalog,
    new_catalog-of_IsCatalogOf adapters metrics policies catalog,
  )
