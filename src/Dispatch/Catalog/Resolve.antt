-- ===== src/Dispatch/Catalog/Resolve.antt =====
-- What the preflight of a bundle against a catalog is worth.
use prospect_engine.Base.{
  ◌≡◌, refl, ap, subst, ◌↔◌, Option, none, some, List, [], ◌∷◌, map, ok, Bool, true, false,
  Bool-cases, bind-ok, then-ok, transpose_map, Result, inl, inr, arith,
}
use mathlib.Core.List.{Memᴰ}
use mathlib.Core.List.Permᴰ as Perm
use prospect_engine.Base.Text.{Text}
use prospect_engine.Base.Key.{text_key, same→eq, same_refl}
use prospect_engine.Base.Sets.{Fresh, IsDistinct}
use prospect_engine.Base.Sort.{IsDistinct-of_strict}
use prospect_engine.Base.Lookup.{find_iff, Mem-Perm}
use prospect_engine.Adapter.{ContractVersion, NamespacedId, namespaced_id_key, supports}
use prospect_engine.Adapter.Versions.{Supports, supports_iff}
use prospect_engine.Bundle.{AdapterBinding, UpstreamBinding, RegistryRequirement, ScenarioBundle}
use prospect_engine.Dispatch.Catalog.{
  AvailableAdapter, AvailableUpstream, AvailableRegistryEntry, DispatchCatalog,
  ResolvedCatalogRequirements, CatalogPreflightError, available_matches, check_available_upstream,
  check_available, find_available, check_entry, resolve_registry_requirement, resolve_bundle,
  new_catalog,
}
use prospect_engine.Dispatch.Catalog.Laws.{IsOrdered, IsCatalogOf, new_catalog-ok_iff}

-- the upstream that is asked for, if one is, is the adapter's: its component and its revision
abbrev pub IsPinned : Option UpstreamBinding → AvailableAdapter → Type 0
IsPinned none adapter = Unit
IsPinned (some required) adapter =
    (offered : AvailableUpstream) × (adapter.upstream ≡ some offered)
    × (offered.component ≡ required.component)
    × (offered.revision ≡ required.revision)

-- the adapter is one of those given, with the id asked for, a good enough version and the upstream
abbrev pub IsAvailable : AdapterBinding → List AvailableAdapter → AvailableAdapter → Type 0
IsAvailable required adapters adapter =
    (Memᴰ adapter adapters × (adapter.adapter_id.value ≡ required.adapter_id.value))
    × Supports adapter.contract_version required.contract_version
    × IsPinned required.upstream adapter

-- what is asked for of a registry, if anything, is an entry with the id and a good enough version
abbrev pub IsMet :
    List AvailableRegistryEntry
    → Option RegistryRequirement
    → Option AvailableRegistryEntry
    → Type 0
IsMet entries none none = Unit
IsMet entries none (some entry) = ⊥
IsMet entries (some required) none = ⊥
IsMet entries (some required) (some entry) =
    (Memᴰ entry entries × (entry.id.value ≡ required.id.value))
    × Supports entry.version required.version

module _ {ℓ} {A : Type ℓ} (f : A → NamespacedId) where
  Fresh-value :
      (id : NamespacedId) (xs : List A)
      → Fresh id (map f xs)
      → Fresh id.value (map (λ x. (f x).value) xs)
  Fresh-value id [] h = tt
  Fresh-value id (x ∷ xs) h = ((λ e. h.0 (λ i. record { value = e i })), Fresh-value id xs h.1)

  IsDistinct-value : (xs : List A) → IsDistinct (map f xs) → IsDistinct (map (λ x. (f x).value) xs)
  IsDistinct-value [] d = tt
  IsDistinct-value (x ∷ xs) d = (Fresh-value (f x) xs d.0, IsDistinct-value xs d.1)

  IsDistinct-of_IsOrdered_value :
      (xs ys : List A) → IsOrdered f xs ys → IsDistinct (map (λ x. (f x).value) ys)
  IsDistinct-of_IsOrdered_value xs ys h = IsDistinct-value ys (IsDistinct-of_strict f ys h.1)

available_matches-of_eq :
    (required : UpstreamBinding) (found : Option AvailableUpstream) (offered : AvailableUpstream)
    → found ≡ some offered
    → offered.component ≡ required.component
    → offered.revision ≡ required.revision
    → available_matches required found ≡ true
unfolding available_matches
available_matches-of_eq required found offered e c r =
    rw (e, c, r, same_refl required.component, same_refl required.revision) refl

available_matches-eq :
    (required : UpstreamBinding) (found : Option AvailableUpstream)
    → available_matches required found ≡ true
    → (offered : AvailableUpstream) × (found ≡ some offered)
      × (offered.component ≡ required.component)
      × (offered.revision ≡ required.revision)
unfolding available_matches
available_matches-eq required none h = cc
available_matches-eq required (some offered) h = (
  offered,
  refl,
  same→eq offered.component required.component (ground (arith, h)),
  same→eq offered.revision required.revision (ground (arith, h)),
)

check_available_upstream-ok :
    (id : Text) (required : Option UpstreamBinding) (adapter : AvailableAdapter)
    → check_available_upstream id required adapter ≡ ok tt
    → IsPinned required adapter
unfolding check_available_upstream
check_available_upstream-ok id none adapter h = tt
check_available_upstream-ok id (some required) adapter h =
    available_matches-eq required adapter.upstream (ground (arith, h))

check_available_upstream-of_IsPinned :
    (id : Text) (required : Option UpstreamBinding) (adapter : AvailableAdapter)
    → IsPinned required adapter
    → check_available_upstream id required adapter ≡ ok tt
unfolding check_available_upstream
check_available_upstream-of_IsPinned id none adapter h = refl
check_available_upstream-of_IsPinned id (some required) adapter (offered, e, c, r) =
    rw (available_matches-of_eq required adapter.upstream offered e c r) refl

-- the adapter that was found is accepted
abbrev IsAccepted : AdapterBinding → Option AvailableAdapter → AvailableAdapter → Type 0
IsAccepted required found adapter =
    (found ≡ some adapter)
    × Supports adapter.contract_version required.contract_version
    × IsPinned required.upstream adapter

check_available-ok :
    (required : AdapterBinding) (found : Option AvailableAdapter) (adapter : AvailableAdapter)
    → check_available required found ≡ ok adapter
    → IsAccepted required found adapter
unfolding check_available
check_available-ok required none adapter h = cc
check_available-ok required (some x) adapter h =
    elim (Bool-cases (supports x.contract_version required.contract_version)) [
      | inr v ↦ absurd (ground (arith, rw v at h))
      | inl v ↦
          let r =
            then-ok (check_available_upstream required.adapter_id.value required.upstream x) _
              (rw v at h) in
          let e : x ≡ adapter = cc in
          subst (IsAccepted required (some x)) e (
            refl,
            (supports_iff x.contract_version required.contract_version).0 v,
            check_available_upstream-ok required.adapter_id.value required.upstream x r.0,
          )
    ]

check_available-of_IsAccepted :
    (required : AdapterBinding) (found : Option AvailableAdapter) (adapter : AvailableAdapter)
    → IsAccepted required found adapter
    → check_available required found ≡ ok adapter
unfolding check_available
check_available-of_IsAccepted required found adapter h =
    rw
      (
        h.0,
        (supports_iff adapter.contract_version required.contract_version).1 h.1,
        check_available_upstream-of_IsPinned required.adapter_id.value required.upstream adapter
            h.2,
      )
      refl

find_available-ok_iff :
    (required : AdapterBinding) (given adapters : List AvailableAdapter)
    (adapter : AvailableAdapter)
    → IsOrdered (λ a. a.adapter_id) given adapters
    → (check_available required (find_available required adapters) ≡ ok adapter)
      ↔ IsAvailable required given adapter
unfolding find_available
find_available-ok_iff required given adapters adapter o =
    let found =
      find_iff (λ (a : AvailableAdapter). a.adapter_id.value) required.adapter_id.value adapters
        adapter (IsDistinct-of_IsOrdered_value (λ a. a.adapter_id) given adapters o) in
    (
      λ h.
          let r = check_available-ok required _ adapter h in
          let f = found.0 r.0 in ((Mem-Perm o.0 f.0, f.1), r.1, r.2),
      λ h.
          check_available-of_IsAccepted required _ adapter
            (found.1 (Mem-Perm (Perm.symm o.0) h.0.0, h.0.1), h.1, h.2),
    )

check_entry-ok :
    (found : Option AvailableRegistryEntry) (id : Text) (required : ContractVersion) (metric : Bool)
    (entry : AvailableRegistryEntry)
    → check_entry found id required metric ≡ ok entry
    → (found ≡ some entry) × Supports entry.version required
unfolding check_entry
check_entry-ok none id required true entry h = cc
check_entry-ok none id required false entry h = cc
check_entry-ok (some x) id required metric entry h =
    elim (Bool-cases (supports x.version required)) [
      | inl v ↦
          let e : x ≡ entry = ground (arith, rw v at h) in
          (
            ap some e,
            subst (λ y. Supports y.version required) e ((supports_iff x.version required).0 v),
          )
      | inr v ↦ absurd (ground (arith, rw v at h))
    ]

check_entry-of_found :
    (found : Option AvailableRegistryEntry) (id : Text) (required : ContractVersion) (metric : Bool)
    (entry : AvailableRegistryEntry)
    → found ≡ some entry
    → Supports entry.version required
    → check_entry found id required metric ≡ ok entry
unfolding check_entry
check_entry-of_found found id required metric entry e v =
    rw (e, (supports_iff entry.version required).1 v) refl

resolve_registry_requirement-ok_iff :
    (given entries : List AvailableRegistryEntry) (required : RegistryRequirement) (metric : Bool)
    (entry : AvailableRegistryEntry)
    → IsOrdered (λ e. e.id) given entries
    → (resolve_registry_requirement entries required.id.value required.version metric ≡ ok entry)
      ↔ IsMet given (some required) (some entry)
unfolding resolve_registry_requirement
resolve_registry_requirement-ok_iff given entries required metric entry o =
    let found =
      find_iff (λ (e : AvailableRegistryEntry). e.id.value) required.id.value entries entry
        (IsDistinct-of_IsOrdered_value (λ e. e.id) given entries o) in
    (
      λ h.
          let r = check_entry-ok _ required.id.value required.version metric entry h in
          let f = found.0 r.0 in ((Mem-Perm o.0 f.0, f.1), r.1),
      λ h.
          check_entry-of_found _ required.id.value required.version metric entry
            (found.1 (Mem-Perm (Perm.symm o.0) h.0.0, h.0.1)) h.1,
    )

-- the closure of `resolve_bundle` under `.map(...).transpose()`
abbrev resolve_required :
    List AvailableRegistryEntry
    → Bool
    → Option RegistryRequirement
    → Result (Option AvailableRegistryEntry) CatalogPreflightError
resolve_required entries metric required =
    transpose_map (λ r. resolve_registry_requirement entries r.id.value r.version metric) required

resolve_required-ok :
    (given entries : List AvailableRegistryEntry) (metric : Bool)
    (required : Option RegistryRequirement) (entry : Option AvailableRegistryEntry)
    → IsOrdered (λ e. e.id) given entries
    → resolve_required entries metric required ≡ ok entry
    → IsMet given required entry
resolve_required-ok given entries metric none none o h = tt
resolve_required-ok given entries metric none (some e) o h = cc
resolve_required-ok given entries metric (some r) entry o h =
    let s =
      bind-ok (resolve_registry_requirement entries r.id.value r.version metric) (λ e. ok (some e))
        h in
    let e : some s.0 ≡ entry = cc in
    subst (IsMet given (some r)) e
      ((resolve_registry_requirement-ok_iff given entries r metric s.0 o).0 s.1)

resolve_required-of_IsMet :
    (given entries : List AvailableRegistryEntry) (metric : Bool)
    (required : Option RegistryRequirement) (entry : Option AvailableRegistryEntry)
    → IsOrdered (λ e. e.id) given entries
    → IsMet given required entry
    → resolve_required entries metric required ≡ ok entry
resolve_required-of_IsMet given entries metric none none o h = refl
resolve_required-of_IsMet given entries metric none (some e) o h = absurd h
resolve_required-of_IsMet given entries metric (some r) none o h = absurd h
resolve_required-of_IsMet given entries metric (some r) (some e) o h =
    rw ((resolve_registry_requirement-ok_iff given entries r metric e o).1 h) refl

-- every requirement of the bundle is met from the three lists
abbrev pub IsPreflighted {ℓ} :
    {State I : Type ℓ}
    → List AvailableAdapter
    → List AvailableRegistryEntry
    → List AvailableRegistryEntry
    → ScenarioBundle State I
    → ResolvedCatalogRequirements
    → Type 0
IsPreflighted adapters metrics policies bundle resolved =
    IsAvailable bundle.adapter adapters resolved.adapter
    × IsMet metrics bundle.metric resolved.metric
    × IsMet policies bundle.policy resolved.policy

module _ {ℓ} {State I : Type ℓ} (adapters : List AvailableAdapter)
    (metrics policies : List AvailableRegistryEntry) (catalog : DispatchCatalog)
    (bundle : ScenarioBundle State I) (resolved : ResolvedCatalogRequirements) where
  resolve_bundle-ok :
      IsCatalogOf adapters metrics policies catalog
      → resolve_bundle catalog bundle ≡ ok resolved
      → IsPreflighted adapters metrics policies bundle resolved
  unfolding resolve_bundle
  resolve_bundle-ok o h =
      let a =
        bind-ok (check_available bundle.adapter (find_available bundle.adapter catalog.adapters)) _
          h in
      let m = bind-ok (resolve_required catalog.metrics true bundle.metric) _ a.2 in
      let p = bind-ok (resolve_required catalog.policies false bundle.policy) _ m.2 in
      let e : record { adapter = a.0; metric = m.0; policy = p.0 } ≡ resolved = cc in
      subst (IsPreflighted adapters metrics policies bundle) e (
        (find_available-ok_iff bundle.adapter adapters catalog.adapters a.0 o.0).0 a.1,
        resolve_required-ok metrics catalog.metrics true bundle.metric m.0 o.1 m.1,
        resolve_required-ok policies catalog.policies false bundle.policy p.0 o.2 p.1,
      )

  resolve_bundle-of_IsPreflighted :
      IsCatalogOf adapters metrics policies catalog
      → IsPreflighted adapters metrics policies bundle resolved
      → resolve_bundle catalog bundle ≡ ok resolved
  unfolding resolve_bundle
  resolve_bundle-of_IsPreflighted o h =
      rw
        (
          (find_available-ok_iff bundle.adapter adapters catalog.adapters resolved.adapter o.0).1
              h.0,
          resolve_required-of_IsMet metrics catalog.metrics true bundle.metric resolved.metric o.1
              h.1,
          resolve_required-of_IsMet policies catalog.policies false bundle.policy resolved.policy
              o.2 h.2,
        )
        refl

  -- A catalog that was built from three lists resolves a bundle exactly to an adapter of the first
  -- list with the id asked for, whose version has the major number asked for and at least the minor
  -- one, and whose upstream, if one is asked for, has the component and the revision asked for, and to
  -- entries of the other two lists that have the id and a version, in the same sense, that is asked
  -- for of them, if anything is.
  pub resolve_bundle-ok_iff {κ} :
      {E : Type κ}
      → new_catalog {E = E} adapters metrics policies ≡ ok catalog
      → (resolve_bundle catalog bundle ≡ ok resolved)
        ↔ IsPreflighted adapters metrics policies bundle resolved
  resolve_bundle-ok_iff built =
      let o = (new_catalog-ok_iff adapters metrics policies catalog).0 built in
      (resolve_bundle-ok o, resolve_bundle-of_IsPreflighted o)
