-- ===== src/Dispatch/Laws.antt =====
-- What a resolution and a run of a bundle are worth.
use prospect_engine.Base.{
  ◌≡◌, refl, subst, ◌↔◌, true, Option, none, some, List, [], ◌∷◌, filter, inl, inr, ok,
  Result-cases, Bool-cases, arith,
}
use prospect_engine.Base.Text.{Text}
use prospect_engine.Base.Key.{text_key, same, same→eq, same_refl}
use prospect_engine.Adapter.{AdapterMetadata, AdapterUpstream, namespaced_id_key, supports}
use prospect_engine.Adapter.Versions.{Supports, supports_iff}
use prospect_engine.Bundle.{AdapterBinding, UpstreamBinding}
use prospect_engine.Dispatch.{only_candidate, upstream_matches, check_upstream, resolve_adapter}

-- the adapters of the catalog that have the id
abbrev pub named : AdapterBinding → List AdapterMetadata → List AdapterMetadata
named required adapters =
    filter (λ metadata. same metadata.adapter_id.value required.adapter_id.value) adapters

-- the upstream that is asked for, if one is, is the adapter's: its component and its revision
abbrev pub Pinned : Option UpstreamBinding → AdapterMetadata → Type 0
Pinned none adapter = Unit
Pinned (some required) adapter =
    (offered : AdapterUpstream) × (adapter.upstream ≡ some offered)
    × (offered.component ≡ required.component)
    × (offered.revision ≡ required.revision)

-- The one adapter of the catalog with the id asked for, at a good enough version and the upstream
-- asked for.
abbrev pub IsResolved : AdapterBinding → List AdapterMetadata → AdapterMetadata → Type 0
IsResolved required adapters adapter =
    (named required adapters ≡ adapter ∷ [])
    × Supports adapter.contract_version required.contract_version
    × Pinned required.upstream adapter

only_candidate-ok :
    (id : Text) (found : List AdapterMetadata) (adapter : AdapterMetadata)
    → only_candidate id found ≡ ok adapter
    → found ≡ adapter ∷ []
unfolding only_candidate
only_candidate-ok id [] adapter h = cc
only_candidate-ok id (x ∷ []) adapter h = ground arith
only_candidate-ok id (x ∷ y ∷ ys) adapter h = cc

upstream_matches-of_eq :
    (required : UpstreamBinding) (found : Option AdapterUpstream) (offered : AdapterUpstream)
    → found ≡ some offered
    → offered.component ≡ required.component
    → offered.revision ≡ required.revision
    → upstream_matches required found ≡ true
unfolding upstream_matches
upstream_matches-of_eq required found offered e c r =
    rw (e, c, r, same_refl required.component, same_refl required.revision) refl

upstream_matches-eq :
    (required : UpstreamBinding) (found : Option AdapterUpstream)
    → upstream_matches required found ≡ true
    → (offered : AdapterUpstream) × (found ≡ some offered)
      × (offered.component ≡ required.component)
      × (offered.revision ≡ required.revision)
unfolding upstream_matches
upstream_matches-eq required none h = cc
upstream_matches-eq required (some offered) h = (
  offered,
  refl,
  same→eq offered.component required.component (ground (arith, h)),
  same→eq offered.revision required.revision (ground (arith, h)),
)

check_upstream-ok :
    (id : Text) (required : Option UpstreamBinding) (adapter : AdapterMetadata)
    → check_upstream id required adapter ≡ ok tt
    → Pinned required adapter
unfolding check_upstream
check_upstream-ok id none adapter h = tt
check_upstream-ok id (some required) adapter h =
    upstream_matches-eq required adapter.upstream (ground (arith, h))

check_upstream-of_Pinned :
    (id : Text) (required : Option UpstreamBinding) (adapter : AdapterMetadata)
    → Pinned required adapter
    → check_upstream id required adapter ≡ ok tt
unfolding check_upstream
check_upstream-of_Pinned id none adapter h = refl
check_upstream-of_Pinned id (some required) adapter (offered, e, c, r) =
    rw (upstream_matches-of_eq required adapter.upstream offered e c r) refl

resolve_adapter-ok :
    (required : AdapterBinding) (adapters : List AdapterMetadata) (adapter : AdapterMetadata)
    → resolve_adapter required adapters ≡ ok adapter
    → IsResolved required adapters adapter
unfolding resolve_adapter
resolve_adapter-ok required adapters adapter h =
    elim (Result-cases (only_candidate required.adapter_id.value (named required adapters))) [
      | inr (e, q) ↦ absurd (ground (arith, rw q at h))
      | inl (x, q) ↦ elim (Bool-cases (supports x.contract_version required.contract_version)) [
        | inr v ↦ absurd (ground (arith, rw (q, v) at h))
        | inl v ↦
            elim (Result-cases (check_upstream required.adapter_id.value required.upstream x)) [
              | inr (e, u) ↦ absurd (ground (arith, rw (q, v, u) at h))
              | inl (_, u) ↦
                  subst (IsResolved required adapters) (ground (arith, rw (q, v, u) at h)) (
                    only_candidate-ok required.adapter_id.value (named required adapters) x q,
                    (supports_iff x.contract_version required.contract_version).0 v,
                    check_upstream-ok required.adapter_id.value required.upstream x u,
                  )
            ]
      ]
    ]

-- The adapter of a bundle is resolved exactly when the catalog has one adapter with the id asked
-- for, whose version has the major number asked for and at least the minor one, and whose upstream,
-- if one is asked for, has the component and the revision asked for.
pub resolve_adapter-ok_iff :
    (required : AdapterBinding) (adapters : List AdapterMetadata) (adapter : AdapterMetadata)
    → (resolve_adapter required adapters ≡ ok adapter) ↔ IsResolved required adapters adapter
unfolding resolve_adapter only_candidate
resolve_adapter-ok_iff required adapters adapter = (
  resolve_adapter-ok required adapters adapter,
  λ h.
      rw
        (
          h.0,
          (supports_iff adapter.contract_version required.contract_version).1 h.1,
          check_upstream-of_Pinned required.adapter_id.value required.upstream adapter h.2,
        )
        refl,
)
