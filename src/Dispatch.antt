-- ===== src/Dispatch.antt =====
-- crates/prospect-dispatch/src/lib.rs: the requirements of a bundle resolved against a catalog of
-- adapters and the two registries. The catalog may hold several adapters with one id.
use prospect_engine.Base.{
  ◌≡◌, Bool, true, false, not, ◌&&◌, Option, none, some, List, [], ◌∷◌, filter, Result, ok, err,
  ◌>>=◌, ◌>>◌, map_err, transpose_map, if◌then◌else◌,
}
use prospect_engine.Base.Text.{Text}
use prospect_engine.Base.Key.{text_key, same}
use prospect_engine.Core.{SignatureMetric, DecisionPolicy}
use prospect_engine.Adapter.{
  ContractVersion, AdapterMetadata, AdapterUpstream, namespaced_id_key, supports,
}
use prospect_engine.Registry.{Registry, RegistryLookupError, resolve_metric, resolve_policy}
use prospect_engine.Bundle.{AdapterBinding, UpstreamBinding, RegistryRequirement, ScenarioBundle}
pub mod Laws
pub mod Execution
pub mod Invariant
pub mod Controlled
pub mod Catalog
mod Tests

pub record ResolvedBundleRequirements {ℓ} (S M P : Type ℓ) : Type ℓ where
  pub adapter : AdapterMetadata
  pub metric : Option (SignatureMetric S M)
  pub policy : Option (DecisionPolicy S P)

pub data BundleDispatchError : Type 0 where
  missing_adapter : Text → BundleDispatchError
  duplicate_adapter : Text → BundleDispatchError
  incompatible_adapter_version : Text → ContractVersion → ContractVersion → BundleDispatchError
  adapter_upstream_mismatch : Text → Text → Text → BundleDispatchError
  metric_error : RegistryLookupError → BundleDispatchError
  policy_error : RegistryLookupError → BundleDispatchError

-- `candidates.next()`, twice: the one adapter with the id
unfoldable pub only_candidate :
    Text → List AdapterMetadata → Result AdapterMetadata BundleDispatchError
only_candidate adapter_id [] = err (missing_adapter adapter_id)
only_candidate adapter_id (adapter ∷ []) = ok adapter
only_candidate adapter_id (adapter ∷ _ ∷ _) = err (duplicate_adapter adapter_id)

-- the closure `matches`
unfoldable pub upstream_matches : UpstreamBinding → Option AdapterUpstream → Bool
upstream_matches required none = false
upstream_matches required (some offered) =
    same offered.component required.component && same offered.revision required.revision

unfoldable pub check_upstream :
    Text → Option UpstreamBinding → AdapterMetadata → Result (Unit {0}) BundleDispatchError
check_upstream adapter_id none adapter = ok tt
check_upstream adapter_id (some required) adapter =
    if not (upstream_matches required adapter.upstream)
    then err (adapter_upstream_mismatch adapter_id required.component.value required.revision)
    else ok tt

-- the part of `resolve_bundle_requirements` that finds the adapter
unfoldable pub resolve_adapter :
    AdapterBinding → List AdapterMetadata → Result AdapterMetadata BundleDispatchError
resolve_adapter required adapters =
    only_candidate required.adapter_id.value
      (filter (λ metadata. same metadata.adapter_id.value required.adapter_id.value) adapters)
    >>= λ adapter.
        if not (supports adapter.contract_version required.contract_version)
        then err (
            incompatible_adapter_version required.adapter_id.value adapter.contract_version
              required.contract_version)
        else (check_upstream required.adapter_id.value required.upstream adapter >>= λ _.
            ok adapter)

unfoldable pub resolve_required_metric {ℓ} :
    {S M : Type ℓ}
    → Registry (SignatureMetric S M)
    → RegistryRequirement
    → Result (SignatureMetric S M) BundleDispatchError
resolve_required_metric metrics requirement =
    map_err metric_error (resolve_metric metrics requirement.id.value requirement.version)

unfoldable pub resolve_required_policy {ℓ} :
    {S P : Type ℓ}
    → Registry (DecisionPolicy S P)
    → RegistryRequirement
    → Result (DecisionPolicy S P) BundleDispatchError
resolve_required_policy policies requirement =
    map_err policy_error (resolve_policy policies requirement.id.value requirement.version)

unfoldable pub resolve_bundle_requirements {ℓ} :
    {State I S M P : Type ℓ}
    → ScenarioBundle State I
    → List AdapterMetadata
    → Registry (SignatureMetric S M)
    → Registry (DecisionPolicy S P)
    → Result (ResolvedBundleRequirements S M P) BundleDispatchError
resolve_bundle_requirements bundle adapters metrics policies =
    resolve_adapter bundle.adapter adapters >>= λ adapter.
    transpose_map (resolve_required_metric metrics) bundle.metric >>= λ metric.
    transpose_map (resolve_required_policy policies) bundle.policy >>= λ policy.
    ok (record { adapter = adapter; metric = metric; policy = policy })
