-- ===== src/Dispatch/Catalog.antt =====
-- crates/prospect-dispatch/src/catalog.rs: the versioned catalog of what is available, without the
-- adapters themselves, and the preflight of a bundle against it.
use prospect_engine.Base.{
  ◌≡◌, Bool, true, false, not, ◌&&◌, Option, none, some, List, [], ◌∷◌, map, find, Result, ok, err,
  ◌>>=◌, ◌>>◌, map_err, transpose_map, if◌then◌else◌,
}
use prospect_engine.Base.Text.{Text, is_blank}
use prospect_engine.Base.Key.{text_key, same}
use prospect_engine.Base.Sort.{sort_by_key, adjacent_duplicate}
use prospect_engine.Adapter.{
  ContractVersion, NamespacedId, AdapterMetadata, AdapterUpstream, AdapterMetadataError,
  namespaced_id_key, new_namespaced_id, supports,
}
use prospect_engine.Bundle.{AdapterBinding, UpstreamBinding, RegistryRequirement, ScenarioBundle}
pub mod Laws
pub mod Resolve
pub mod Json
pub mod RoundTrip
mod Tests

pub record AvailableUpstream : Type 0 where
  pub component : NamespacedId
  pub revision : Text

pub record AvailableAdapter : Type 0 where
  pub adapter_id : NamespacedId
  pub contract_version : ContractVersion
  pub upstream : Option AvailableUpstream

pub record AvailableRegistryEntry : Type 0 where
  pub id : NamespacedId
  pub version : ContractVersion

pub record DispatchCatalog : Type 0 where
  pub adapters : List AvailableAdapter
  pub metrics : List AvailableRegistryEntry
  pub policies : List AvailableRegistryEntry

pub record ResolvedCatalogRequirements : Type 0 where
  pub adapter : AvailableAdapter
  pub metric : Option AvailableRegistryEntry
  pub policy : Option AvailableRegistryEntry

-- `E` is `serde_json::Error`
pub data DispatchCatalogError {ℓ} (E : Type ℓ) : Type ℓ where
  catalog_json : E → DispatchCatalogError E
  non_canonical_catalog : DispatchCatalogError E
  unsupported_catalog_schema : DispatchCatalogError E
  catalog_metadata_error : AdapterMetadataError → DispatchCatalogError E
  empty_available_revision : DispatchCatalogError E
  duplicate_available_adapter : Text → DispatchCatalogError E
  duplicate_metric : Text → DispatchCatalogError E
  duplicate_policy : Text → DispatchCatalogError E

pub data CatalogPreflightError : Type 0 where
  no_adapter : Text → CatalogPreflightError
  adapter_version_incompatible : Text → ContractVersion → ContractVersion → CatalogPreflightError
  upstream_mismatch : Text → Text → Text → CatalogPreflightError
  missing_metric : Text → CatalogPreflightError
  incompatible_metric_version : Text → ContractVersion → ContractVersion → CatalogPreflightError
  missing_policy : Text → CatalogPreflightError
  incompatible_policy_version : Text → ContractVersion → ContractVersion → CatalogPreflightError

-- `AvailableAdapter::from_metadata`, on the upstream
unfoldable pub available_upstream : Option AdapterUpstream → Option AvailableUpstream
available_upstream none = none
available_upstream (some upstream) =
    some (record { component = upstream.component; revision = upstream.revision })

-- `AvailableAdapter::from_metadata`
unfoldable pub available_adapter : AdapterMetadata → AvailableAdapter
available_adapter metadata = record {
  adapter_id = metadata.adapter_id;
  contract_version = metadata.contract_version;
  upstream = available_upstream metadata.upstream;
}

module _ {ℓ} {E : Type ℓ} where
  -- `AvailableUpstream::new`
  unfoldable pub new_available_upstream :
      Text → Text → Result AvailableUpstream (DispatchCatalogError E)
  new_available_upstream component revision =
      if is_blank revision
      then err empty_available_revision
      else (map_err catalog_metadata_error (new_namespaced_id component) >>= λ component.
          ok (record { component = component; revision = revision }))

  -- `AvailableAdapter::new`
  unfoldable pub new_available_adapter :
      Text
      → ContractVersion
      → Option AvailableUpstream
      → Result AvailableAdapter (DispatchCatalogError E)
  new_available_adapter adapter_id contract_version upstream =
      map_err catalog_metadata_error (new_namespaced_id adapter_id) >>= λ adapter_id.
      ok (record {
        adapter_id = adapter_id;
        contract_version = contract_version;
        upstream = upstream;
      })

  -- `AvailableRegistryEntry::new`
  unfoldable pub new_registry_entry :
      Text → ContractVersion → Result AvailableRegistryEntry (DispatchCatalogError E)
  new_registry_entry id version = map_err catalog_metadata_error (new_namespaced_id id) >>= λ id.
      ok (record { id = id; version = version })

  -- the pair that `windows(2).find` returns, if any
  unfoldable pub adapter_repeated :
      Option AvailableAdapter → Result (Unit {0}) (DispatchCatalogError E)
  adapter_repeated none = ok tt
  adapter_repeated (some first) = err (duplicate_available_adapter first.adapter_id.value)

  unfoldable pub reject_duplicate_adapters :
      List AvailableAdapter → Result (Unit {0}) (DispatchCatalogError E)
  reject_duplicate_adapters adapters =
      adapter_repeated (adjacent_duplicate (λ a. a.adapter_id) adapters)

  unfoldable pub entry_repeated :
      Option AvailableRegistryEntry → Bool → Result (Unit {0}) (DispatchCatalogError E)
  entry_repeated none metric = ok tt
  entry_repeated (some first) metric =
      if metric
      then err (duplicate_metric first.id.value)
      else err (duplicate_policy first.id.value)

  unfoldable pub reject_duplicate_registry :
      List AvailableRegistryEntry → Bool → Result (Unit {0}) (DispatchCatalogError E)
  reject_duplicate_registry entries metric =
      entry_repeated (adjacent_duplicate (λ e. e.id) entries) metric

  -- `DispatchCatalog::new`
  unfoldable pub new_catalog :
      List AvailableAdapter
      → List AvailableRegistryEntry
      → List AvailableRegistryEntry
      → Result DispatchCatalog (DispatchCatalogError E)
  new_catalog adapters metrics policies =
      let adapters = sort_by_key (λ a. a.adapter_id) adapters in
      let metrics = sort_by_key (λ e. e.id) metrics in
      let policies = sort_by_key (λ e. e.id) policies in
      reject_duplicate_adapters adapters
      >> (reject_duplicate_registry metrics true
          >> (reject_duplicate_registry policies false
              >> ok (record { adapters = adapters; metrics = metrics; policies = policies })))

  -- `DispatchCatalog::from_adapter_metadata`
  unfoldable pub from_adapter_metadata :
      List AdapterMetadata → Result DispatchCatalog (DispatchCatalogError E)
  from_adapter_metadata adapters = new_catalog (map available_adapter adapters) [] []

-- the closure `matches` of `resolve_bundle`
unfoldable pub available_matches : UpstreamBinding → Option AvailableUpstream → Bool
available_matches required none = false
available_matches required (some candidate) =
    same candidate.component required.component && same candidate.revision required.revision

unfoldable pub check_available_upstream :
    Text → Option UpstreamBinding → AvailableAdapter → Result (Unit {0}) CatalogPreflightError
check_available_upstream adapter_id none adapter = ok tt
check_available_upstream adapter_id (some required) adapter =
    if not (available_matches required adapter.upstream)
    then err (upstream_mismatch adapter_id required.component.value required.revision)
    else ok tt

-- the adapter of `resolve_bundle`, after the search
unfoldable pub check_available :
    AdapterBinding → Option AvailableAdapter → Result AvailableAdapter CatalogPreflightError
check_available required none = err (no_adapter required.adapter_id.value)
check_available required (some adapter) =
    if not (supports adapter.contract_version required.contract_version)
    then err (
        adapter_version_incompatible required.adapter_id.value adapter.contract_version
          required.contract_version)
    else (check_available_upstream required.adapter_id.value required.upstream adapter
        >> ok adapter)

unfoldable pub find_available : AdapterBinding → List AvailableAdapter → Option AvailableAdapter
find_available required adapters =
    find (λ candidate. same candidate.adapter_id.value required.adapter_id.value) adapters

-- `resolve_registry_requirement`, after the search
unfoldable pub check_entry :
    Option AvailableRegistryEntry
    → Text
    → ContractVersion
    → Bool
    → Result AvailableRegistryEntry CatalogPreflightError
check_entry none id required metric =
    if metric then err (missing_metric id) else err (missing_policy id)
check_entry (some entry) id required metric =
    if not (supports entry.version required)
    then (if metric
        then err (incompatible_metric_version id entry.version required)
        else err (incompatible_policy_version id entry.version required))
    else ok entry

unfoldable pub resolve_registry_requirement :
    List AvailableRegistryEntry
    → Text
    → ContractVersion
    → Bool
    → Result AvailableRegistryEntry CatalogPreflightError
resolve_registry_requirement entries id required metric =
    check_entry (find (λ candidate. same candidate.id.value id) entries) id required metric

-- `DispatchCatalog::resolve_bundle`
unfoldable pub resolve_bundle {ℓ} :
    {State I : Type ℓ}
    → DispatchCatalog
    → ScenarioBundle State I
    → Result ResolvedCatalogRequirements CatalogPreflightError
resolve_bundle self bundle =
    check_available bundle.adapter (find_available bundle.adapter self.adapters) >>= λ adapter.
    transpose_map (λ r. resolve_registry_requirement self.metrics r.id.value r.version true)
      bundle.metric
    >>= λ metric.
        transpose_map (λ r. resolve_registry_requirement self.policies r.id.value r.version false)
          bundle.policy
        >>= λ policy. ok (record { adapter = adapter; metric = metric; policy = policy })
