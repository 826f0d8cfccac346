-- ===== src/Bundle.antt =====
-- crates/prospect-bundle/src/lib.rs: the scenario bundle, its bindings and its wire form. The
-- source has a borrowing and an owning copy of each wire struct, with the same fields; they are one
-- record here. `seed` and version numbers are `u64` and `u16`, and only copied or compared.
use prospect_engine.Base.{
  ℕ, ◌≡◌, Bool, Option, none, some, List, [], ◌∷◌, map, is_empty, Result, ok, err, ◌>>=◌, map_err,
  transpose_map, traverse, if◌then◌else◌,
}
use prospect_engine.Base.Text.{Text, is_blank}
use prospect_engine.Base.Sets.{first_duplicate}
use prospect_engine.Base.Sort.{sort_by_key}
use prospect_engine.Core.{ScenarioId, Scenario, new_scenario_id, scenario_id_key}
use prospect_engine.Adapter.{
  ContractVersion, NamespacedId, AdapterMetadata, AdapterUpstream, AdapterMetadataError,
  new_namespaced_id, new_contract_version,
}
pub mod Wire
pub mod Json
pub mod RoundTrip
pub mod Laws
mod Tests

pub record UpstreamBinding : Type 0 where
  pub component : NamespacedId
  pub revision : Text

pub record AdapterBinding : Type 0 where
  pub adapter_id : NamespacedId
  pub contract_version : ContractVersion
  pub upstream : Option UpstreamBinding

pub record RegistryRequirement : Type 0 where
  pub id : NamespacedId
  pub version : ContractVersion

pub record BundleScenario {ℓ} (I : Type ℓ) : Type ℓ where
  pub id : ScenarioId
  pub intervention : I

pub record ScenarioBundle {ℓ} (State I : Type ℓ) : Type ℓ where
  pub bundle_id : NamespacedId
  pub adapter : AdapterBinding
  pub seed : Option ℕ
  pub state : State
  pub scenarios : List (BundleScenario I)
  pub metric : Option RegistryRequirement
  pub policy : Option RegistryRequirement

-- `E` is `serde_json::Error`
pub data ScenarioBundleError {ℓ} (E : Type ℓ) : Type ℓ where
  json : E → ScenarioBundleError E
  non_canonical_json : ScenarioBundleError E
  unsupported_schema : ScenarioBundleError E
  adapter_metadata_error : AdapterMetadataError → ScenarioBundleError E
  empty_upstream_revision : ScenarioBundleError E
  bundle_scenario_id_invalid : ScenarioBundleError E
  empty_scenarios : ScenarioBundleError E
  duplicate_scenario : Text → ScenarioBundleError E

-- `AdapterBinding::from_metadata`
abbrev pub bind_upstream : Option AdapterUpstream → Option UpstreamBinding
bind_upstream none = none
bind_upstream (some upstream) =
    some (record { component = upstream.component; revision = upstream.revision })

unfoldable pub from_metadata : AdapterMetadata → AdapterBinding
from_metadata metadata = record {
  adapter_id = metadata.adapter_id;
  contract_version = metadata.contract_version;
  upstream = bind_upstream metadata.upstream;
}

module _ {ℓ} {E : Type ℓ} where
  -- `UpstreamBinding::new`
  unfoldable pub new_upstream_binding : Text → Text → Result UpstreamBinding (ScenarioBundleError E)
  new_upstream_binding component revision =
      if is_blank revision
      then err empty_upstream_revision
      else (map_err adapter_metadata_error (new_namespaced_id component) >>= λ component.
          ok (record { component = component; revision = revision }))

  -- `AdapterBinding::new`
  unfoldable pub new_adapter_binding :
      Text
      → ContractVersion
      → Option UpstreamBinding
      → Result AdapterBinding (ScenarioBundleError E)
  new_adapter_binding adapter_id contract_version upstream =
      map_err adapter_metadata_error (new_namespaced_id adapter_id) >>= λ adapter_id.
      ok (record {
        adapter_id = adapter_id;
        contract_version = contract_version;
        upstream = upstream;
      })

  -- `RegistryRequirement::new`
  unfoldable pub new_requirement :
      Text → ContractVersion → Result RegistryRequirement (ScenarioBundleError E)
  new_requirement id version = map_err adapter_metadata_error (new_namespaced_id id) >>= λ id.
      ok (record { id = id; version = version })

module _ {ℓ} {State I E : Type ℓ} where
  -- `ScenarioBundle::new` after the loop over `seen`
  unfoldable pub unrepeated_bundle :
      Option ScenarioId
      → Text
      → AdapterBinding
      → Option ℕ
      → State
      → List (BundleScenario I)
      → Option RegistryRequirement
      → Option RegistryRequirement
      → Result (ScenarioBundle State I) (ScenarioBundleError E)
  unrepeated_bundle (some id) bundle_id adapter seed state scenarios metric policy =
      err (duplicate_scenario id.value)
  unrepeated_bundle none bundle_id adapter seed state scenarios metric policy =
      map_err adapter_metadata_error (new_namespaced_id bundle_id) >>= λ bundle_id. ok (record {
        bundle_id = bundle_id;
        adapter = adapter;
        seed = seed;
        state = state;
        scenarios = scenarios;
        metric = metric;
        policy = policy;
      })

  -- `ScenarioBundle::new`
  unfoldable pub new_bundle :
      Text
      → AdapterBinding
      → Option ℕ
      → State
      → List (BundleScenario I)
      → Option RegistryRequirement
      → Option RegistryRequirement
      → Result (ScenarioBundle State I) (ScenarioBundleError E)
  new_bundle bundle_id adapter seed state scenarios metric policy =
      if is_empty scenarios
      then err empty_scenarios
      else (let sorted = sort_by_key (λ s. s.id) scenarios in
          unrepeated_bundle (first_duplicate [] (map (λ s. s.id) sorted)) bundle_id adapter seed
            state sorted metric policy)

-- `BundleScenario::into_core` and `ScenarioBundle::into_core_scenarios`
unfoldable pub into_core {ℓ} : {I : Type ℓ} → BundleScenario I → Scenario I
into_core self = record { id = self.id; intervention = self.intervention }

unfoldable pub into_core_scenarios {ℓ} :
    {State I : Type ℓ} → ScenarioBundle State I → List (Scenario I)
into_core_scenarios self = map into_core self.scenarios
