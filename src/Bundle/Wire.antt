-- ===== src/Bundle/Wire.antt =====
-- crates/prospect-bundle/src/lib.rs: the wire structs, `wire_ref`, and the conversion back that
-- `from_canonical_json` makes of a decoded wire struct.
use prospect_engine.Base.{
  ℕ, Option, none, some, List, map, Result, ok, ◌>>=◌, map_err, transpose_map, traverse,
}
use prospect_engine.Base.Text.{Text, text}
use prospect_engine.Core.{new_scenario_id}
use prospect_engine.Adapter.{ContractVersion, new_contract_version}
use prospect_engine.Bundle.{
  UpstreamBinding, AdapterBinding, RegistryRequirement, BundleScenario, ScenarioBundle,
  ScenarioBundleError, adapter_metadata_error, bundle_scenario_id_invalid, new_upstream_binding,
  new_adapter_binding, new_requirement, new_bundle,
}

abbrev pub scenario_bundle_schema_v1 : Text
scenario_bundle_schema_v1 = text "prospect.scenario-bundle/v1"

pub record VersionWire : Type 0 where
  pub major : ℕ
  pub minor : ℕ

pub record UpstreamWire : Type 0 where
  pub component : Text
  pub revision : Text

pub record AdapterBindingWire : Type 0 where
  pub adapter_id : Text
  pub contract_version : VersionWire
  pub upstream : Option UpstreamWire

pub record RequirementWire : Type 0 where
  pub id : Text
  pub version : VersionWire

pub record ScenarioWire {ℓ} (I : Type ℓ) : Type ℓ where
  pub id : Text
  pub intervention : I

pub record BundleWire {ℓ} (State I : Type ℓ) : Type ℓ where
  pub schema : Text
  pub bundle_id : Text
  pub adapter : AdapterBindingWire
  pub seed : Option ℕ
  pub state : State
  pub scenarios : List (ScenarioWire I)
  pub metric : Option RequirementWire
  pub policy : Option RequirementWire

-- `Option::map`
abbrev pub map_option {ℓ κ} : {A : Type ℓ} {B : Type κ} → (A → B) → Option A → Option B
map_option f none = none
map_option f (some a) = some (f a)

-- `From<ContractVersion> for VersionWire`
unfoldable pub version_to_wire : ContractVersion → VersionWire
version_to_wire value = record { major = value.major; minor = value.minor }

unfoldable pub upstream_to_wire : UpstreamBinding → UpstreamWire
upstream_to_wire upstream = record {
  component = upstream.component.value;
  revision = upstream.revision;
}

unfoldable pub requirement_to_wire : RegistryRequirement → RequirementWire
requirement_to_wire requirement = record {
  id = requirement.id.value;
  version = version_to_wire requirement.version;
}

unfoldable pub scenario_to_wire {ℓ} : {I : Type ℓ} → BundleScenario I → ScenarioWire I
scenario_to_wire scenario = record { id = scenario.id.value; intervention = scenario.intervention }

-- `ScenarioBundle::wire_ref`
unfoldable pub wire_ref {ℓ} : {State I : Type ℓ} → ScenarioBundle State I → BundleWire State I
wire_ref self = record {
  schema = scenario_bundle_schema_v1;
  bundle_id = self.bundle_id.value;
  adapter = record {
    adapter_id = self.adapter.adapter_id.value;
    contract_version = version_to_wire self.adapter.contract_version;
    upstream = map_option upstream_to_wire self.adapter.upstream;
  };
  seed = self.seed;
  state = self.state;
  scenarios = map scenario_to_wire self.scenarios;
  metric = map_option requirement_to_wire self.metric;
  policy = map_option requirement_to_wire self.policy;
}

module _ {ℓ} {E : Type ℓ} where
  -- `TryFrom<VersionWire> for ContractVersion`
  unfoldable pub version_from_wire : VersionWire → Result ContractVersion (ScenarioBundleError E)
  version_from_wire value =
      map_err adapter_metadata_error (new_contract_version value.major value.minor)

  unfoldable pub upstream_from_wire : UpstreamWire → Result UpstreamBinding (ScenarioBundleError E)
  upstream_from_wire upstream = new_upstream_binding upstream.component upstream.revision

  unfoldable pub requirement_from_wire :
      RequirementWire → Result RegistryRequirement (ScenarioBundleError E)
  requirement_from_wire wire =
      version_from_wire wire.version >>= λ version. new_requirement wire.id version

  unfoldable pub adapter_from_wire :
      AdapterBindingWire → Result AdapterBinding (ScenarioBundleError E)
  adapter_from_wire wire = version_from_wire wire.contract_version >>= λ version.
      transpose_map upstream_from_wire wire.upstream >>= λ upstream.
      new_adapter_binding wire.adapter_id version upstream

unfoldable pub scenario_from_wire {ℓ} :
    {I E : Type ℓ} → ScenarioWire I → Result (BundleScenario I) (ScenarioBundleError E)
scenario_from_wire scenario =
    map_err (λ _. bundle_scenario_id_invalid) (new_scenario_id scenario.id) >>= λ id.
    ok (record { id = id; intervention = scenario.intervention })

module _ {ℓ} {State I E : Type ℓ} where
  -- `from_canonical_json` from the adapter binding to `Self::new`
  unfoldable pub from_wire :
      BundleWire State I → Result (ScenarioBundle State I) (ScenarioBundleError E)
  from_wire wire = adapter_from_wire wire.adapter >>= λ adapter.
      transpose_map requirement_from_wire wire.metric >>= λ metric.
      transpose_map requirement_from_wire wire.policy >>= λ policy.
      traverse scenario_from_wire wire.scenarios >>= λ scenarios.
      new_bundle wire.bundle_id adapter wire.seed wire.state scenarios metric policy
