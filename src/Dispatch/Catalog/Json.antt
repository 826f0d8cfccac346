-- ===== src/Dispatch/Catalog/Json.antt =====
-- crates/prospect-dispatch/src/catalog.rs: the wire form of a catalog, its canonical JSON and its
-- reading. serde_json is a parameter: how it writes and reads the wire struct.
use prospect_engine.Base.{
  ℕ, Option, List, map, Result, ok, err, ◌>>=◌, map_err, transpose_map, traverse, not,
  if◌then◌else◌,
}
use prospect_engine.Base.Text.{Text, text}
use prospect_engine.Base.Key.{text_key, same}
use prospect_engine.Adapter.{ContractVersion, new_contract_version}
use prospect_engine.Bundle.Wire.{map_option}
use prospect_engine.Dispatch.Catalog.{
  AvailableUpstream, AvailableAdapter, AvailableRegistryEntry, DispatchCatalog,
  DispatchCatalogError, catalog_json, non_canonical_catalog, unsupported_catalog_schema,
  catalog_metadata_error, new_available_upstream, new_available_adapter, new_registry_entry,
  new_catalog,
}

abbrev pub dispatch_catalog_schema_v1 : Text
dispatch_catalog_schema_v1 = text "prospect.dispatch-catalog/v1"

pub record CatalogVersionWire : Type 0 where
  pub major : ℕ
  pub minor : ℕ

pub record CatalogUpstreamWire : Type 0 where
  pub component : Text
  pub revision : Text

pub record AdapterWire : Type 0 where
  pub adapter_id : Text
  pub contract_version : CatalogVersionWire
  pub upstream : Option CatalogUpstreamWire

pub record RegistryWire : Type 0 where
  pub id : Text
  pub version : CatalogVersionWire

pub record CatalogWire : Type 0 where
  pub schema : Text
  pub adapters : List AdapterWire
  pub metrics : List RegistryWire
  pub policies : List RegistryWire

-- `From<ContractVersion> for VersionWire`
unfoldable pub catalog_version_to_wire : ContractVersion → CatalogVersionWire
catalog_version_to_wire value = record { major = value.major; minor = value.minor }

-- the closures of `to_wire`
unfoldable pub available_upstream_to_wire : AvailableUpstream → CatalogUpstreamWire
available_upstream_to_wire upstream = record {
  component = upstream.component.value;
  revision = upstream.revision;
}

unfoldable pub available_adapter_to_wire : AvailableAdapter → AdapterWire
available_adapter_to_wire adapter = record {
  adapter_id = adapter.adapter_id.value;
  contract_version = catalog_version_to_wire adapter.contract_version;
  upstream = map_option available_upstream_to_wire adapter.upstream;
}

unfoldable pub registry_to_wire : AvailableRegistryEntry → RegistryWire
registry_to_wire entry = record {
  id = entry.id.value;
  version = catalog_version_to_wire entry.version;
}

unfoldable pub to_wire : DispatchCatalog → CatalogWire
to_wire self = record {
  schema = dispatch_catalog_schema_v1;
  adapters = map available_adapter_to_wire self.adapters;
  metrics = map registry_to_wire self.metrics;
  policies = map registry_to_wire self.policies;
}

-- `serde_json` on the wire struct
pub record CatalogSerde {ℓ} (E : Type ℓ) : Type ℓ where
  pub to_string : CatalogWire → Result Text E
  pub from_str : Text → Result CatalogWire E

module _ {ℓ} {E : Type ℓ} where
  -- `TryFrom<VersionWire> for ContractVersion`
  unfoldable pub catalog_version_from_wire :
      CatalogVersionWire → Result ContractVersion (DispatchCatalogError E)
  catalog_version_from_wire value =
      map_err catalog_metadata_error (new_contract_version value.major value.minor)

  -- the closure of `adapter_from_wire`
  unfoldable pub available_upstream_from_wire :
      CatalogUpstreamWire → Result AvailableUpstream (DispatchCatalogError E)
  available_upstream_from_wire upstream =
      new_available_upstream upstream.component upstream.revision

  unfoldable pub available_adapter_from_wire :
      AdapterWire → Result AvailableAdapter (DispatchCatalogError E)
  available_adapter_from_wire wire = catalog_version_from_wire wire.contract_version >>= λ version.
      transpose_map available_upstream_from_wire wire.upstream >>= λ upstream.
      new_available_adapter wire.adapter_id version upstream

  unfoldable pub registry_from_wire :
      RegistryWire → Result AvailableRegistryEntry (DispatchCatalogError E)
  registry_from_wire wire =
      catalog_version_from_wire wire.version >>= λ version. new_registry_entry wire.id version

  -- `from_canonical_json` from the conversion of the adapters to `Self::new`
  unfoldable pub catalog_from_wire : CatalogWire → Result DispatchCatalog (DispatchCatalogError E)
  catalog_from_wire wire = traverse available_adapter_from_wire wire.adapters >>= λ adapters.
      traverse registry_from_wire wire.metrics >>= λ metrics.
      traverse registry_from_wire wire.policies >>= λ policies.
      new_catalog adapters metrics policies

module _ {ℓ} {E : Type ℓ} (serde : CatalogSerde E) where
  -- `DispatchCatalog::canonical_json`
  unfoldable pub catalog_canonical_json : DispatchCatalog → Result Text (DispatchCatalogError E)
  catalog_canonical_json self = map_err catalog_json (serde.to_string (to_wire self))

  -- the end of `from_canonical_json`
  unfoldable pub catalog_rechecked :
      Text → DispatchCatalog → Result DispatchCatalog (DispatchCatalogError E)
  catalog_rechecked payload catalog = catalog_canonical_json catalog >>= λ canonical.
      if not (same canonical payload) then err non_canonical_catalog else ok catalog

  -- `from_canonical_json` after the reading
  unfoldable pub catalog_decoded :
      Text → CatalogWire → Result DispatchCatalog (DispatchCatalogError E)
  catalog_decoded payload wire =
      if not (same wire.schema dispatch_catalog_schema_v1)
      then err unsupported_catalog_schema
      else (catalog_from_wire wire >>= catalog_rechecked payload)

  -- `DispatchCatalog::from_canonical_json`
  unfoldable pub catalog_from_canonical_json :
      Text → Result DispatchCatalog (DispatchCatalogError E)
  catalog_from_canonical_json payload =
      map_err catalog_json (serde.from_str payload) >>= catalog_decoded payload
