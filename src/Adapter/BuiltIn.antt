-- ===== src/Adapter/BuiltIn.antt =====
-- crates/prospect-adapter/src/lib.rs: the metadata of the adapters of this repository, with the
-- revisions that crates/prospect-tdi, -elastic, -flat and -kv pin.
use prospect_engine.Base.{List, [], ◌∷◌, some, Result, ok, ◌>>=◌}
use prospect_engine.Base.Text.{Text, text}
use prospect_engine.Base.Sort.{sort_by_key}
use prospect_engine.Adapter.{
  adapter_contract_version, AdapterMetadata, AdapterMetadataError, new_contract_version,
  new_upstream, new_capability, new_metadata, namespaced_id_key,
}

abbrev pub tdi_revision : Text
tdi_revision = text "58df6877b87a062726adfc3ca2a7ffe937083506"

abbrev pub elasticxxx_revision : Text
elasticxxx_revision = text "50bb85ea84191c01d95e5b4e5e3c81af10e95ebd"

abbrev pub flat_attention_revision : Text
flat_attention_revision = text "a5b6598ffe475c74c938f45feb86b009d0e4ad0a"

abbrev pub kvlab_kv_eviction_handoff_revision : Text
kvlab_kv_eviction_handoff_revision = text "e53a09e9b5923bb95527036d5148735f973eefc9"

unfoldable pub built_in_metadata :
    Text → Text → Text → Text → Result AdapterMetadata AdapterMetadataError
built_in_metadata adapter_id upstream_component upstream_revision domain_capability =
    new_contract_version 1 0 >>= λ capability_version.
    new_upstream upstream_component upstream_revision >>= λ upstream.
    new_capability (text "prospect.baseline_evaluation") capability_version >>= λ baseline.
    new_capability (text "prospect.intervention_evaluation") capability_version >>= λ intervention.
    new_capability domain_capability capability_version >>= λ domain.
    new_metadata adapter_id adapter_contract_version (some upstream)
      (baseline ∷ intervention ∷ domain ∷ [])

unfoldable pub tdi_metadata : Result AdapterMetadata AdapterMetadataError
tdi_metadata =
    built_in_metadata (text "prospect.tdi") (text "memorithm.tdi") tdi_revision
      (text "tdi.exact_finite_state_signature")

unfoldable pub elastic_metadata : Result AdapterMetadata AdapterMetadataError
elastic_metadata =
    built_in_metadata (text "prospect.elastic") (text "memorithm.elasticxxx") elasticxxx_revision
      (text "elastic.prospective_resource_evaluation")

unfoldable pub flat_boolean_attention_metadata : Result AdapterMetadata AdapterMetadataError
flat_boolean_attention_metadata =
    built_in_metadata (text "prospect.flat_boolean_attention") (text "memorithm.flat_attention")
      flat_attention_revision (text "flat.boolean_hamming_routing")

unfoldable pub kv_eviction_metadata : Result AdapterMetadata AdapterMetadataError
kv_eviction_metadata =
    built_in_metadata (text "prospect.kv_eviction") (text "memorithm.kvlab")
      kvlab_kv_eviction_handoff_revision (text "kvlab.logical_oldest_first_eviction")

unfoldable pub built_in_adapter_catalog : Result (List AdapterMetadata) AdapterMetadataError
built_in_adapter_catalog = tdi_metadata >>= λ tdi. elastic_metadata >>= λ elastic.
    flat_boolean_attention_metadata >>= λ flat. kv_eviction_metadata >>= λ kv.
    ok (sort_by_key (λ metadata. metadata.adapter_id) (tdi ∷ elastic ∷ flat ∷ kv ∷ []))
