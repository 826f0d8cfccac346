-- ===== src/Record/Fixture.antt =====
-- A bundle of one scenario, the adapter that it names, and a library that names each text.
use prospect_engine.Base.{ℕ, ◌≡◌, refl, false, none, some, [], ◌∷◌, ok}
use prospect_engine.Base.Ord.{nat_ord}
use prospect_engine.Base.Text.{Text, text, text_cmp}
use prospect_engine.Base.Key.{text_key, same}
use prospect_engine.Base.Sets.{contains, first_duplicate}
use prospect_engine.Base.Sort.{sort_by_key, insert_sorted, adjacent_duplicate}
use prospect_engine.Core.{scenario_id_key, new_scenario_id}
use prospect_engine.Adapter.{
  AdapterMetadata, is_id_byte, valid_segment, valid_namespaced_id, new_namespaced_id, new_metadata,
  checked_metadata, new_contract_version, new_capability, namespaced_id_key,
}
use prospect_engine.Bundle.{
  AdapterBinding, ScenarioBundle, new_bundle, unrepeated_bundle, new_adapter_binding,
}
use prospect_engine.Bundle.Wire.{
  wire_ref, from_wire, adapter_from_wire, version_from_wire, version_to_wire, scenario_from_wire,
  scenario_to_wire,
}
use prospect_engine.Bundle.Json.{
  Value, scalar, Serde, write_value, canonical_json, from_canonical_json, decode_canonical, decode,
  recheck,
}
use prospect_engine.Record.{RecordWire, completed}
use prospect_engine.Record.Capture.{execution_record_schema_v1, evidence_kind}
use prospect_engine.Record.Verify.{
  MetadataWire, RecordSerde, parse_bundle, validate_metadata, recheck_metadata, canonical,
  metadata_of, version_of,
}

abbrev pub binding : AdapterBinding
binding = record {
  adapter_id = record { value = text "p.f" };
  contract_version = record { major = 1; minor = 0 };
  upstream = none;
}

abbrev pub bundle : ScenarioBundle (Value Text) (Value Text)
bundle = record {
  bundle_id = record { value = text "e.f" };
  adapter = binding;
  seed = some 7;
  state = scalar (text "10");
  scenarios = record { id = record { value = text "a" }; intervention = scalar (text "5") } ∷ [];
  metric = none;
  policy = none;
}

abbrev pub fixture : AdapterMetadata
fixture = record {
  adapter_id = record { value = text "p.f" };
  contract_version = record { major = 1; minor = 2 };
  upstream = none;
  capabilities =
      record { id = record { value = text "f.e" }; version = record { major = 1; minor = 0 } } ∷ [];
}

abbrev pub fixture_wire : MetadataWire
fixture_wire = record {
  adapter_id = text "p.f";
  contract_version = record { major = 1; minor = 2 };
  upstream = none;
  capabilities = record { id = text "f.e"; version = record { major = 1; minor = 0 } } ∷ [];
}

abbrev pub wire : RecordWire (Value Text)
wire = record {
  schema = execution_record_schema_v1;
  evidence_kind = evidence_kind;
  run_id = text "run";
  bundle_sha256 = text "B";
  bundle_id = text "e.f";
  seed = some 7;
  adapter = scalar (text "M");
  max_evaluations = 1;
  deadline_configured = false;
  codecs = record { signature = text "c.s"; error = text "c.e" };
  baseline = some (text "10");
  outcomes = record { scenario_id = text "a"; payload = text "15" } ∷ [];
  pending = [];
  terminal = completed;
}

-- The bundle is written as B, the adapter as M and the record as R.
abbrev pub bundle_serde : Serde Text (Value Text) (Value Text) ℕ
bundle_serde = record {
  to_string = λ c. ok c;
  key_to_string = λ key. ok key;
  to_value = λ w. ok (scalar (text "B"));
  from_value = λ v. ok (wire_ref bundle);
  from_str = λ p. ok (scalar p);
}

abbrev pub serde : RecordSerde Text ℕ
serde = record {
  bundle = bundle_serde;
  record_to_value = λ w. ok (scalar (text "R"));
  record_from_str = λ p. ok wire;
  metadata_to_value = λ m. ok (scalar (text "M"));
  metadata_from_value = λ v. ok fixture_wire;
  digest = λ t. t;
}

pub bundle_read : parse_bundle serde (text "B") ≡ ok bundle
unfolding parse_bundle from_canonical_json decode_canonical decode recheck canonical_json
    write_value wire_ref from_wire adapter_from_wire version_from_wire version_to_wire
    scenario_from_wire scenario_to_wire new_scenario_id new_contract_version new_adapter_binding
    new_namespaced_id valid_namespaced_id valid_segment is_id_byte new_bundle unrepeated_bundle
    sort_by_key insert_sorted first_duplicate contains same text_cmp text_key
bundle_read = refl

pub adapter_read : validate_metadata serde (scalar (text "M")) ≡ ok fixture
unfolding validate_metadata recheck_metadata canonical metadata_of version_of write_value
    new_metadata checked_metadata new_capability new_contract_version new_namespaced_id
    valid_namespaced_id valid_segment is_id_byte sort_by_key insert_sorted adjacent_duplicate same
    text_cmp text_key
adapter_read = refl
