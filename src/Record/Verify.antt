-- ===== src/Record/Verify.antt =====
-- crates/prospect-dispatch/src/execution/record.rs: the verification of a record's text against the
-- text of its bundle. `C`, `J` and the record `RecordSerde` stand for serde_json and the digest.
use prospect_engine.Base.{
  ℕ, Bool, true, false, not, ◌&&◌, ◌||◌, Option, none, some, List, map, length, ◌==◌, ltb,
  if◌then◌else◌, Result, ok, err, ◌>>=◌, ◌>>◌, map_err, traverse, transpose_map,
}
use prospect_engine.Base.Text.{Text, text, bytes, is_blank}
use prospect_engine.Base.Key.{text_key, same}
use prospect_engine.Core.{ScenarioId}
use prospect_engine.Adapter.{
  ContractVersion, AdapterCapability, AdapterUpstream, AdapterMetadata, new_namespaced_id,
  new_contract_version, new_capability, new_upstream, new_metadata, supports,
}
use prospect_engine.Bundle.{AdapterBinding, BundleScenario, ScenarioBundle, UpstreamBinding}
use prospect_engine.Bundle.Json.{Value, Serde, write_value, from_canonical_json}
use prospect_engine.Record.{
  Violation, ExecutionRecordError, json, violation, PayloadCodecs, RecordWire, max_record_bytes,
  max_record_scenarios, refuse, refuse_if, check_record,
}
use prospect_engine.Record.Capture.{execution_record_schema_v1, evidence_kind}
pub mod Checks
pub mod Laws

pub record VersionWire : Type 0 where
  pub major : ℕ
  pub minor : ℕ

pub record UpstreamWire : Type 0 where
  pub component : Text
  pub revision : Text

pub record CapabilityWire : Type 0 where
  pub id : Text
  pub version : VersionWire

pub record MetadataWire : Type 0 where
  pub adapter_id : Text
  pub contract_version : VersionWire
  pub upstream : Option UpstreamWire
  pub capabilities : List CapabilityWire

pub record ExecutionRecord {ℓ} (V : Type ℓ) : Type ℓ where
  pub wire : RecordWire V
  pub canonical : Text

-- `serde_json` and `Sha256::digest` in hexadecimal, as this file calls them
pub record RecordSerde {ℓ} (C J : Type ℓ) : Type ℓ where
  pub bundle : Serde C (Value C) (Value C) J
  pub record_to_value : RecordWire (Value C) → Result (Value C) J
  pub record_from_str : Text → Result (RecordWire (Value C)) J
  pub metadata_to_value : AdapterMetadata → Result (Value C) J
  pub metadata_from_value : Value C → Result MetadataWire J
  pub digest : Text → Text

-- `.map_err(|_| ExecutionRecordError::Invalid(reason))`
abbrev pub or_invalid {ℓ κ} : {A : Type ℓ} {E : Type κ} → Text → Result A E → Result A Violation
or_invalid reason (ok a) = ok a
or_invalid reason (err e) = refuse reason

-- `VersionWire::version`
unfoldable pub version_of : VersionWire → Result ContractVersion Violation
version_of wire =
    or_invalid (text "invalid adapter version") (new_contract_version wire.major wire.minor)

abbrev pub upstream_of : UpstreamWire → Result AdapterUpstream Violation
upstream_of wire =
    or_invalid (text "invalid adapter metadata") (new_upstream wire.component wire.revision)

abbrev pub capability_of : CapabilityWire → Result AdapterCapability Violation
capability_of wire = version_of wire.version >>= λ version.
    or_invalid (text "invalid adapter metadata") (new_capability wire.id version)

-- `validate_metadata` between the decoding and the comparison of the canonical texts
unfoldable pub metadata_of : MetadataWire → Result AdapterMetadata Violation
unfolding version_of
metadata_of wire = transpose_map upstream_of wire.upstream >>= λ upstream.
    traverse capability_of wire.capabilities >>= λ capabilities.
    version_of wire.contract_version >>= λ version.
    or_invalid (text "invalid adapter metadata")
      (new_metadata wire.adapter_id version upstream capabilities)

-- `PayloadCodecs::validate`
unfoldable pub check_codecs : PayloadCodecs → Result (Unit {0}) Violation
check_codecs self = or_invalid (text "invalid codec ID") (new_namespaced_id self.signature) >>= λ _.
    or_invalid (text "invalid codec ID") (new_namespaced_id self.error) >>= λ _. ok tt

-- `PayloadCodecs::new`
unfoldable pub new_codecs : Text → Text → Result PayloadCodecs Violation
unfolding check_codecs
new_codecs signature error =
    let value : PayloadCodecs = record { signature = signature; error = error } in
    check_codecs value >> ok value

-- `RunId::new` of crates/prospect-evidence/src/lib.rs
unfoldable pub check_run_id : Text → Result (Unit {0}) Violation
check_run_id value = refuse_if (is_blank value) (text "invalid run ID")

-- the comparison of two optional seeds
abbrev pub same_seed : Option ℕ → Option ℕ → Bool
same_seed none none = true
same_seed (some a) (some b) = a == b
same_seed _ _ = false

-- `if let Some(required) = required.upstream() { … }`
abbrev pub check_upstream :
    Option UpstreamBinding → Option AdapterUpstream → Result (Unit {0}) Violation
check_upstream none actual = ok tt
check_upstream (some required) none = refuse (text "missing upstream")
check_upstream (some required) (some actual) =
    refuse_if
      (not (same actual.component.value required.component.value)
        || not (same actual.revision required.revision))
      (text "adapter upstream mismatch")

-- the adapter of a record against the binding of the bundle
unfoldable pub check_adapter : AdapterMetadata → AdapterBinding → Result (Unit {0}) Violation
check_adapter metadata required =
    refuse_if
      (not (same metadata.adapter_id.value required.adapter_id.value)
        || not (supports metadata.contract_version required.contract_version))
      (text "adapter contract mismatch")
    >> check_upstream required.upstream metadata.upstream

unfoldable pub check_schema {ℓ} : {V : Type ℓ} → RecordWire V → Result (Unit {0}) Violation
check_schema wire =
    refuse_if
      (not (same wire.schema execution_record_schema_v1)
        || not (same wire.evidence_kind evidence_kind))
      (text "unsupported schema or evidence kind")

-- the digest, the id and the seed of the bundle
unfoldable pub check_binding {ℓ κ} :
    {V : Type ℓ} {State I : Type κ}
    → RecordWire V
    → Text
    → ScenarioBundle State I
    → Result (Unit {0}) Violation
check_binding wire sha256 bundle =
    refuse_if
      (not (same wire.bundle_sha256 sha256)
        || not (same wire.bundle_id bundle.bundle_id.value)
        || not (same_seed wire.seed bundle.seed))
      (text "input bundle binding mismatch")

abbrev pub scenario_ids {ℓ} : {State I : Type ℓ} → ScenarioBundle State I → List Text
scenario_ids bundle = map (λ s. s.id.value) bundle.scenarios

module _ {ℓ} {C J : Type ℓ} (serde : RecordSerde C J) where
  -- `parse_bundle`
  unfoldable pub parse_bundle : Text → Result (ScenarioBundle (Value C) (Value C)) Violation
  parse_bundle payload =
      refuse_if (ltb max_record_bytes (length (bytes payload))) (text "bundle exceeds byte limit")
      >> (or_invalid (text "invalid canonical input bundle")
            (from_canonical_json serde.bundle payload)
          >>= λ bundle.
              refuse_if (ltb max_record_scenarios (length bundle.scenarios))
                (text "too many scenarios")
              >> ok bundle)

  -- `canonical` of a value that is converted
  unfoldable pub canonical : Result (Value C) J → Result Text (ExecutionRecordError J)
  canonical value = map_err json (value >>= write_value serde.bundle)

  -- `validate_metadata` from the comparison of the canonical texts on
  unfoldable pub recheck_metadata :
      Value C → AdapterMetadata → Result AdapterMetadata (ExecutionRecordError J)
  unfolding canonical
  recheck_metadata value metadata = canonical (serde.metadata_to_value metadata) >>= λ a.
      canonical (ok value) >>= λ b.
      map_err violation
        (refuse_if (not (same a b)) (text "noncanonical adapter metadata") >> ok metadata)

  unfoldable pub validate_metadata : Value C → Result AdapterMetadata (ExecutionRecordError J)
  validate_metadata value = map_err json (serde.metadata_from_value value) >>= λ wire.
      map_err violation (metadata_of wire) >>= recheck_metadata value

  -- the comparison of a record's text with its canonical text
  unfoldable pub check_canonical :
      Text → RecordWire (Value C) → Result (Unit {0}) (ExecutionRecordError J)
  check_canonical payload wire = canonical (serde.record_to_value wire) >>= λ c.
      map_err violation
        (refuse_if (not (same c payload)) (text "noncanonical record or duplicate/missing fields"))

  -- the checks of a decoded record before its adapter is looked at
  unfoldable pub check_identity :
      RecordWire (Value C) → Text → ScenarioBundle (Value C) (Value C) → Result (Unit {0}) Violation
  check_identity wire expected_bundle bundle =
      check_schema wire
      >> (check_run_id wire.run_id >> check_binding wire (serde.digest expected_bundle) bundle)

  -- the checks of a decoded record once its adapter metadata is read
  unfoldable pub check_contract :
      RecordWire (Value C)
      → ScenarioBundle (Value C) (Value C)
      → AdapterMetadata
      → Result (Unit {0}) Violation
  check_contract wire bundle metadata =
      check_adapter metadata bundle.adapter
      >> (check_codecs wire.codecs >> check_record wire (scenario_ids bundle))

  -- `verify_against_bundle` after the record is decoded
  unfoldable pub verify_wire :
      Text
      → Text
      → ScenarioBundle (Value C) (Value C)
      → RecordWire (Value C)
      → Result (ExecutionRecord (Value C)) (ExecutionRecordError J)
  verify_wire payload expected_bundle bundle wire =
      check_canonical payload wire
      >> (map_err violation (check_identity wire expected_bundle bundle)
          >> (validate_metadata wire.adapter >>= λ metadata.
              map_err violation (check_contract wire bundle metadata)
              >> ok (record { wire = wire; canonical = payload })))

  -- `ExecutionRecord::verify_against_bundle`
  unfoldable pub verify_against_bundle :
      Text → Text → Result (ExecutionRecord (Value C)) (ExecutionRecordError J)
  verify_against_bundle payload expected_bundle =
      map_err violation (
        refuse_if (ltb max_record_bytes (length (bytes payload)))
          (text "record exceeds byte limit"))
      >> (map_err violation (parse_bundle expected_bundle) >>= λ bundle.
          map_err json (serde.record_from_str payload) >>= λ wire.
          verify_wire payload expected_bundle bundle wire)
