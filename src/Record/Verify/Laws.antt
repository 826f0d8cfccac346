-- ===== src/Record/Verify/Laws.antt =====
-- What a record that is verified against a bundle's text is bound to.
use prospect_engine.Base.{
  ◌≤◌, ◌≡◌, refl, sym, ap, subst, ◌∙◌, ◌↔◌, false, not, length, ltb, ok, map_err, bind-ok, then-ok,
  arith,
}
use prospect_engine.Base.Text.{Text, bytes}
use prospect_engine.Base.Key.{text_key, same, same→eq, same_refl}
use prospect_engine.Adapter.{AdapterMetadata}
use prospect_engine.Bundle.{ScenarioBundle}
use prospect_engine.Bundle.Json.{Value}
use prospect_engine.Record.{json, violation, RecordWire, max_record_bytes, refuse_if}
use prospect_engine.Record.Laws.{check_record-ok_iff, refuse_if-ok}
use prospect_engine.Record.Verify.Checks.{
  IsBound, ok_injective, violation-ok, json-ok, not-false, check_codecs-ok_iff, check_identity-ok,
  check_schema-of_bound, check_binding-of_bound, check_adapter-of_bound, check_run_id-of_bound,
}
use prospect_engine.Record.Verify.{
  ExecutionRecord, RecordSerde, check_codecs, check_run_id, check_adapter, check_schema,
  scenario_ids, parse_bundle, canonical, validate_metadata, check_canonical, check_identity,
  check_contract, verify_wire, verify_against_bundle,
}

-- A record that stands verified: its text and that of the bundle are read, the text is the canonical
-- one, and the record is bound to the bundle and to the adapter that it names.
pub record IsVerified {ℓ} {C J : Type ℓ} (serde : RecordSerde C J) (payload expected : Text)
    (r : ExecutionRecord (Value C)) : Type ℓ where
  pub bundle : ScenarioBundle (Value C) (Value C)
  pub metadata : AdapterMetadata
  pub short : length (bytes payload) ≤ max_record_bytes
  pub bundle_read : parse_bundle serde expected ≡ ok bundle
  pub record_read : serde.record_from_str payload ≡ ok r.wire
  pub rewritten : canonical serde (serde.record_to_value r.wire) ≡ ok payload
  pub kept : r.canonical ≡ payload
  pub metadata_read : validate_metadata serde r.wire.adapter ≡ ok metadata
  pub bound : IsBound r.wire (serde.digest expected) bundle metadata

module _ {ℓ} {C J : Type ℓ} (serde : RecordSerde C J) (payload expected : Text) where
  check_contract-ok :
      (wire : RecordWire (Value C)) (bundle : ScenarioBundle (Value C) (Value C))
      (metadata : AdapterMetadata)
      → check_identity serde wire expected bundle ≡ ok tt
      → check_contract serde wire bundle metadata ≡ ok tt
      → IsBound wire (serde.digest expected) bundle metadata
  unfolding check_identity check_contract
  check_contract-ok wire bundle metadata h k =
      let (schema, h₁) = then-ok (check_schema wire) _ h in
      let (run, binding) = then-ok (check_run_id wire.run_id) _ h₁ in
      let (adapter, k₁) = then-ok (check_adapter metadata bundle.adapter) _ k in
      let (codecs, consistent) = then-ok (check_codecs wire.codecs) _ k₁ in
      check_identity-ok wire (serde.digest expected) bundle metadata schema run binding adapter
        codecs consistent

  verify_wire-ok :
      (bundle : ScenarioBundle (Value C) (Value C)) (wire : RecordWire (Value C))
      (r : ExecutionRecord (Value C))
      → verify_wire serde payload expected bundle wire ≡ ok r
      → (metadata : AdapterMetadata) × (canonical serde (serde.record_to_value wire) ≡ ok payload)
        × (validate_metadata serde wire.adapter ≡ ok metadata)
        × IsBound wire (serde.digest expected) bundle metadata
        × (record { wire = wire; canonical = payload } ≡ r)
  unfolding verify_wire check_canonical
  verify_wire-ok bundle wire r h =
      let (canon, h₁) = then-ok (check_canonical serde payload wire) _ h in
      let (c, written, same_text) =
        bind-ok (canonical serde (serde.record_to_value wire)) _ canon in
      let unrefused = refuse_if-ok (not (same c payload)) _ (violation-ok {J = J} _ tt same_text) in
      let (identity, h₂) =
        then-ok (map_err violation (check_identity serde wire expected bundle)) _ h₁ in
      let (metadata, read, h₃) = bind-ok (validate_metadata serde wire.adapter) _ h₂ in
      let (contract, done) =
        then-ok (map_err violation (check_contract serde wire bundle metadata)) _ h₃ in
      (
        metadata,
        written ∙ ap ok (same→eq c payload (not-false (same c payload) unrefused)),
        read,
        check_contract-ok wire bundle metadata (violation-ok {J = J} _ tt identity)
            (violation-ok {J = J} _ tt contract),
        ok_injective done,
      )

  verify_against_bundle-ok :
      (r : ExecutionRecord (Value C))
      → verify_against_bundle serde payload expected ≡ ok r
      → IsVerified serde payload expected r
  unfolding verify_against_bundle
  verify_against_bundle-ok r h =
      let (size, h₁) =
        then-ok (map_err violation (refuse_if (ltb max_record_bytes (length (bytes payload))) _)) _
          h in
      let (bundle, read, h₂) = bind-ok (map_err violation (parse_bundle serde expected)) _ h₁ in
      let (wire, decoded, h₃) = bind-ok (map_err json (serde.record_from_str payload)) _ h₂ in
      let (metadata, written, validated, bound, e) = verify_wire-ok bundle wire r h₃ in
      let fits = refuse_if-ok _ _ (violation-ok {J = J} _ tt size) in
      subst (IsVerified serde payload expected) e (record {
        bundle = bundle;
        metadata = metadata;
        short = ground (arith, fits);
        bundle_read = violation-ok {J = J} _ bundle read;
        record_read = json-ok _ wire decoded;
        rewritten = written;
        kept = refl;
        metadata_read = validated;
        bound = bound;
      })

  verify_against_bundle-of_verified :
      (r : ExecutionRecord (Value C))
      → IsVerified serde payload expected r
      → verify_against_bundle serde payload expected ≡ ok r
  unfolding verify_against_bundle verify_wire check_canonical check_identity check_contract
  verify_against_bundle-of_verified r v =
      let e : record { wire = r.wire; canonical = payload } ≡ r =
        λ i. record { wire = r.wire; canonical = sym v.kept i } in
      let fits : ltb max_record_bytes (length (bytes payload)) ≡ false = ground (arith, v.short) in
      let sha = serde.digest expected in
      rw
        (
          fits,
          v.bundle_read,
          v.record_read,
          v.rewritten,
          same_refl payload,
          check_schema-of_bound r.wire sha v.bundle v.metadata v.bound,
          check_run_id-of_bound r.wire sha v.bundle v.metadata v.bound,
          check_binding-of_bound r.wire sha v.bundle v.metadata v.bound,
          v.metadata_read,
          check_adapter-of_bound r.wire sha v.bundle v.metadata v.bound,
          (check_codecs-ok_iff r.wire.codecs).1 v.bound.codecs_named,
          (check_record-ok_iff r.wire (scenario_ids v.bundle)).1 v.bound.consistent,
        )
        (ap ok e)

  -- A text is verified against a bundle's text as a record exactly when both are read, the record's
  -- text is its canonical text of at most 16 MiB, and the record has the schema of execution records,
  -- the evidence kind of a software execution report and a run id that is not blank, names the
  -- digest, the id and the seed of the bundle, an adapter that is read and meets the binding of the
  -- bundle, and valid codecs, and is consistent with the scenario ids of the bundle; the text that is
  -- kept with it is the one given.
  pub verify_against_bundle-ok_iff :
      (r : ExecutionRecord (Value C))
      → (verify_against_bundle serde payload expected ≡ ok r) ↔ IsVerified serde payload expected r
  verify_against_bundle-ok_iff r = (verify_against_bundle-ok r, verify_against_bundle-of_verified r)
