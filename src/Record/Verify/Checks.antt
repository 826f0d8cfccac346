-- ===== src/Record/Verify/Checks.antt =====
-- The single checks of a record against its bundle, and what passing them means.
use prospect_engine.Base.{
  ℕ, ◌≡◌, refl, ap, ◌↔◌, Bool, true, false, not, ◌||◌, Option, none, some, Result, ok, err, map_err,
  then-ok, arith,
}
use prospect_engine.Base.Text.{Text, is_blank}
use prospect_engine.Base.Key.{text_key, same, same→eq, same_refl}
use prospect_engine.Adapter.{
  AdapterUpstream, AdapterMetadata, supports, new_namespaced_id, valid_namespaced_id,
}
use prospect_engine.Adapter.Versions.{Supports, supports_iff}
use prospect_engine.Bundle.{ScenarioBundle, UpstreamBinding}
use prospect_engine.Record.{
  Violation, ExecutionRecordError, json, violation, PayloadCodecs, RecordWire, refuse_if,
  check_record,
}
use prospect_engine.Record.Laws.{IsConsistent, check_record-ok_iff, refuse_if-ok}
use prospect_engine.Record.Capture.{execution_record_schema_v1, evidence_kind}
use prospect_engine.Record.Verify.{
  check_codecs, check_run_id, same_seed, check_upstream, check_adapter, check_schema, check_binding,
  scenario_ids,
}

-- the upstream that an adapter must have
abbrev pub Satisfies : Option UpstreamBinding → Option AdapterUpstream → Type 0
Satisfies none actual = Unit
Satisfies (some required) none = ⊥
Satisfies (some required) (some actual) =
    (actual.component.value ≡ required.component.value) × (actual.revision ≡ required.revision)

-- What `wire` and the adapter that it names say of the bundle in the text `expected_bundle`.
pub record IsBound {ℓ κ} {V : Type ℓ} {State I : Type κ} (wire : RecordWire V) (sha256 : Text)
    (bundle : ScenarioBundle State I) (metadata : AdapterMetadata) : Type (ℓ ⊔ κ) where
  pub same_schema : wire.schema ≡ execution_record_schema_v1
  pub same_kind : wire.evidence_kind ≡ evidence_kind
  pub run_named : is_blank wire.run_id ≡ false
  pub same_digest : wire.bundle_sha256 ≡ sha256
  pub same_bundle : wire.bundle_id ≡ bundle.bundle_id.value
  pub seed_kept : wire.seed ≡ bundle.seed
  pub same_adapter : metadata.adapter_id.value ≡ bundle.adapter.adapter_id.value
  pub supported : Supports metadata.contract_version bundle.adapter.contract_version
  pub upstream_kept : Satisfies bundle.adapter.upstream metadata.upstream
  pub codecs_named :
      (valid_namespaced_id wire.codecs.signature ≡ true)
      × (valid_namespaced_id wire.codecs.error ≡ true)
  pub consistent : IsConsistent wire (scenario_ids bundle)

pub ok_injective {ℓ κ} :
    {A : Type ℓ} {E : Type κ} {a b : A} → ◌≡◌ {A = Result A E} (ok a) (ok b) → a ≡ b
ok_injective h = cc

pub violation-ok {ℓ κ} :
    {A : Type ℓ} {J : Type κ} (r : Result A Violation) (a : A)
    → ◌≡◌ {A = Result A (ExecutionRecordError J)} (map_err violation r) (ok a)
    → r ≡ ok a
violation-ok (ok b) a h = ground (arith, h)
violation-ok (err e) a h = absurd (ground (arith, h))

pub json-ok {ℓ κ} :
    {A : Type ℓ} {J : Type κ} (r : Result A J) (a : A)
    → ◌≡◌ {A = Result A (ExecutionRecordError J)} (map_err json r) (ok a)
    → r ≡ ok a
json-ok (ok b) a h = ground (arith, h)
json-ok (err e) a h = absurd (ground (arith, h))

same_seed-eq : (a b : Option ℕ) → same_seed a b ≡ true → a ≡ b
same_seed-eq none none h = refl
same_seed-eq none (some b) h = cc
same_seed-eq (some a) none h = cc
same_seed-eq (some a) (some b) h = ap some (ground (arith, h))

same_seed_refl : (a : Option ℕ) → same_seed a a ≡ true
same_seed_refl none = refl
same_seed_refl (some a) = ground arith

pub not-false : (b : Bool) → not b ≡ false → b ≡ true
not-false true h = refl
not-false false h = cc

refuse_two-ok :
    (a b : Bool) (reason : Text)
    → refuse_if (not a || not b) reason ≡ ok tt
    → (a ≡ true) × (b ≡ true)
refuse_two-ok true true reason h = (refl, refl)
refuse_two-ok true false reason h = absurd cc
refuse_two-ok false b reason h = absurd cc

pub check_codecs-ok_iff :
    (codecs : PayloadCodecs)
    → (check_codecs codecs ≡ ok tt)
      ↔ ((valid_namespaced_id codecs.signature ≡ true) × (valid_namespaced_id codecs.error ≡ true))
unfolding check_codecs new_namespaced_id
check_codecs-ok_iff codecs = (λ h. ground (arith, h), λ h. rw (h.0, h.1) refl)

check_upstream-ok :
    (required : Option UpstreamBinding) (actual : Option AdapterUpstream)
    → check_upstream required actual ≡ ok tt
    → Satisfies required actual
check_upstream-ok none actual h = tt
check_upstream-ok (some required) none h = cc
check_upstream-ok (some required) (some actual) h =
    let (a, b) =
      refuse_two-ok (same actual.component.value required.component.value)
        (same actual.revision required.revision) _ h in
    (same→eq _ _ a, same→eq _ _ b)

check_upstream-of_satisfied :
    (required : Option UpstreamBinding) (actual : Option AdapterUpstream)
    → Satisfies required actual
    → check_upstream required actual ≡ ok tt
check_upstream-of_satisfied none actual h = refl
check_upstream-of_satisfied (some required) none h = absurd h
check_upstream-of_satisfied (some required) (some actual) h =
    rw (h.0, h.1, same_refl required.component.value, same_refl required.revision) refl

module _ {ℓ κ} {V : Type ℓ} {State I : Type κ} (wire : RecordWire V) (sha256 : Text)
    (bundle : ScenarioBundle State I) (metadata : AdapterMetadata) where
  check_binding-ok :
      check_binding wire sha256 bundle ≡ ok tt
      → (wire.bundle_sha256 ≡ sha256)
        × (wire.bundle_id ≡ bundle.bundle_id.value)
        × (wire.seed ≡ bundle.seed)
  unfolding check_binding
  check_binding-ok h =
      let k =
        refuse_if-ok
          (not (same wire.bundle_sha256 sha256)
            || not (same wire.bundle_id bundle.bundle_id.value)
            || not (same_seed wire.seed bundle.seed))
          _ h in
      (
        same→eq _ _ (ground (arith, k)),
        same→eq _ _ (ground (arith, k)),
        same_seed-eq _ _ (ground (arith, k)),
      )

  pub check_identity-ok :
      check_schema wire ≡ ok tt
      → check_run_id wire.run_id ≡ ok tt
      → check_binding wire sha256 bundle ≡ ok tt
      → check_adapter metadata bundle.adapter ≡ ok tt
      → check_codecs wire.codecs ≡ ok tt
      → check_record wire (scenario_ids bundle) ≡ ok tt
      → IsBound wire sha256 bundle metadata
  unfolding check_schema check_run_id check_adapter
  check_identity-ok schema run binding adapter codecs record_ok =
      let (s, k) =
        refuse_two-ok (same wire.schema execution_record_schema_v1)
          (same wire.evidence_kind evidence_kind) _ schema in
      let (contract, up) =
        then-ok
          (refuse_if
            (not (same metadata.adapter_id.value bundle.adapter.adapter_id.value)
              || not (supports metadata.contract_version bundle.adapter.contract_version))
            _)
          _ adapter in
      let (id, version) =
        refuse_two-ok (same metadata.adapter_id.value bundle.adapter.adapter_id.value)
          (supports metadata.contract_version bundle.adapter.contract_version) _ contract in
      let (sha, name, seed) = check_binding-ok binding in
      record {
        same_schema = same→eq _ _ s;
        same_kind = same→eq _ _ k;
        run_named = refuse_if-ok _ _ run;
        same_digest = sha;
        same_bundle = name;
        seed_kept = seed;
        same_adapter = same→eq _ _ id;
        supported =
            (supports_iff metadata.contract_version bundle.adapter.contract_version).0 version;
        upstream_kept = check_upstream-ok _ _ up;
        codecs_named = (check_codecs-ok_iff wire.codecs).0 codecs;
        consistent = (check_record-ok_iff wire (scenario_ids bundle)).0 record_ok;
      }

module _ {ℓ κ} {V : Type ℓ} {State I : Type κ} (wire : RecordWire V) (sha256 : Text)
    (bundle : ScenarioBundle State I) (metadata : AdapterMetadata)
    (b : IsBound wire sha256 bundle metadata) where
  pub check_schema-of_bound : check_schema wire ≡ ok tt
  unfolding check_schema
  check_schema-of_bound =
      rw (b.same_schema, b.same_kind, same_refl execution_record_schema_v1, same_refl evidence_kind)
        refl

  pub check_binding-of_bound : check_binding wire sha256 bundle ≡ ok tt
  unfolding check_binding
  check_binding-of_bound =
      rw
        (
          b.same_digest,
          b.same_bundle,
          b.seed_kept,
          same_refl sha256,
          same_refl bundle.bundle_id.value,
          same_seed_refl bundle.seed,
        )
        refl

  pub check_adapter-of_bound : check_adapter metadata bundle.adapter ≡ ok tt
  unfolding check_adapter
  check_adapter-of_bound =
      rw
        (
          b.same_adapter,
          same_refl bundle.adapter.adapter_id.value,
          (supports_iff metadata.contract_version bundle.adapter.contract_version).1 b.supported,
          check_upstream-of_satisfied bundle.adapter.upstream metadata.upstream b.upstream_kept,
        )
        refl

  pub check_run_id-of_bound : check_run_id wire.run_id ≡ ok tt
  unfolding check_run_id
  check_run_id-of_bound = rw b.run_named refl
