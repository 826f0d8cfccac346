-- ===== src/Bundle/RoundTrip.antt =====
-- Writing a bundle and reading it back.
use prospect_engine.Base.{
  ◌≡◌, refl, ap, subst, ◌∙◌, true, false, Option, none, some, List, [], ◌∷◌, map, is_empty, All,
  ◌==◌, Result, ok, Result-cases, inl, inr, transpose_map, traverse, Bool-cases, arith,
}
use prospect_engine.Base.Text.{Text, is_blank}
use prospect_engine.Base.Key.{text_key, same, same→eq, same_refl}
use prospect_engine.Base.Sets.{first_duplicate-none_iff}
use prospect_engine.Base.Sort.{sort_by_key-of_strict, IsDistinct-of_strict, IsStrict}
use prospect_engine.Core.{new_scenario_id, scenario_id_key}
use prospect_engine.Adapter.{
  ContractVersion, NamespacedId, valid_namespaced_id, new_namespaced_id, new_contract_version,
}
use prospect_engine.Bundle.{
  UpstreamBinding, AdapterBinding, RegistryRequirement, BundleScenario, ScenarioBundle,
  ScenarioBundleError, new_upstream_binding, new_adapter_binding, new_requirement,
  unrepeated_bundle, new_bundle,
}
use prospect_engine.Bundle.Laws.{id_of}
use prospect_engine.Bundle.Wire.{
  map_option, version_to_wire, upstream_to_wire, requirement_to_wire, scenario_to_wire, wire_ref,
  version_from_wire, upstream_from_wire, requirement_from_wire, adapter_from_wire,
  scenario_from_wire, from_wire, BundleWire, scenario_bundle_schema_v1,
}
use prospect_engine.Bundle.Json.{
  Serde, Value, write_value, canonical_json, recheck, decode, decode_canonical, from_canonical_json,
}

-- what holds of a value that is there
abbrev pub Every {ℓ κ} : {A : Type ℓ} → (A → Type κ) → Option A → Type κ
Every P none = Unit
Every P (some a) = P a

-- What the constructors of the parts check.
abbrev pub IsVersion : ContractVersion → Type 0
IsVersion v = (v.major == 0) ≡ false

abbrev pub IsId : NamespacedId → Type 0
IsId id = valid_namespaced_id id.value ≡ true

abbrev pub IsUpstream : UpstreamBinding → Type 0
IsUpstream u = IsId u.component × (is_blank u.revision ≡ false)

abbrev pub IsBinding : AdapterBinding → Type 0
IsBinding a = IsId a.adapter_id × IsVersion a.contract_version × Every IsUpstream a.upstream

abbrev pub IsRequirement : RegistryRequirement → Type 0
IsRequirement r = IsId r.id × IsVersion r.version

abbrev pub IsScenario {ℓ} : {I : Type ℓ} → BundleScenario I → Type 0
IsScenario s = is_blank s.id.value ≡ false

-- A bundle whose parts are as the constructors make them, with scenarios in strict order of ids.
abbrev pub IsWellFormed {ℓ} : {State I : Type ℓ} → ScenarioBundle State I → Type 0
IsWellFormed b =
    IsId b.bundle_id
    × IsBinding b.adapter
    × (is_empty b.scenarios ≡ false)
    × IsStrict id_of b.scenarios
    × All IsScenario b.scenarios
    × Every IsRequirement b.metric
    × Every IsRequirement b.policy

pub transpose-map_option {ℓ κ μ} :
    {A : Type ℓ} {B : Type κ} {E : Type μ} (f : B → Result A E) (g : A → B) (P : A → Type 0)
    → ((a : A) → P a → f (g a) ≡ ok a)
    → (o : Option A) → Every P o
    → transpose_map f (map_option g o) ≡ ok o
transpose-map_option f g P h none p = refl
transpose-map_option f g P h (some a) p = rw (h a p) refl

pub traverse-map {ℓ κ μ} :
    {A : Type ℓ} {B : Type κ} {E : Type μ} (f : B → Result A E) (g : A → B) (P : A → Type 0)
    → ((a : A) → P a → f (g a) ≡ ok a)
    → (xs : List A) → All P xs
    → traverse f (map g xs) ≡ ok xs
traverse-map f g P h [] p = refl
traverse-map f g P h (x ∷ xs) p = rw (h x p.0, traverse-map f g P h xs p.1) refl

pub new_namespaced_id-value : (id : NamespacedId) → IsId id → new_namespaced_id id.value ≡ ok id
unfolding new_namespaced_id
new_namespaced_id-value id h = rw h refl

module _ {ℓ} {E : Type ℓ} where
  version_from_wire-to_wire :
      (v : ContractVersion)
      → IsVersion v
      → ◌≡◌ {A = Result ContractVersion (ScenarioBundleError E)}
          (version_from_wire (version_to_wire v))
          (ok v)
  unfolding version_from_wire version_to_wire new_contract_version
  version_from_wire-to_wire v h = rw h refl

  upstream_from_wire-to_wire :
      (u : UpstreamBinding)
      → IsUpstream u
      → ◌≡◌ {A = Result UpstreamBinding (ScenarioBundleError E)}
          (upstream_from_wire (upstream_to_wire u))
          (ok u)
  unfolding upstream_from_wire upstream_to_wire new_upstream_binding
  upstream_from_wire-to_wire u h = rw (h.1, new_namespaced_id-value u.component h.0) refl

  requirement_from_wire-to_wire :
      (r : RegistryRequirement)
      → IsRequirement r
      → ◌≡◌ {A = Result RegistryRequirement (ScenarioBundleError E)}
          (requirement_from_wire (requirement_to_wire r))
          (ok r)
  unfolding requirement_from_wire requirement_to_wire new_requirement
  requirement_from_wire-to_wire r h =
      rw (version_from_wire-to_wire r.version h.1, new_namespaced_id-value r.id h.0) refl

scenario_from_wire-to_wire {ℓ} :
    {I E : Type ℓ} (s : BundleScenario I)
    → IsScenario s
    → ◌≡◌ {A = Result (BundleScenario I) (ScenarioBundleError E)}
        (scenario_from_wire (scenario_to_wire s))
        (ok s)
unfolding scenario_from_wire scenario_to_wire new_scenario_id
scenario_from_wire-to_wire s h = rw h refl

module _ {ℓ} {State I E : Type ℓ} (b : ScenarioBundle State I) (wf : IsWellFormed b) where
  new_bundle-parts :
      ◌≡◌ {A = Result (ScenarioBundle State I) (ScenarioBundleError E)}
        (new_bundle b.bundle_id.value b.adapter b.seed b.state b.scenarios b.metric b.policy)
        (ok b)
  unfolding new_bundle unrepeated_bundle
  new_bundle-parts =
      rw
        (
          wf.2,
          sort_by_key-of_strict id_of b.scenarios wf.3,
          (first_duplicate-none_iff (map id_of b.scenarios)).1
              (IsDistinct-of_strict id_of b.scenarios wf.3),
          new_namespaced_id-value b.bundle_id wf.0,
        )
        refl

  -- The wire struct of a well-formed bundle converts back to the bundle.
  pub from_wire-wire_ref :
      ◌≡◌ {A = Result (ScenarioBundle State I) (ScenarioBundleError E)}
        (from_wire (wire_ref b))
        (ok b)
  unfolding from_wire wire_ref adapter_from_wire new_adapter_binding
  from_wire-wire_ref =
      rw
        (
          version_from_wire-to_wire b.adapter.contract_version wf.1.1,
          transpose-map_option upstream_from_wire upstream_to_wire IsUpstream
              upstream_from_wire-to_wire b.adapter.upstream wf.1.2,
          new_namespaced_id-value b.adapter.adapter_id wf.1.0,
          transpose-map_option requirement_from_wire requirement_to_wire IsRequirement
              requirement_from_wire-to_wire b.metric wf.5,
          transpose-map_option requirement_from_wire requirement_to_wire IsRequirement
              requirement_from_wire-to_wire b.policy wf.6,
          traverse-map scenario_from_wire scenario_to_wire IsScenario scenario_from_wire-to_wire
              b.scenarios wf.4,
        )
        new_bundle-parts

schema-wire_ref {ℓ} :
    {State I : Type ℓ} (b : ScenarioBundle State I)
    → same (wire_ref b).schema scenario_bundle_schema_v1 ≡ true
unfolding wire_ref
schema-wire_ref b = same_refl scenario_bundle_schema_v1

-- What the crate relies on in serde_json: a wire struct converted to a value converts back, and the
-- text written for the value of the wire struct `w` is read as that value.
pub record Reads {ℓ} {C State I E : Type ℓ} (serde : Serde C State I E) (w : BundleWire State I)
    : Type ℓ where
  pub converts :
      (x : BundleWire State I) (v : Value C) → serde.to_value x ≡ ok v → serde.from_value v ≡ ok x
  pub parses :
      (v : Value C) (p : Text)
      → serde.to_value w ≡ ok v
      → write_value serde v ≡ ok p
      → serde.from_str p ≡ ok v

module _ {ℓ} {C State I E : Type ℓ} (serde : Serde C State I E) where
  canonical_json-ok :
      (b : ScenarioBundle State I) (p : Text)
      → canonical_json serde b ≡ ok p
      → (v : Value C) × (serde.to_value (wire_ref b) ≡ ok v) × (write_value serde v ≡ ok p)
  unfolding canonical_json
  canonical_json-ok b p h = elim (Result-cases (serde.to_value (wire_ref b))) [
    | inr (e, q) ↦ absurd (ground (arith, rw q at h))
    | inl (v, q) ↦ elim (Result-cases (write_value serde v)) [
      | inr (e, r) ↦ absurd (ground (arith, rw (q, r) at h))
      | inl (t, r) ↦ (v, q, ground (arith, r, rw (q, r) at h))
    ]
  ]

  -- The canonical text of a well-formed bundle is read back as that bundle, if serde_json converts
  -- wire structs back and reads the text written for the bundle's.
  pub from_canonical_json-canonical_json :
      (b : ScenarioBundle State I) (p : Text)
      → Reads serde (wire_ref b)
      → IsWellFormed b
      → canonical_json serde b ≡ ok p
      → from_canonical_json serde p ≡ ok b
  unfolding from_canonical_json decode_canonical decode recheck
  from_canonical_json-canonical_json b p reads wf h =
      let (v, converted, written) = canonical_json-ok b p h in
      rw
        (
          reads.parses v p converted written,
          written,
          decode_canonical,
          same_refl p,
          reads.converts (wire_ref b) v converted,
          decode,
          schema-wire_ref b,
          from_wire-wire_ref b wf,
          recheck,
          h,
          same_refl p,
        )
        refl

  recheck-ok :
      (p : Text) (x b : ScenarioBundle State I)
      → recheck serde p x ≡ ok b
      → canonical_json serde b ≡ ok p
  unfolding recheck
  recheck-ok p x b h = elim (Result-cases (canonical_json serde x)) [
    | inr (e, q) ↦ absurd (ground (arith, rw q at h))
    | inl (t, q) ↦ elim (Bool-cases (same t p)) [
      | inl s ↦
          let same_bundle : x ≡ b = ground (arith, rw (q, s) at h) in
          subst (λ y. canonical_json serde y ≡ ok p) same_bundle (q ∙ ap ok (same→eq t p s))
      | inr s ↦ absurd (ground (arith, rw (q, s) at h))
    ]
  ]

  decode-ok :
      (p : Text) (w : BundleWire State I) (b : ScenarioBundle State I)
      → decode serde p w ≡ ok b
      → canonical_json serde b ≡ ok p
  unfolding decode
  decode-ok p w b h = elim (Bool-cases (same w.schema scenario_bundle_schema_v1)) [
    | inr s ↦ absurd (ground (arith, rw s at h))
    | inl s ↦ elim (Result-cases (from_wire {E = E} w)) [
      | inr (e, q) ↦ absurd (ground (arith, rw (s, q) at h))
      | inl (x, q) ↦ recheck-ok p x b (rw (s, q) at h)
    ]
  ]

  -- A payload that is accepted is the canonical text of the bundle it gives.
  pub from_canonical_json-ok :
      (b : ScenarioBundle State I) (p : Text)
      → from_canonical_json serde p ≡ ok b
      → canonical_json serde b ≡ ok p
  unfolding from_canonical_json decode_canonical
  from_canonical_json-ok b p h = elim (Result-cases (serde.from_str p)) [
    | inr (e, q) ↦ absurd (ground (arith, rw q at h))
    | inl (v, q) ↦ elim (Result-cases (write_value serde v)) [
      | inr (e, r) ↦ absurd (ground (arith, rw (q, r) at h))
      | inl (t, r) ↦ elim (Bool-cases (same t p)) [
        | inr s ↦ absurd (ground (arith, rw (q, r, decode_canonical, s) at h))
        | inl s ↦ elim (Result-cases (serde.from_value v)) [
          | inr (e, c) ↦ absurd (ground (arith, rw (q, r, decode_canonical, s, c) at h))
          | inl (w, c) ↦ decode-ok p w b (rw (q, r, decode_canonical, s, c) at h)
        ]
      ]
    ]
  ]
