-- ===== src/Dispatch/Invariant.antt =====
-- `BundleExecutionError::RegistryInvariant` is never returned.
use prospect_engine.Base.{
  ◌≡◌, ◌≢◌, refl, sym, ap, subst, ◌∙◌, Option, none, some, List, [], ◌∷◌, filter, find, map, inl,
  inr, Result, ok, err, Result-cases, Bool-cases, Option-cases, transpose_map, All, arith,
}
use prospect_engine.Base.Ord.{Ord}
use prospect_engine.Base.Text.{Text}
use prospect_engine.Base.Key.{text_key, same, same→eq}
use prospect_engine.Base.TreeMap.{All-insert}
use prospect_engine.Core.{SignatureMetric, DecisionPolicy, ProspectiveEngine}
use prospect_engine.Adapter.{NamespacedId, AdapterMetadata, AdapterMetadataError, namespaced_id_key}
use prospect_engine.Registry.{Registry}
use prospect_engine.Bundle.{ScenarioBundle, into_core}
use prospect_engine.Scenario.{evaluate_batch}
use prospect_engine.Dispatch.{
  BundleDispatchError, resolve_adapter, resolve_required_metric, resolve_required_policy,
  resolve_bundle_requirements, ResolvedBundleRequirements,
}
use prospect_engine.Dispatch.Laws.{resolve_adapter-ok_iff}
use prospect_engine.Dispatch.Execution.{
  ExecutableAdapterEntry, ExecutableAdapterRegistry, dispatch, register_engine, register_absent,
  owned_metadata_catalog, entry_engine, engine_of, batch_returned, execute_registered_bundle,
}

module _ {ℓ} {State I S E W : Type ℓ} where
  -- an entry that stands under the id of its own metadata
  abbrev pub IsKeyed : NamespacedId × ExecutableAdapterEntry State I S E W → Type 0
  IsKeyed (id, e) = e.metadata.adapter_id ≡ id

  abbrev pub IsWellKeyed : ExecutableAdapterRegistry State I S E W → Type 0
  IsWellKeyed r = All IsKeyed r.entries

  register_absent-IsWellKeyed :
      (r : ExecutableAdapterRegistry State I S E W)
      (found : Option (ExecutableAdapterEntry State I S E W)) (metadata : AdapterMetadata)
      (engine : ProspectiveEngine State I S E W)
      → IsWellKeyed r
      → IsWellKeyed (register_absent r found metadata engine).1
  unfolding register_absent
  register_absent-IsWellKeyed r (some _) metadata engine h = h
  register_absent-IsWellKeyed r none metadata engine h =
      All-insert IsKeyed metadata.adapter_id (record { metadata = metadata; engine = engine })
        r.entries refl h

  -- `register` keeps every entry under its own id, whether it succeeds or not
  pub register_engine-IsWellKeyed :
      (r : ExecutableAdapterRegistry State I S E W)
      (m : Result AdapterMetadata AdapterMetadataError) (engine : ProspectiveEngine State I S E W)
      → IsWellKeyed r
      → IsWellKeyed (register_engine r m engine).1
  unfolding register_engine
  register_engine-IsWellKeyed r (err e) engine h = h
  register_engine-IsWellKeyed r (ok metadata) engine h =
      register_absent-IsWellKeyed r _ metadata engine h

  named-of_absent :
      (id : Text) (entries : List (NamespacedId × ExecutableAdapterEntry State I S E W))
      → All IsKeyed entries
      → find (λ e. same e.0.value id) entries ≡ none
      → filter
          (λ (m : AdapterMetadata). same m.adapter_id.value id)
          (map (λ e. e.1.metadata) entries)
        ≡ []
  named-of_absent id [] k h = refl
  named-of_absent id (e ∷ es) k h = elim (Bool-cases (same e.0.value id)) [
    | inl s ↦ absurd (ground (arith, rw s at h))
    | inr s ↦
        rw (ap (λ (i : NamespacedId). same i.value id) k.0, s)
          (named-of_absent id es k.1 (rw s at h))
  ]

filter-head :
    (id : Text) (ms : List AdapterMetadata) (m : AdapterMetadata)
    → filter (λ x. same x.adapter_id.value id) ms ≡ m ∷ []
    → m.adapter_id.value ≡ id
filter-head id [] m h = cc
filter-head id (x ∷ xs) m h = elim (Bool-cases (same x.adapter_id.value id)) [
  | inl s ↦
      let e : x ≡ m = ground (arith, rw s at h) in
      subst (λ (y : AdapterMetadata). y.adapter_id.value ≡ id) e (same→eq x.adapter_id.value id s)
  | inr s ↦ filter-head id xs m (rw s at h)
]

resolved-adapter {ℓ} :
    {State I S M P : Type ℓ} (bundle : ScenarioBundle State I) (adapters : List AdapterMetadata)
    (metrics : Registry (SignatureMetric S M)) (policies : Registry (DecisionPolicy S P))
    (resolved : ResolvedBundleRequirements S M P)
    → resolve_bundle_requirements bundle adapters metrics policies ≡ ok resolved
    → resolve_adapter bundle.adapter adapters ≡ ok resolved.adapter
unfolding resolve_bundle_requirements
resolved-adapter bundle adapters metrics policies resolved h =
    elim (Result-cases (resolve_adapter bundle.adapter adapters)) [
      | inr (e, q) ↦ absurd (ground (arith, rw q at h))
      | inl (a, q) ↦
          elim (Result-cases (transpose_map (resolve_required_metric metrics) bundle.metric)) [
            | inr (e, m) ↦ absurd (ground (arith, rw (q, m) at h))
            | inl (x, m) ↦
                elim (Result-cases
                  (transpose_map (resolve_required_policy policies) bundle.policy)) [
                    | inr (e, p) ↦ absurd (ground (arith, rw (q, m, p) at h))
                    | inl (y, p) ↦ ground (arith, q, rw (q, m, p) at h)
                  ]
          ]
    ]

module _ {ℓ} {State I S E W M P : Type ℓ} ⦃o : Ord P⦄ (bundle : ScenarioBundle State I)
    (adapters : ExecutableAdapterRegistry State I S E W) (metrics : Registry (SignatureMetric S M))
    (policies : Registry (DecisionPolicy S P)) where
  pub engine_of-resolved :
      (resolved : ResolvedBundleRequirements S M P)
      → IsWellKeyed adapters
      → resolve_bundle_requirements bundle (owned_metadata_catalog adapters) metrics policies
        ≡ ok resolved
      → engine_of adapters resolved.adapter.adapter_id.value ≢ none
  unfolding engine_of owned_metadata_catalog entry_engine
  engine_of-resolved resolved k h n =
      let found =
        (resolve_adapter-ok_iff bundle.adapter (map (λ e. e.1.metadata) adapters.entries)
            resolved.adapter).0
          (resolved-adapter bundle (map (λ e. e.1.metadata) adapters.entries) metrics policies
            resolved h) in
      let id : resolved.adapter.adapter_id.value ≡ bundle.adapter.adapter_id.value =
        filter-head bundle.adapter.adapter_id.value (map (λ e. e.1.metadata) adapters.entries)
          resolved.adapter found.0 in
      elim (Option-cases
        (find (λ e. same e.0.value resolved.adapter.adapter_id.value) adapters.entries)) [
          | inr (e, q) ↦ absurd (ground (arith, rw q at n))
          | inl q ↦
              let empty =
                named-of_absent bundle.adapter.adapter_id.value adapters.entries k
                  (subst (λ i. find (λ e. same e.0.value i) adapters.entries ≡ none) id q) in
              absurd (ground (arith, sym empty ∙ found.0))
        ]

  -- A run of a bundle with unmet requirements.
  abbrev pub Refused : W → Type ℓ
  Refused w =
      (e : BundleDispatchError) × (resolve_bundle_requirements bundle
          (owned_metadata_catalog adapters) metrics policies
        ≡ err e)
      × (execute_registered_bundle bundle adapters metrics policies w ≡ (err (dispatch e), w))

  -- A run of a bundle on the engine that stands under the resolved adapter's id.
  abbrev pub Ran : W → Type ℓ
  Ran w =
      (resolved : ResolvedBundleRequirements S M P) × (engine : ProspectiveEngine State I S E W)
      × (resolve_bundle_requirements bundle (owned_metadata_catalog adapters) metrics policies
          ≡ ok resolved)
      × (engine_of adapters resolved.adapter.adapter_id.value ≡ some engine)
      × (execute_registered_bundle bundle adapters metrics policies w
          ≡ batch_returned bundle resolved
              (evaluate_batch engine bundle.state (map into_core bundle.scenarios) w))
