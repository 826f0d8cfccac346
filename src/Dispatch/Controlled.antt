-- ===== src/Dispatch/Controlled.antt =====
-- crates/prospect-dispatch/src/execution/controlled.rs: the controlled evaluation of a bundle. The
-- host gives the clock of `evaluate_batch_controlled`, which is `Instant::now` in the source.
use prospect_engine.Base.{
  ℕ, ◌≡◌, refl, false, Option, none, some, is_empty, cons-of_nonempty, map, ◌⊎◌, inl, inr, Result,
  ok, err, Result-cases, Option-cases,
}
use prospect_engine.Base.Ord.{Ord}
use prospect_engine.Base.Text.{Text}
use prospect_engine.Base.Effects.{Effect}
use prospect_engine.Core.{ProspectiveEngine, SignatureMetric, DecisionPolicy}
use prospect_engine.Adapter.{AdapterMetadata}
use prospect_engine.Registry.{Registry}
use prospect_engine.Bundle.{ScenarioBundle, into_core}
use prospect_engine.Scenario.Controlled.{
  BatchExecution, EvaluationControl, ExecutionState, Host, evaluate_with_clock, state_of,
}
use prospect_engine.Scenario.Controlled.Accounting.{Accounts, evaluate_with_clock-Accounts}
use prospect_engine.Scenario.Controlled.Ends.{IsCoherent, evaluate_with_clock-IsCoherent}
use prospect_engine.Dispatch.{
  BundleDispatchError, ResolvedBundleRequirements, resolve_bundle_requirements,
}
use prospect_engine.Dispatch.Execution.{
  ExecutableAdapterRegistry, BundleExecutionError, dispatch, registry_invariant, engine_of,
  owned_metadata_catalog,
}
use prospect_engine.Dispatch.Invariant.{IsWellKeyed, engine_of-resolved}

pub record RegisteredBatchExecution {ℓ} (I S E : Type ℓ) : Type ℓ where
  pub bundle_id : Text
  pub seed : Option ℕ
  pub adapter : AdapterMetadata
  pub evaluation : BatchExecution I S E

-- `RegisteredBatchExecution::state`
unfoldable pub registered_state {ℓ} :
    {I S E : Type ℓ} → RegisteredBatchExecution I S E → ExecutionState
unfolding state_of
registered_state self = state_of self.evaluation

-- `evaluate_batch_controlled`
abbrev pub evaluate_batch_controlled {ℓ} :
    {State I S E W : Type ℓ}
    → ProspectiveEngine State I S E W
    → ScenarioBundle State I
    → EvaluationControl W
    → Host W
    → W
    → BatchExecution I S E × W
evaluate_batch_controlled engine bundle control host w =
    evaluate_with_clock engine bundle.state control host (map into_core bundle.scenarios) w

module _ {ℓ} {State I S E W : Type ℓ} (bundle : ScenarioBundle State I)
    (control : EvaluationControl W) (host : Host W) where
  -- `evaluate_registered_bundle_controlled` after the evaluation
  unfoldable pub evaluated :
      AdapterMetadata
      → BatchExecution I S E × W
      → Result (RegisteredBatchExecution I S E) (BundleExecutionError E) × W
  evaluated adapter (evaluation, w) = (
    ok (record {
      bundle_id = bundle.bundle_id.value;
      seed = bundle.seed;
      adapter = adapter;
      evaluation = evaluation;
    }),
    w,
  )

  -- `evaluate_registered_bundle_controlled` after the engine is looked up
  unfoldable pub evaluate_on :
      AdapterMetadata
      → Option (ProspectiveEngine State I S E W)
      → Effect W (BundleExecutionError E) (RegisteredBatchExecution I S E)
  unfolding evaluated
  evaluate_on adapter none w = (err (registry_invariant adapter.adapter_id.value), w)
  evaluate_on adapter (some engine) w =
      evaluated adapter (evaluate_batch_controlled engine bundle control host w)

module _ {ℓ} {State I S E W M P : Type ℓ} (bundle : ScenarioBundle State I)
    (control : EvaluationControl W) (host : Host W) where
  -- `evaluate_registered_bundle_controlled` after the requirements are resolved
  unfoldable pub evaluate_resolved :
      ExecutableAdapterRegistry State I S E W
      → Result (ResolvedBundleRequirements S M P) BundleDispatchError
      → Effect W (BundleExecutionError E) (RegisteredBatchExecution I S E)
  evaluate_resolved adapters (err e) w = (err (dispatch e), w)
  evaluate_resolved adapters (ok resolved) w =
      evaluate_on bundle control host resolved.adapter
        (engine_of adapters resolved.adapter.adapter_id.value) w

  unfoldable pub evaluate_registered_bundle_controlled :
      ExecutableAdapterRegistry State I S E W
      → Registry (SignatureMetric S M)
      → Registry (DecisionPolicy S P)
      → Effect W (BundleExecutionError E) (RegisteredBatchExecution I S E)
  evaluate_registered_bundle_controlled adapters metrics policies =
      evaluate_resolved adapters
        (resolve_bundle_requirements bundle (owned_metadata_catalog adapters) metrics policies)

-- What the report of a bundle says of it.
pub record Reports {ℓ} {State I S E W : Type ℓ} (bundle : ScenarioBundle State I)
    (control : EvaluationControl W) (report : RegisteredBatchExecution I S E) : Type ℓ where
  pub same_bundle : report.bundle_id ≡ bundle.bundle_id.value
  pub same_seed : report.seed ≡ bundle.seed
  pub accounts : Accounts (map into_core bundle.scenarios) report.evaluation
  pub coherent : IsCoherent control report.evaluation

module _ {ℓ} {State I S E W : Type ℓ} (bundle : ScenarioBundle State I)
    (control : EvaluationControl W) (host : Host W) (engine : ProspectiveEngine State I S E W) where
  evaluate_batch_controlled-IsCoherent :
      (w : W)
      → is_empty bundle.scenarios ≡ false
      → IsCoherent control (evaluate_batch_controlled engine bundle control host w).0
  evaluate_batch_controlled-IsCoherent w h =
      let (s, ss, e) = cons-of_nonempty bundle.scenarios h in
      rw e (
        evaluate_with_clock-IsCoherent engine bundle.state control host (into_core s)
          (map into_core ss) w)

  evaluated-Reports :
      (adapter : AdapterMetadata) (w : W)
      → is_empty bundle.scenarios ≡ false
      → (report : RegisteredBatchExecution I S E) × (w' : W) × (evaluated bundle control host
            adapter
            (evaluate_batch_controlled engine bundle control host w)
          ≡ (ok report, w'))
        × Reports bundle control report
  unfolding evaluated
  evaluated-Reports adapter w h = (
    _,
    _,
    refl,
    record {
      same_bundle = refl;
      same_seed = refl;
      accounts =
          evaluate_with_clock-Accounts engine bundle.state control host
            (map into_core bundle.scenarios) w;
      coherent = evaluate_batch_controlled-IsCoherent w h;
    },
  )

module _ {ℓ} {State I S E W M P : Type ℓ} ⦃o : Ord P⦄ (bundle : ScenarioBundle State I)
    (control : EvaluationControl W) (host : Host W)
    (adapters : ExecutableAdapterRegistry State I S E W) (metrics : Registry (SignatureMetric S M))
    (policies : Registry (DecisionPolicy S P)) where
  -- Unmet requirements end the run before any call.
  abbrev pub IsRefused : W → Type ℓ
  IsRefused w =
      (e : BundleDispatchError) × (resolve_bundle_requirements bundle
          (owned_metadata_catalog adapters) metrics policies
        ≡ err e)
      × (evaluate_registered_bundle_controlled bundle control host adapters metrics policies w
          ≡ (err (dispatch e), w))

  abbrev pub IsReported : W → Type ℓ
  IsReported w =
      (report : RegisteredBatchExecution I S E) × (w' : W) × (evaluate_registered_bundle_controlled
          bundle control host adapters metrics policies w
        ≡ (ok report, w'))
      × Reports bundle control report

  -- If every entry of the executable registry stands under its own id and the bundle has a
  -- scenario, its controlled evaluation either reports an unmet requirement and changes nothing, or
  -- returns a report with the bundle's id and seed, in which every scenario is accounted for and
  -- whose end agrees with the quota, the deadline and the baseline.
  pub evaluate_registered_bundle_controlled-reports :
      (w : W)
      → IsWellKeyed adapters
      → is_empty bundle.scenarios ≡ false
      → IsRefused w ⊎ IsReported w
  unfolding evaluate_registered_bundle_controlled evaluate_resolved evaluate_on
  evaluate_registered_bundle_controlled-reports w k h =
      elim (Result-cases
        (resolve_bundle_requirements bundle (owned_metadata_catalog adapters) metrics policies)) [
          | inr (e, q) ↦ inl (e, q, rw q refl)
          | inl (resolved, q) ↦
              elim (Option-cases (engine_of adapters resolved.adapter.adapter_id.value)) [
                | inl n ↦
                    absurd (engine_of-resolved bundle adapters metrics policies resolved k q n)
                | inr (engine, f) ↦
                    let (report, w', e, r) =
                      evaluated-Reports bundle control host engine resolved.adapter w h in
                    inr (report, w', rw (q, evaluate_resolved, f) e, r)
              ]
        ]
