-- ===== src/Dispatch/Execution.antt =====
-- crates/prospect-dispatch/src/execution.rs: executable adapters and the run of a bundle. An engine
-- is registered with its `adapter_metadata()`, the call of the trait `VersionedAdapter`.
use prospect_engine.Base.{ℕ, Option, none, some, List, map, find, Result, ok, err}
use prospect_engine.Base.Ord.{Ord}
use prospect_engine.Base.Text.{Text}
use prospect_engine.Base.Key.{text_key, same}
use prospect_engine.Base.Effects.{Effect}
use prospect_engine.Base.TreeMap.{get, insert}
use prospect_engine.Core.{ScenarioId, ProspectiveEngine, SignatureMetric, DecisionPolicy}
use prospect_engine.Scenario.{
  BatchResult, ScenarioOutcome, ScenarioScore, evaluate_batch, score_against_baseline,
  best_by_policy,
}
use prospect_engine.Adapter.{NamespacedId, AdapterMetadata, AdapterMetadataError, namespaced_id_key}
use prospect_engine.Registry.{Registry}
use prospect_engine.Bundle.{ScenarioBundle, into_core}
use prospect_engine.Dispatch.{
  BundleDispatchError, ResolvedBundleRequirements, resolve_bundle_requirements,
}

pub record ExecutableAdapterEntry {ℓ} (State I S E W : Type ℓ) : Type ℓ where
  pub metadata : AdapterMetadata
  pub engine : ProspectiveEngine State I S E W

pub record ExecutableAdapterRegistry {ℓ} (State I S E W : Type ℓ) : Type ℓ where
  pub entries : List (NamespacedId × ExecutableAdapterEntry State I S E W)

pub data ExecutableAdapterRegistrationError : Type 0 where
  metadata_error : AdapterMetadataError → ExecutableAdapterRegistrationError
  duplicate_executable : Text → ExecutableAdapterRegistrationError

pub record PolicySelection {ℓ} (P : Type ℓ) : Type ℓ where
  pub scenario_id : ScenarioId
  pub score : P

pub record BundleExecutionResult {ℓ} (I S M P : Type ℓ) : Type ℓ where
  pub bundle_id : Text
  pub seed : Option ℕ
  pub adapter : AdapterMetadata
  pub batch : BatchResult I S
  pub metric_scores : Option (List (ScenarioScore M))
  pub policy_selection : Option (PolicySelection P)

pub data BundleExecutionError {ℓ} (E : Type ℓ) : Type ℓ where
  dispatch : BundleDispatchError → BundleExecutionError E
  engine_error : E → BundleExecutionError E
  registry_invariant : Text → BundleExecutionError E

module _ {ℓ} {State I S E W : Type ℓ} where
  -- `register` after `contains_key`
  unfoldable pub register_absent :
      ExecutableAdapterRegistry State I S E W
      → Option (ExecutableAdapterEntry State I S E W)
      → AdapterMetadata
      → ProspectiveEngine State I S E W
      → Result (Unit {0}) ExecutableAdapterRegistrationError
        × ExecutableAdapterRegistry State I S E W
  register_absent self (some _) metadata engine =
      (err (duplicate_executable metadata.adapter_id.value), self)
  register_absent self none metadata engine = (
    ok tt,
    record {
      entries =
          insert metadata.adapter_id (record { metadata = metadata; engine = engine }) self.entries;
    },
  )

  -- `ExecutableAdapterRegistry::register`, given `engine.adapter_metadata()`
  unfoldable pub register_engine :
      ExecutableAdapterRegistry State I S E W
      → Result AdapterMetadata AdapterMetadataError
      → ProspectiveEngine State I S E W
      → Result (Unit {0}) ExecutableAdapterRegistrationError
        × ExecutableAdapterRegistry State I S E W
  register_engine self (err e) engine = (err (metadata_error e), self)
  register_engine self (ok metadata) engine =
      register_absent self (get metadata.adapter_id self.entries) metadata engine

  -- `metadata` and `owned_metadata_catalog`
  unfoldable pub owned_metadata_catalog :
      ExecutableAdapterRegistry State I S E W → List AdapterMetadata
  owned_metadata_catalog self = map (λ e. e.1.metadata) self.entries

  -- `option.map(|(_, entry)| entry.engine)`
  unfoldable pub entry_engine :
      Option (NamespacedId × ExecutableAdapterEntry State I S E W)
      → Option (ProspectiveEngine State I S E W)
  entry_engine none = none
  entry_engine (some e) = some e.1.engine

  unfoldable pub engine_of :
      ExecutableAdapterRegistry State I S E W → Text → Option (ProspectiveEngine State I S E W)
  engine_of self id = entry_engine (find (λ e. same e.0.value id) self.entries)

-- `best_by_policy(..).map(..)`
unfoldable pub selection {ℓ} :
    {I S P : Type ℓ} → Option (ScenarioOutcome I S × P) → Option (PolicySelection P)
selection none = none
selection (some (outcome, score)) =
    some (record { scenario_id = outcome.scenario.id; score = score })

unfoldable pub metric_scores_of {ℓ} :
    {I S M : Type ℓ}
    → BatchResult I S
    → Option (SignatureMetric S M)
    → Option (List (ScenarioScore M))
metric_scores_of batch none = none
metric_scores_of batch (some metric) = some (score_against_baseline batch metric)

unfoldable pub policy_selection_of {ℓ} :
    {I S P : Type ℓ} ⦃o : Ord P⦄
    → BatchResult I S
    → Option (DecisionPolicy S P)
    → Option (PolicySelection P)
policy_selection_of batch none = none
policy_selection_of batch (some policy) = selection (best_by_policy policy batch)

module _ {ℓ} {State I S E W M P : Type ℓ} ⦃o : Ord P⦄ (bundle : ScenarioBundle State I) where
  -- `execute_registered_bundle` after `evaluate_batch`
  unfoldable pub batch_returned :
      ResolvedBundleRequirements S M P
      → Result (BatchResult I S) E × W
      → Result (BundleExecutionResult I S M P) (BundleExecutionError E) × W
  batch_returned resolved (err e, w) = (err (engine_error e), w)
  batch_returned resolved (ok batch, w) = (
    ok (record {
      bundle_id = bundle.bundle_id.value;
      seed = bundle.seed;
      adapter = resolved.adapter;
      batch = batch;
      metric_scores = metric_scores_of batch resolved.metric;
      policy_selection = policy_selection_of batch resolved.policy;
    }),
    w,
  )

  -- `execute_registered_bundle` after the engine is looked up
  unfoldable pub engine_found :
      ResolvedBundleRequirements S M P
      → Option (ProspectiveEngine State I S E W)
      → Effect W (BundleExecutionError E) (BundleExecutionResult I S M P)
  engine_found resolved none w = (err (registry_invariant resolved.adapter.adapter_id.value), w)
  engine_found resolved (some engine) w =
      batch_returned resolved
        (evaluate_batch engine bundle.state (map into_core bundle.scenarios) w)

  -- `execute_registered_bundle` after the requirements are resolved
  unfoldable pub requirements_resolved :
      ExecutableAdapterRegistry State I S E W
      → Result (ResolvedBundleRequirements S M P) BundleDispatchError
      → Effect W (BundleExecutionError E) (BundleExecutionResult I S M P)
  requirements_resolved adapters (err e) w = (err (dispatch e), w)
  requirements_resolved adapters (ok resolved) w =
      engine_found resolved (engine_of adapters resolved.adapter.adapter_id.value) w

  unfoldable pub execute_registered_bundle :
      ExecutableAdapterRegistry State I S E W
      → Registry (SignatureMetric S M)
      → Registry (DecisionPolicy S P)
      → Effect W (BundleExecutionError E) (BundleExecutionResult I S M P)
  execute_registered_bundle adapters metrics policies =
      requirements_resolved adapters
        (resolve_bundle_requirements bundle (owned_metadata_catalog adapters) metrics policies)
