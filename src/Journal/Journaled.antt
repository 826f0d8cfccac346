-- ===== src/Journal/Journaled.antt =====
-- crates/prospect-dispatch/src/execution/record/journal/evaluation.rs:
-- `evaluate_registered_bundle_journaled`, and when its result gives out a batch.
use prospect_engine.Base.{
  ℕ, ◌≡◌, refl, sym, ap, subst, ◌∙◌, ◌⊎◌, inl, inr, Bool, true, false, not, Option, none, some,
  List, [], ◌∷◌, map, length, length-map, is_some, is_empty, ltb, if◌then◌else◌, Result, ok, err,
  ◌>>=◌, map_err, ok_or, bind-ok, Result-cases, Bool-cases, arith,
}
use prospect_engine.Base.Text.{Text, text}
use prospect_engine.Base.Key.{text_key}
use prospect_engine.Base.Effects.{Effect}
use prospect_engine.Core.{ProspectiveEngine, SignatureMetric, DecisionPolicy}
use prospect_engine.Adapter.{AdapterMetadata}
use prospect_engine.Registry.{Registry}
use prospect_engine.Bundle.{ScenarioBundle, ScenarioBundleError, into_core}
use prospect_engine.Bundle.Json.{Value, Serde, canonical_json}
use prospect_engine.Scenario.{BatchResult}
use prospect_engine.Scenario.Controlled.{BatchExecution, EvaluationControl, Host}
use prospect_engine.Dispatch.{
  BundleDispatchError, ResolvedBundleRequirements, resolve_bundle_requirements,
}
use prospect_engine.Dispatch.Execution.{
  BundleExecutionError, ExecutableAdapterRegistry, engine_of, owned_metadata_catalog,
  registry_invariant,
}
use prospect_engine.Record.{
  ExecutionRecordError, PayloadCodecs, Violation, invalid, json, max_record_scenarios, violation,
}
use prospect_engine.Record.Bound.{BoundEvaluationError, input}
use prospect_engine.Record.Capture.{Encoders}
use prospect_engine.Record.Verify.{parse_bundle}
pub mod Batch
mod Tests
use prospect_engine.Journal.{EngineIdentity, Header}
use prospect_engine.Journal.Emit.{JournalError, JournalSerde, JournalSink}
use prospect_engine.Journal.Evaluate.{JournalRun, journal_schema, validate_header}
use prospect_engine.Journal.Run.{run_session}
use prospect_engine.Journal.Session.{CallFailure, Session}

-- The fields of `JournalCapture` but the sink and the encoders.
pub record JournalCapture : Type 0 where
  pub run_id : Text
  pub implementation : EngineIdentity
  pub codecs : PayloadCodecs

-- what is settled before the session starts
pub record Prepared {ℓ} (C State I S E W : Type ℓ) : Type ℓ where
  pub input_json : Text
  pub adapter : AdapterMetadata
  pub engine : ProspectiveEngine State I S E W
  pub header : Header (Value C)

-- `bundle.canonical_json().map_err(..)`
abbrev pub serialized_input {ℓ} :
    {E J : Type ℓ} → Result Text (ScenarioBundleError J) → Result Text (BoundEvaluationError E J)
serialized_input (ok input_json) = ok input_json
serialized_input (err e) = err (input (violation (invalid (text "bundle serialization failed"))))

abbrev pub parse_refused {ℓ} : {E J : Type ℓ} → Violation → BoundEvaluationError E J
parse_refused v = input (violation v)

abbrev pub dispatch_refused {ℓ} : {E J : Type ℓ} → BundleDispatchError → BoundEvaluationError E J
dispatch_refused e = BoundEvaluationError.dispatch (BundleExecutionError.dispatch e)

abbrev pub engine_missing {ℓ} : {E J : Type ℓ} → AdapterMetadata → BoundEvaluationError E J
engine_missing adapter = BoundEvaluationError.dispatch (registry_invariant adapter.adapter_id.value)

module _ {ℓ} {C J State I S E W M P : Type ℓ} (typed : Serde C State I J) (serde : JournalSerde C J)
    (bundle : ScenarioBundle State I) (adapters : ExecutableAdapterRegistry State I S E W)
    (metrics : Registry (SignatureMetric S M)) (policies : Registry (DecisionPolicy S P))
    (control : EvaluationControl W) (capture : JournalCapture) where
  -- the literal of the header
  abbrev pub header_of : Text → Value C → Header (Value C)
  header_of input_json adapter = record {
    schema = journal_schema;
    run_id = capture.run_id;
    bundle_sha256 = serde.library.digest input_json;
    adapter = adapter;
    implementation = capture.implementation;
    codecs = capture.codecs;
    max_evaluations = control.max_evaluations;
    deadline_configured = is_some control.deadline;
  }

  -- from `serde_json::to_value` to `validate_header`
  unfoldable pub header_checked :
      Text
      → ScenarioBundle (Value C) (Value C)
      → AdapterMetadata
      → ProspectiveEngine State I S E W
      → Result (Prepared C State I S E W) (BoundEvaluationError E J)
  header_checked input_json parsed adapter engine =
      map_err (λ e. input (json e)) (serde.library.metadata_to_value adapter) >>= λ value.
      map_err input (validate_header serde.library (header_of input_json value) parsed input_json)
      >>= λ _. ok (record {
        input_json = input_json;
        adapter = adapter;
        engine = engine;
        header = header_of input_json value;
      })

  -- the resolution and the lookup of the engine
  unfoldable pub adapter_resolved :
      Text
      → ScenarioBundle (Value C) (Value C)
      → Result (Prepared C State I S E W) (BoundEvaluationError E J)
  unfolding header_checked
  adapter_resolved input_json parsed =
      map_err dispatch_refused
        (resolve_bundle_requirements bundle (owned_metadata_catalog adapters) metrics policies)
      >>= λ resolved.
          ok_or (engine_of adapters resolved.adapter.adapter_id.value)
            (engine_missing resolved.adapter)
          >>= header_checked input_json parsed resolved.adapter

  -- `evaluate_registered_bundle_journaled` up to `validate_header`
  unfoldable pub prepare : Result (Prepared C State I S E W) (BoundEvaluationError E J)
  unfolding adapter_resolved
  prepare =
      if ltb max_record_scenarios (length bundle.scenarios)
      then err (input (violation (invalid (text "too many scenarios"))))
      else (serialized_input (canonical_json typed bundle) >>= λ input_json.
          map_err parse_refused (parse_bundle serde.library input_json)
          >>= adapter_resolved input_json)

  module _ {O : Type ℓ} (sink : JournalSink O W) (encoders : Encoders S E W) (host : Host W) where
    abbrev pub run_of :
        Prepared C State I S E W
        → BatchExecution I S (CallFailure E) × (Session J O × W)
        → JournalRun I S E J O × W
    run_of prepared (evaluation, (session, w)) = (
      record {
        input_json = prepared.input_json;
        adapter = prepared.adapter;
        evaluation = evaluation;
        journal_error = session.error;
      },
      w,
    )

    -- the session and its result
    unfoldable pub run_prepared :
        Result (Prepared C State I S E W) (BoundEvaluationError E J)
        → Effect W (BoundEvaluationError E J) (JournalRun I S E J O)
    run_prepared (err e) w = (err e, w)
    run_prepared (ok prepared) w =
        let (run, w') = run_of prepared (
          run_session serde sink encoders prepared.engine bundle.state control host prepared.header
            (map into_core bundle.scenarios) w) in
        (ok run, w')

    unfoldable pub evaluate_registered_bundle_journaled :
        Effect W (BoundEvaluationError E J) (JournalRun I S E J O)
    unfolding run_prepared prepare
    evaluate_registered_bundle_journaled = run_prepared prepare
