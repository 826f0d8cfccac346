-- ===== src/Journal/Evaluate.antt =====
-- crates/prospect-dispatch/src/execution/record/journal.rs, `validate_header`, and
-- crates/prospect-dispatch/src/execution/record/journal/evaluation.rs: the journaled evaluation of a
-- bundle and what its result gives out.
use prospect_engine.Base.{
  ℕ, Bool, true, false, not, ◌&&◌, ◌||◌, Option, none, some, List, [], ◌∷◌, ◌++◌, all, length, leb,
  ◌==◌, is_some, if◌then◌else◌, Result, ok, err, ◌>>=◌, ◌>>◌, map_err,
}
use prospect_engine.Base.Text.{Text, text, bytes}
use prospect_engine.Base.Key.{text_key, same}
use prospect_engine.Core.{Scenario}
use prospect_engine.Adapter.{
  AdapterMetadata, AdapterUpstream, is_ascii_digit, namespaced_id_key, new_namespaced_id, supports,
}
use prospect_engine.Bundle.{AdapterBinding, ScenarioBundle, UpstreamBinding}
use prospect_engine.Bundle.Json.{Value}
use prospect_engine.Scenario.{BatchResult}
use prospect_engine.Scenario.Controlled.{
  BatchExecution, BatchStatus, EvaluationControl, ExecutionState, Host, InterruptionReason,
  state_of,
}
use prospect_engine.Record.{ExecutionRecordError, Violation, refuse, refuse_if, violation}
use prospect_engine.Record.Verify.{
  RecordSerde, check_codecs, check_run_id, or_invalid, validate_metadata,
}
use prospect_engine.Journal.{CallTarget, EngineIdentity, Header, baseline_call, scenario_call}
use prospect_engine.Journal.Emit.{JournalError}
use prospect_engine.Journal.Session.{CallFailure, blocked_before_engine, engine_error}
use prospect_engine.Scenario.Controlled as Controlled

-- `SCHEMA`
abbrev pub journal_schema : Text
journal_schema = text "prospect.execution-journal/v1"

-- a lower-case hexadecimal text of this length
abbrev pub check_hex : Text → ℕ → Result (Unit {0}) Violation
check_hex value n =
    refuse_if
      (not (length (bytes value) == n)
        || not (all (λ b. is_ascii_digit b || (leb 97 b && leb b 102)) (bytes value)))
      (text "invalid implementation revision or artifact digest")

-- `EngineIdentity::validate`
unfoldable pub check_implementation : EngineIdentity → Result (Unit {0}) Violation
check_implementation self =
    or_invalid (text "invalid implementation component") (new_namespaced_id self.component) >>= λ _.
    check_hex self.revision 40 >> check_hex self.artifact_sha256 64

-- `EngineIdentity::new`
unfoldable pub new_identity : Text → Text → Text → Result EngineIdentity Violation
unfolding check_implementation
new_identity component revision artifact_sha256 =
    let value : EngineIdentity = record {
      component = component;
      revision = revision;
      artifact_sha256 = artifact_sha256;
    } in
    check_implementation value >> ok value

-- `if let Some(required) = required.upstream() { … }` of `validate_header`
abbrev pub check_journal_upstream :
    Option UpstreamBinding → Option AdapterUpstream → Result (Unit {0}) Violation
check_journal_upstream none actual = ok tt
check_journal_upstream (some required) none = refuse (text "missing journal upstream")
check_journal_upstream (some required) (some actual) =
    refuse_if
      (not (same actual.component required.component)
        || not (same actual.revision required.revision))
      (text "journal upstream mismatch")

-- the adapter of a header against the binding of the bundle
unfoldable pub check_journal_adapter :
    AdapterMetadata → AdapterBinding → Result (Unit {0}) Violation
check_journal_adapter metadata required =
    refuse_if
      (not (same metadata.adapter_id required.adapter_id)
        || not (supports metadata.contract_version required.contract_version))
      (text "journal adapter contract mismatch")
    >> check_journal_upstream required.upstream metadata.upstream

module _ {ℓ} {C J : Type ℓ} (serde : RecordSerde C J) where
  -- `validate_header` before the adapter metadata is read
  unfoldable pub check_header_identity : Header (Value C) → Text → Result (Unit {0}) Violation
  check_header_identity header input_json =
      refuse_if
        (not (same header.schema journal_schema)
          || not (same header.bundle_sha256 (serde.digest input_json)))
        (text "journal input binding mismatch")
      >> (check_run_id header.run_id
          >> (check_implementation header.implementation >> check_codecs header.codecs))

  unfoldable pub validate_header :
      Header (Value C)
      → ScenarioBundle (Value C) (Value C)
      → Text
      → Result AdapterMetadata (ExecutionRecordError J)
  unfolding check_header_identity check_journal_adapter
  validate_header header bundle input_json =
      map_err violation (check_header_identity header input_json)
      >> (validate_metadata serde header.adapter >>= λ metadata.
          map_err violation (check_journal_adapter metadata bundle.adapter) >> ok metadata)

pub data JournalRunState : Type 0 where
  completed interrupted engine_failed journal_failed rejected : JournalRunState

pub record JournalRun {ℓ} (I S E J O : Type ℓ) : Type ℓ where
  pub input_json : Text
  pub adapter : AdapterMetadata
  pub evaluation : BatchExecution I S (CallFailure E)
  pub journal_error : Option (JournalError J O)

-- the match on the state of the evaluation
abbrev pub run_state : ExecutionState → JournalRunState
run_state ExecutionState.completed = JournalRunState.completed
run_state ExecutionState.interrupted = JournalRunState.interrupted
run_state ExecutionState.failed = JournalRunState.engine_failed
run_state ExecutionState.rejected = JournalRunState.rejected

abbrev pub is_completed : JournalRunState → Bool
is_completed JournalRunState.completed = true
is_completed _ = false

module _ {ℓ} {I S E J O : Type ℓ} (self : JournalRun I S E J O) where
  -- `JournalRun::state`
  unfoldable pub journal_state : JournalRunState
  unfolding state_of
  journal_state =
      if is_some self.journal_error
      then JournalRunState.journal_failed
      else run_state (state_of self.evaluation)

  -- the match on the result of `BatchExecution::into_completed_batch`
  abbrev pub batch_or_run :
      Result (BatchResult I S) (BatchExecution I S (CallFailure E))
      → Result (BatchResult I S) (JournalRun I S E J O)
  batch_or_run (ok batch) = ok batch
  batch_or_run (err evaluation) = err (record self { evaluation = evaluation })

  -- `JournalRun::into_completed_batch`
  unfoldable pub completed_batch : Result (BatchResult I S) (JournalRun I S E J O)
  unfolding journal_state
  completed_batch =
      if not (is_completed journal_state)
      then err self
      else batch_or_run (Controlled.into_completed_batch self.evaluation)

-- the matches on the status in the accessors of `JournalRun`
abbrev pub status_error {ℓ} : {I E : Type ℓ} → BatchStatus I (CallFailure E) → Option E
status_error (Controlled.engine_failed _ (engine_error error)) = some error
status_error _ = none

abbrev pub status_call {ℓ} : {I E : Type ℓ} → BatchStatus I (CallFailure E) → Option CallTarget
status_call (Controlled.engine_failed (some s) (engine_error _)) = some (scenario_call s.id.value)
status_call (Controlled.engine_failed none (engine_error _)) = some baseline_call
status_call _ = none

abbrev pub status_blocked {ℓ} : {I E : Type ℓ} → BatchStatus I (CallFailure E) → List (Scenario I)
status_blocked (Controlled.engine_failed (some s) blocked_before_engine) = s ∷ []
status_blocked _ = []

abbrev pub status_reason {ℓ} :
    {I E : Type ℓ} → BatchStatus I (CallFailure E) → Option InterruptionReason
status_reason (BatchStatus.interrupted reason) = some reason
status_reason _ = none

-- `JournalRun::engine_error`
abbrev pub run_engine_error {ℓ} : {I S E J O : Type ℓ} → JournalRun I S E J O → Option E
run_engine_error self = status_error self.evaluation.status

-- `JournalRun::failed_call`
abbrev pub failed_call {ℓ} : {I S E J O : Type ℓ} → JournalRun I S E J O → Option CallTarget
failed_call self = status_call self.evaluation.status

-- `JournalRun::never_started`
unfoldable pub never_started {ℓ} : {I S E J O : Type ℓ} → JournalRun I S E J O → List (Scenario I)
never_started self = status_blocked self.evaluation.status ++ self.evaluation.pending

-- `JournalRun::interruption`
unfoldable pub interruption {ℓ} :
    {I S E J O : Type ℓ} → JournalRun I S E J O → Option InterruptionReason
interruption self =
    if is_some self.journal_error then none else status_reason self.evaluation.status
