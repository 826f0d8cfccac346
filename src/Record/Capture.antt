-- ===== src/Record/Capture.antt =====
-- crates/prospect-dispatch/src/execution/record.rs: how a finished controlled evaluation becomes the
-- wire form of a record. The encoders of the caller may fail and may change the world. Serde's value
-- `V` of the adapter metadata and the hexadecimal SHA-256 digest come from libraries.
use prospect_engine.Base.{
  ℕ, ◌+◌, ◌-◌, Bool, Option, none, some, List, [], ◌∷◌, map, length, ltb, if◌then◌else◌, Result, ok,
  err, ◌>>◌,
}
use prospect_engine.Base.Text.{Text, text, bytes}
use prospect_engine.Base.Effects.{Effect, ◌>>=◌, return}
use prospect_engine.Core.{Scenario}
use prospect_engine.Adapter.{AdapterMetadata}
use prospect_engine.Scenario.{ScenarioOutcome}
use prospect_engine.Scenario.Controlled.{
  BatchExecution, BatchStatus, InterruptionReason, engine_failed, duplicate_scenario_id,
}
use prospect_engine.Dispatch.Controlled.{RegisteredBatchExecution}
use prospect_engine.Record.{
  Violation, invalid, ExecutionRecordError, json, violation, encoding, PayloadCodecs,
  RecordInterruption, RecordTerminal, StoredOutcome, RecordWire, max_record_bytes, refuse,
  check_payload,
}
pub mod Complete

abbrev pub execution_record_schema_v1 : Text
execution_record_schema_v1 = text "prospect.bundle-evaluation-record/v1"

-- `KIND`
abbrev pub evidence_kind : Text
evidence_kind = text "software_execution_report"

pub record BoundBundleEvaluation {ℓ} (I S E : Type ℓ) : Type ℓ where
  pub input_json : Text
  pub max_evaluations : ℕ
  pub deadline_configured : Bool
  pub report : RegisteredBatchExecution I S E

-- the two closures of the caller
pub record Encoders {ℓ} (S E W : Type ℓ) : Type ℓ where
  pub encode_signature : S → W → Result Text Text × W
  pub encode_error : E → W → Result Text Text × W

-- `serde_json::to_value` of the adapter metadata, with errors `J`, and the digest of an input
pub record Library {ℓ} (V J : Type ℓ) : Type ℓ where
  pub to_value : AdapterMetadata → Result V J
  pub digest : Text → Text

-- `check_payload`, and the limit on all payloads together; the bytes that are left
unfoldable pub charge : ℕ → Text → Result ℕ Violation
charge remaining payload =
    check_payload payload
    >> (if ltb remaining (length (bytes payload))
        then refuse (text "cumulative encoded payload limit")
        else ok (remaining - length (bytes payload)))

-- `encode_checked` after `charge`; the bytes that are left stand with the world
abbrev pub charged {ℓ} :
    {W J : Type ℓ}
    → ℕ
    → Text
    → W
    → Result ℕ Violation
    → Result Text (ExecutionRecordError J) × (ℕ × W)
charged remaining payload w (err v) = (err (violation v), (remaining, w))
charged remaining payload w (ok left) = (ok payload, (left, w))

-- `encode_checked` after the encoder returned
unfoldable pub encoded {ℓ} :
    {W J : Type ℓ} → ℕ → Result Text Text × W → Result Text (ExecutionRecordError J) × (ℕ × W)
encoded remaining (err e, w) = (err (encoding e), (remaining, w))
encoded remaining (ok payload, w) = charged remaining payload w (charge remaining payload)

unfoldable pub encode_checked {ℓ} :
    {S E W J : Type ℓ} → Encoders S E W → S → Effect (ℕ × W) (ExecutionRecordError J) Text
unfolding encoded
encode_checked encoders signature (remaining, w) =
    encoded remaining (encoders.encode_signature signature w)

-- `baseline.map(encode_checked).transpose()`
unfoldable pub encode_baseline {ℓ} :
    {S E W J : Type ℓ}
    → Encoders S E W
    → Option S
    → Effect (ℕ × W) (ExecutionRecordError J) (Option Text)
encode_baseline encoders none = return none
encode_baseline encoders (some signature) =
    encode_checked encoders signature >>= λ payload. return (some payload)

-- the iteration over the outcomes, which stops at the first error
unfoldable pub encode_outcomes {ℓ} :
    {I S E W J : Type ℓ}
    → Encoders S E W
    → List (ScenarioOutcome I S)
    → Effect (ℕ × W) (ExecutionRecordError J) (List StoredOutcome)
encode_outcomes encoders [] = return []
encode_outcomes encoders (outcome ∷ outcomes) =
    encode_checked encoders outcome.signature >>= λ payload.
    encode_outcomes encoders outcomes >>= λ rest.
    return (record { scenario_id = outcome.scenario.id.value; payload = payload } ∷ rest)

abbrev pub record_reason : InterruptionReason → RecordInterruption
record_reason InterruptionReason.cancelled = RecordInterruption.cancelled
record_reason InterruptionReason.deadline_reached = RecordInterruption.deadline_reached
record_reason InterruptionReason.evaluation_limit_reached =
    RecordInterruption.evaluation_limit_reached

-- `scenario.as_ref().map(|s| s.id().as_str().to_owned())`
abbrev pub failed_id {ℓ} : {I : Type ℓ} → Option (Scenario I) → Option Text
failed_id none = none
failed_id (some s) = some s.id.value

-- a failure after its error is encoded
abbrev pub failure_encoded {ℓ} :
    {I W J : Type ℓ}
    → Option (Scenario I)
    → Result Text Text × W
    → Result RecordTerminal (ExecutionRecordError J) × W
failure_encoded s (err e, w) = (err (encoding e), w)
failure_encoded s (ok payload, w) = (ok (RecordTerminal.failed (failed_id s) payload), w)

-- the match on the status
unfoldable pub encode_terminal {ℓ} :
    {I S E W J : Type ℓ}
    → Encoders S E W
    → BatchStatus I E
    → Effect W (ExecutionRecordError J) RecordTerminal
encode_terminal encoders BatchStatus.completed w = (ok RecordTerminal.completed, w)
encode_terminal encoders (BatchStatus.interrupted reason) w =
    (ok (RecordTerminal.interrupted (record_reason reason)), w)
encode_terminal encoders (engine_failed scenario error) w =
    failure_encoded scenario (encoders.encode_error error w)
encode_terminal encoders (duplicate_scenario_id id) w =
    (err (violation (invalid (text "a validated bundle cannot contain duplicate scenarios"))), w)

-- the terminal is encoded without the byte limit of the closure
abbrev pub encode_terminal_after {ℓ} :
    {I S E W J : Type ℓ}
    → Encoders S E W
    → BatchStatus I E
    → Effect (ℕ × W) (ExecutionRecordError J) RecordTerminal
encode_terminal_after encoders status (remaining, w) =
    let (t, w') = encode_terminal encoders status w in (t, (remaining, w'))

module _ {ℓ} {I S E V J : Type ℓ} (library : Library V J) (self : BoundBundleEvaluation I S E)
    (run_id : Text) (codecs : PayloadCodecs) where
  abbrev pub wire_of : Option Text → List StoredOutcome → RecordTerminal → V → RecordWire V
  wire_of baseline outcomes terminal adapter = record {
    schema = execution_record_schema_v1;
    evidence_kind = evidence_kind;
    run_id = run_id;
    bundle_sha256 = library.digest self.input_json;
    bundle_id = self.report.bundle_id;
    seed = self.report.seed;
    adapter = adapter;
    max_evaluations = self.max_evaluations;
    deadline_configured = self.deadline_configured;
    codecs = codecs;
    baseline = baseline;
    outcomes = outcomes;
    pending = map (λ s. s.id.value) self.report.evaluation.pending;
    terminal = terminal;
  }

  -- `serde_json::to_value(self.report.adapter())?` and the wire struct
  abbrev pub assembled :
      {W : Type ℓ}
      → Option Text
      → List StoredOutcome
      → RecordTerminal
      → Result V J
      → Effect (ℕ × W) (ExecutionRecordError J) (RecordWire V)
  assembled baseline outcomes terminal (err e) w = (err (json e), w)
  assembled baseline outcomes terminal (ok adapter) w =
      (ok (wire_of baseline outcomes terminal adapter), w)

  -- `capture_record` up to the wire struct, with the bytes that the payloads leave
  unfoldable pub capture_wire :
      {W : Type ℓ} → Encoders S E W → Effect (ℕ × W) (ExecutionRecordError J) (RecordWire V)
  capture_wire encoders =
      let evaluation = self.report.evaluation in
      encode_baseline encoders evaluation.baseline >>= λ baseline.
      encode_outcomes encoders evaluation.outcomes >>= λ outcomes.
      encode_terminal_after encoders evaluation.status >>= λ terminal.
      assembled baseline outcomes terminal (library.to_value self.report.adapter)
