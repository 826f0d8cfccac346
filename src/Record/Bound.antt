-- ===== src/Record/Bound.antt =====
-- crates/prospect-dispatch/src/execution/record.rs: an evaluation that is bound to the text of its
-- bundle, and the record that is captured from it. `typed` converts the caller's own state and
-- interventions; `library` is what the verification of a record uses.
use prospect_engine.Base.{
  ℕ, ◌≡◌, ◌↔◌, refl, subst, false, map, is_empty, is_some, length, ltb, if◌then◌else◌, Result, ok,
  err, ◌>>=◌, Result-cases, inl, inr, arith,
}
use mathlib.Core.List.{map-map}
use prospect_engine.Base.Ord.{Ord}
use prospect_engine.Base.Text.{Text, text}
use prospect_engine.Base.Effects.{Effect}
use prospect_engine.Core.{SignatureMetric, DecisionPolicy}
use prospect_engine.Registry.{Registry}
use prospect_engine.Bundle.{ScenarioBundle, ScenarioBundleError, into_core}
use prospect_engine.Bundle.Json.{Value, Serde, canonical_json}
use prospect_engine.Scenario.Controlled.{EvaluationControl, Host}
use prospect_engine.Dispatch.Execution.{ExecutableAdapterRegistry, BundleExecutionError}
use prospect_engine.Dispatch.Invariant.{IsWellKeyed}
use prospect_engine.Dispatch.Controlled.{
  RegisteredBatchExecution, Reports, evaluate_registered_bundle_controlled,
  evaluate_registered_bundle_controlled-reports,
}
use prospect_engine.Record.{
  Violation, invalid, ExecutionRecordError, violation, PayloadCodecs, RecordWire, max_record_bytes,
  max_record_scenarios, check_record,
}
use prospect_engine.Record.Capture.{BoundBundleEvaluation, Encoders, Library, capture_wire}
use prospect_engine.Record.Capture.Complete.{HasShortError, capture_wire-check_record_iff}
use prospect_engine.Record.Verify.{
  ExecutionRecord, RecordSerde, parse_bundle, canonical, scenario_ids, verify_against_bundle,
}

pub data BoundEvaluationError {ℓ} (E J : Type ℓ) : Type ℓ where
  input : ExecutionRecordError J → BoundEvaluationError E J
  dispatch : BundleExecutionError E → BoundEvaluationError E J

-- what `capture_record` uses of the libraries
abbrev pub capture_library {ℓ} : {C J : Type ℓ} → RecordSerde C J → Library (Value C) J
capture_library serde = record { to_value = serde.metadata_to_value; digest = serde.digest }

-- `BoundBundleEvaluation::capture_record`
module _ {ℓ} {C J I S E W : Type ℓ} (serde : RecordSerde C J)
    (self : BoundBundleEvaluation I S E) where
  -- `capture_record` after the wire struct is made
  unfoldable pub wire_captured :
      Result (RecordWire (Value C)) (ExecutionRecordError J) × (ℕ × W)
      → Result (ExecutionRecord (Value C)) (ExecutionRecordError J) × W
  wire_captured (err e, (_, w)) = (err e, w)
  wire_captured (ok wire, (_, w)) = (
    canonical serde (serde.record_to_value wire) >>= λ payload.
        verify_against_bundle serde payload self.input_json,
    w,
  )

  unfoldable pub capture_record :
      Text
      → PayloadCodecs
      → Encoders S E W
      → Effect W (ExecutionRecordError J) (ExecutionRecord (Value C))
  unfolding wire_captured
  capture_record run_id codecs encoders w =
      wire_captured
        (capture_wire (capture_library serde) self run_id codecs encoders (max_record_bytes, w))

-- `parse_bundle(&input_json)?`
abbrev pub input_parsed {ℓ} :
    {E J A : Type ℓ} → Text → Result A Violation → Result Text (BoundEvaluationError E J)
input_parsed input_json (err v) = err (input (violation v))
input_parsed input_json (ok _) = ok input_json

-- the match on `bundle.canonical_json()`
abbrev pub serialized {ℓ} :
    {C E J : Type ℓ}
    → RecordSerde C J
    → Result Text (ScenarioBundleError J)
    → Result Text (BoundEvaluationError E J)
serialized serde (err e) = err (input (violation (invalid (text "bundle serialization failed"))))
serialized serde (ok input_json) = input_parsed input_json (parse_bundle serde input_json)

-- the admission of `evaluate_registered_bundle_bound`
unfoldable pub admit {ℓ} :
    {C J State I E : Type ℓ}
    → Serde C State I J
    → RecordSerde C J
    → ScenarioBundle State I
    → Result Text (BoundEvaluationError E J)
admit typed serde bundle =
    if ltb max_record_scenarios (length bundle.scenarios)
    then err (input (violation (invalid (text "too many scenarios"))))
    else serialized serde (canonical_json typed bundle)

-- `evaluate_registered_bundle_bound` after the evaluation
unfoldable pub bound_returned {ℓ} :
    {I S E J W : Type ℓ}
    → EvaluationControl W
    → Text
    → Result (RegisteredBatchExecution I S E) (BundleExecutionError E) × W
    → Result (BoundBundleEvaluation I S E) (BoundEvaluationError E J) × W
bound_returned control input_json (err e, w) = (err (dispatch e), w)
bound_returned control input_json (ok report, w) = (
  ok (record {
    input_json = input_json;
    max_evaluations = control.max_evaluations;
    deadline_configured = is_some control.deadline;
    report = report;
  }),
  w,
)

module _ {ℓ} {C J State I S E W M P : Type ℓ} (typed : Serde C State I J) (serde : RecordSerde C J)
    (bundle : ScenarioBundle State I) (adapters : ExecutableAdapterRegistry State I S E W)
    (metrics : Registry (SignatureMetric S M)) (policies : Registry (DecisionPolicy S P))
    (control : EvaluationControl W) (host : Host W) where
  -- `evaluate_registered_bundle_bound` after the admission
  unfoldable pub input_admitted :
      Result Text (BoundEvaluationError E J)
      → Effect W (BoundEvaluationError E J) (BoundBundleEvaluation I S E)
  unfolding bound_returned
  input_admitted (err e) w = (err e, w)
  input_admitted (ok input_json) w =
      bound_returned control input_json
        (evaluate_registered_bundle_controlled bundle control host adapters metrics policies w)

  unfoldable pub evaluate_registered_bundle_bound :
      Effect W (BoundEvaluationError E J) (BoundBundleEvaluation I S E)
  unfolding input_admitted admit
  evaluate_registered_bundle_bound = input_admitted (admit typed serde bundle)

-- what a bound evaluation keeps of its run
record Keeps {ℓ} {State I S E W : Type ℓ} (bundle : ScenarioBundle State I)
    (control : EvaluationControl W) (self : BoundBundleEvaluation I S E) : Type ℓ where
  quota : self.max_evaluations ≡ control.max_evaluations
  deadline : self.deadline_configured ≡ is_some control.deadline
  reports : Reports bundle control self.report

module _ {ℓ} {C J State I S E W M P : Type ℓ} ⦃o : Ord P⦄ (typed : Serde C State I J)
    (serde : RecordSerde C J) (bundle : ScenarioBundle State I)
    (adapters : ExecutableAdapterRegistry State I S E W) (metrics : Registry (SignatureMetric S M))
    (policies : Registry (DecisionPolicy S P)) (control : EvaluationControl W) (host : Host W)
    (keyed : IsWellKeyed adapters) (nonempty : is_empty bundle.scenarios ≡ false) where
  bound_returned-Keeps :
      (input_json : Text) (w : W) (self : BoundBundleEvaluation I S E) (w' : W)
      → bound_returned {J = J} control input_json
          (evaluate_registered_bundle_controlled bundle control host adapters metrics policies w)
        ≡ (ok self, w')
      → Keeps bundle control self
  unfolding bound_returned
  bound_returned-Keeps input_json w self w' h =
      elim (evaluate_registered_bundle_controlled-reports bundle control host adapters metrics
        policies w keyed nonempty) [
          | inl r ↦ absurd (ground (arith, rw r.2 at h))
          | inr r ↦
              let e : record {
                input_json = input_json;
                max_evaluations = control.max_evaluations;
                deadline_configured = is_some control.deadline;
                report = r.0;
              }
                  ≡ self =
                ground (arith, rw r.2 at h) in
              subst (Keeps bundle control) e
                (record { quota = refl; deadline = refl; reports = r.3 })
        ]

  evaluate_registered_bundle_bound-Keeps :
      (w : W) (self : BoundBundleEvaluation I S E) (w' : W)
      → evaluate_registered_bundle_bound typed serde bundle adapters metrics policies control host w
        ≡ (ok self, w')
      → Keeps bundle control self
  unfolding evaluate_registered_bundle_bound input_admitted
  evaluate_registered_bundle_bound-Keeps w self w' h =
      elim (Result-cases (admit {E = E} typed serde bundle)) [
        | inl (input_json, q) ↦ bound_returned-Keeps input_json w self w' (rw q at h)
        | inr (e, q) ↦ absurd (ground (arith, rw q at h))
      ]

  -- If every entry of the executable registry stands under its own id and the bundle has a scenario,
  -- a record that is captured from a bound evaluation passes the lifecycle checks of a record that
  -- is read, on the scenario ids of the bundle, exactly when its error payload, if any, is short
  -- enough: however the run ended, the checks refuse no genuine record for another reason.
  pub capture_wire-of_bound_iff :
      (w : W) (self : BoundBundleEvaluation I S E) (w' : W)
      → evaluate_registered_bundle_bound typed serde bundle adapters metrics policies control host w
        ≡ (ok self, w')
      → (run_id : Text) (codecs : PayloadCodecs) (encoders : Encoders S E W) (v : ℕ × W)
        (wire : RecordWire (Value C)) (v' : ℕ × W)
      → capture_wire (capture_library serde) self run_id codecs encoders v ≡ (ok wire, v')
      → (check_record wire (scenario_ids bundle) ≡ ok tt) ↔ HasShortError wire.terminal
  unfolding into_core
  capture_wire-of_bound_iff w self w' h run_id codecs encoders v wire v' c =
      let k = evaluate_registered_bundle_bound-Keeps w self w' h in
      subst (λ ids. (check_record wire ids ≡ ok tt) ↔ HasShortError wire.terminal)
        (map-map (λ s. s.id.value) into_core bundle.scenarios)
        (capture_wire-check_record_iff (capture_library serde) self run_id codecs control k.quota
          k.deadline (map into_core bundle.scenarios) k.reports.accounts k.reports.coherent encoders
          v wire v' c)
