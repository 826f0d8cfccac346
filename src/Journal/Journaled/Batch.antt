-- ===== src/Journal/Journaled/Batch.antt =====
-- When the result of a journaled evaluation gives out a batch.
use prospect_engine.Base.{
  ℕ, ◌≡◌, refl, sym, ap, subst, ◌∙◌, inl, inr, false, Option, none, some, List, [], map, is_some,
  is_empty, map_err, ok_or, Result, ok, err, ltb, length, bind-ok, Bool-cases, arith,
}
use prospect_engine.Base.Text.{Text}
use prospect_engine.Core.{Scenario, ProspectiveEngine, SignatureMetric, DecisionPolicy}
use prospect_engine.Adapter.{AdapterMetadata}
use prospect_engine.Registry.{Registry}
use prospect_engine.Bundle.{ScenarioBundle, into_core}
use prospect_engine.Bundle.Json.{Value, Serde}
use prospect_engine.Scenario.{BatchResult, ScenarioOutcome}
use prospect_engine.Scenario.Controlled.{
  BatchExecution, BatchStatus, EvaluationControl, Host, duplicate_scenario_id, engine_failed,
  into_completed_batch,
}
use prospect_engine.Scenario.Controlled.Accounting.{outcome_scenarios}
use prospect_engine.Scenario.Controlled.Gate.{into_completed_batch_opens}
use prospect_engine.Dispatch.Execution.{ExecutableAdapterRegistry}
use prospect_engine.Record.Capture.{Encoders}
use prospect_engine.Journal.{Lifecycle, Terminal}
use prospect_engine.Journal.Emit.{Emitter, JournalError, JournalSerde, JournalSink}
use prospect_engine.Journal.Evaluate.{JournalRun, batch_or_run, completed_batch, journal_state}
use prospect_engine.Journal.Session.{CallFailure, Session, recording_engine}
use prospect_engine.Bundle.Json.{canonical_json}
use prospect_engine.Dispatch.{resolve_bundle_requirements}
use prospect_engine.Dispatch.Execution.{engine_of, owned_metadata_catalog}
use prospect_engine.Record.Verify.Checks.{ok_injective}
use prospect_engine.Journal.Run.{beside_control, beside_host, run_session}
use prospect_engine.Journal.Run.Loop.{IsSingleWriter}
use prospect_engine.Journal.Run.Written.{IsJournal}
use prospect_engine.Journal.Run.Complete.{Journaled, Tells, run_session-Journaled}
use prospect_engine.Record.{json, max_record_scenarios}
use prospect_engine.Record.Bound.{input}
use prospect_engine.Record.Verify.{parse_bundle}
use prospect_engine.Journal.Evaluate.{validate_header}
use prospect_engine.Journal.Journaled.{
  JournalCapture, Prepared, adapter_resolved, dispatch_refused, engine_missing,
  evaluate_registered_bundle_journaled, header_checked, header_of, parse_refused, prepare, run_of,
  run_prepared, serialized_input,
}

module _ {ℓ} {I S E : Type ℓ} (total : ℕ) (baseline : Option S)
    (outcomes : List (ScenarioOutcome I S)) (pending : List (Scenario I)) where
  abbrev report_with : BatchStatus I (CallFailure E) → BatchExecution I S (CallFailure E)
  report_with status = record {
    total_scenarios = total;
    baseline = baseline;
    outcomes = outcomes;
    pending = pending;
    status = status;
  }

module _ {ℓ} {I S E J O : Type ℓ} (input_json : Text) (adapter : AdapterMetadata) (total : ℕ)
    (baseline : Option S) (outcomes : List (ScenarioOutcome I S))
    (pending : List (Scenario I)) where
  abbrev run_with : BatchStatus I (CallFailure E) → Option (JournalError J O) → JournalRun I S E J O
  run_with status error = record {
    input_json = input_json;
    adapter = adapter;
    evaluation = report_with total baseline outcomes pending status;
    journal_error = error;
  }

  into-ok :
      (status : BatchStatus I (CallFailure E)) (error : Option (JournalError J O))
      (r : Result (BatchResult I S) (BatchExecution I S (CallFailure E))) (batch : BatchResult I S)
      → batch_or_run (run_with status error) r ≡ ok batch
      → r ≡ ok batch
  into-ok status error (ok b) batch h = ground (arith, h)
  into-ok status error (err e) batch h = absurd (ground (arith, h))

  completed_batch-ok :
      (status : BatchStatus I (CallFailure E)) (error : Option (JournalError J O))
      (batch : BatchResult I S)
      → completed_batch (run_with status error) ≡ ok batch
      → (error ≡ none)
        × (status ≡ BatchStatus.completed)
        × (into_completed_batch (report_with total baseline outcomes pending status) ≡ ok batch)
  unfolding completed_batch journal_state
  completed_batch-ok status (some e) batch h = absurd (ground (arith, h))
  completed_batch-ok BatchStatus.completed none batch h =
      (refl, refl, into-ok BatchStatus.completed none _ batch h)
  completed_batch-ok (BatchStatus.interrupted r) none batch h = absurd (ground (arith, h))
  completed_batch-ok (engine_failed s e) none batch h = absurd (ground (arith, h))
  completed_batch-ok (duplicate_scenario_id id) none batch h = absurd (ground (arith, h))

module _ {ℓ} {C J State I S E W M P : Type ℓ} (typed : Serde C State I J) (serde : JournalSerde C J)
    (bundle : ScenarioBundle State I) (adapters : ExecutableAdapterRegistry State I S E W)
    (metrics : Registry (SignatureMetric S M)) (policies : Registry (DecisionPolicy S P))
    (control : EvaluationControl W) (capture : JournalCapture) where
  -- the header has the quota and the deadline of the control
  abbrev pub Heads : Prepared C State I S E W → Type 0
  Heads prepared =
      (prepared.header.max_evaluations ≡ control.max_evaluations)
      × (prepared.header.deadline_configured ≡ is_some control.deadline)

  header_checked-Heads :
      (input_json : Text) (parsed : ScenarioBundle (Value C) (Value C)) (adapter : AdapterMetadata)
      (engine : ProspectiveEngine State I S E W) (prepared : Prepared C State I S E W)
      → header_checked typed serde bundle adapters metrics policies control capture input_json
          parsed adapter engine
        ≡ ok prepared
      → Heads prepared
  unfolding header_checked
  header_checked-Heads input_json parsed adapter engine prepared h =
      let (value, _, h₁) =
        bind-ok (map_err (λ e. input (json e)) (serde.library.metadata_to_value adapter)) _ h in
      let header =
        header_of typed serde bundle adapters metrics policies control capture input_json value in
      let (_, _, h₂) =
        bind-ok (map_err input (validate_header serde.library header parsed input_json)) _ h₁ in
      let e : record {
        input_json = input_json;
        adapter = adapter;
        engine = engine;
        header = header;
      }
          ≡ prepared =
        ok_injective h₂ in
      subst Heads e (refl, refl)

  adapter_resolved-Heads :
      (input_json : Text) (parsed : ScenarioBundle (Value C) (Value C))
      (prepared : Prepared C State I S E W)
      → adapter_resolved typed serde bundle adapters metrics policies control capture input_json
          parsed
        ≡ ok prepared
      → Heads prepared
  unfolding adapter_resolved
  adapter_resolved-Heads input_json parsed prepared h =
      let (resolved, _, h₁) =
        bind-ok
          (map_err dispatch_refused
            (resolve_bundle_requirements bundle (owned_metadata_catalog adapters) metrics policies))
          _ h in
      let (engine, _, h₂) =
        bind-ok
          (ok_or (engine_of adapters resolved.adapter.adapter_id.value)
            (engine_missing resolved.adapter))
          _ h₁ in
      header_checked-Heads input_json parsed resolved.adapter engine prepared h₂

  prepare-Heads :
      (prepared : Prepared C State I S E W)
      → prepare typed serde bundle adapters metrics policies control capture ≡ ok prepared
      → Heads prepared
  unfolding prepare
  prepare-Heads prepared h =
      elim (Bool-cases (ltb max_record_scenarios (length bundle.scenarios))) [
        | inl b ↦ absurd (ground (arith, rw b at h))
        | inr b ↦
            let (input_json, _, h₁) =
              bind-ok (serialized_input {E = E} (canonical_json typed bundle)) _ (rw b at h) in
            let (parsed, _, h₂) =
              bind-ok (map_err parse_refused (parse_bundle serde.library input_json)) _ h₁ in
            adapter_resolved-Heads input_json parsed prepared h₂
      ]

  module _ {O : Type ℓ} (sink : JournalSink O W) (stored : W → List ℕ) (encoders : Encoders S E W)
      (host : Host W) (prepared : Prepared C State I S E W)
      (prepares : prepare typed serde bundle adapters metrics policies control capture
        ≡ ok prepared)
      (single : IsSingleWriter serde sink stored prepared.header encoders prepared.engine
        bundle.state control host) where
    abbrev pub scenarios : List (Scenario I)
    scenarios = map into_core bundle.scenarios

    -- the sink holds the whole journal of a completed run
    abbrev pub IsFullJournal : W → Type ℓ
    IsFullJournal w =
        (l : Lifecycle) × (last : Emitter) × (l.terminal ≡ some Terminal.completed)
        × IsJournal serde sink stored prepared.header (map (λ s. s.id.value) scenarios) l (stored w)
            last

    terminal-completed :
        (status : BatchStatus I (CallFailure E)) (u : Session J O × W)
        → status ≡ BatchStatus.completed
        → u.0.error ≡ none
        → Journaled serde sink stored prepared.header encoders prepared.engine bundle.state control
            host single
            (prepare-Heads prepared prepares).0
            (prepare-Heads prepared prepares).1
            scenarios
            status
            u
        → IsFullJournal u.1
    terminal-completed status u e n (inl h) = absurd (ground (arith, n, h.0))
    terminal-completed status u e n (inr (t, l, k, q, c, h)) =
        (l, u.0.emitter, c ∙ ap some (subst (λ x. Tells x t) e q), h.journal)

    -- the run of the session and what is made of it
    abbrev session_run : W → BatchExecution I S (CallFailure E) × (Session J O × W)
    session_run w =
        run_session serde sink encoders prepared.engine bundle.state control host prepared.header
          scenarios w

    abbrev made : W → JournalRun I S E J O × W
    made w =
        run_of typed serde bundle adapters metrics policies control capture sink encoders host
          prepared (session_run w)

    completed-outcomes :
        (w : W) (batch : BatchResult I S)
        → (session_run w).0.status ≡ BatchStatus.completed
        → into_completed_batch (session_run w).0 ≡ ok batch
        → outcome_scenarios batch.outcomes ≡ scenarios
    unfolding run_session
    completed-outcomes w batch e h =
        let (b, opens, outcomes, _) =
          into_completed_batch_opens
            (recording_engine serde sink encoders (map (λ s. s.id.value) scenarios) prepared.engine)
            bundle.state (beside_control control) (beside_host host) scenarios _ e in
        let q : b ≡ batch = ok_injective (sym opens ∙ h) in
        subst (λ (x : BatchResult I S). outcome_scenarios x.outcomes ≡ scenarios) q outcomes

    made-IsFullJournal :
        (w : W) (batch : BatchResult I S)
        → is_empty scenarios ≡ false
        → stored w ≡ []
        → completed_batch (made w).0 ≡ ok batch
        → IsFullJournal (made w).1 × (outcome_scenarios batch.outcomes ≡ scenarios)
    made-IsFullJournal w batch m f b =
        let (r, u) = session_run w in
        let (n, e, opens) =
          completed_batch-ok prepared.input_json prepared.adapter r.total_scenarios r.baseline
            r.outcomes r.pending r.status u.0.error batch b in
        (
          terminal-completed r.status u e n (
              run_session-Journaled serde sink stored prepared.header encoders prepared.engine
                bundle.state control host single (prepare-Heads prepared prepares).0
                (prepare-Heads prepared prepares).1 scenarios w m f),
          completed-outcomes w batch e opens,
        )

    -- A batch comes out of a journaled evaluation only if its journal is whole: if the bundle has a
    -- scenario, and the sink holds nothing yet, adds the whole line when it acknowledges one, adds a
    -- beginning of the line (nothing, a part or all of it) when it fails, and is written by nothing but
    -- the session, then whenever the evaluation returns and `into_completed_batch` gives a batch, the
    -- sink holds a journal that ends as completed, and nothing more, and the outcomes of the batch are
    -- for exactly the scenarios of the bundle, in order. A journal is the lines of the header and of
    -- events that the lifecycle accepts, each the canonical text of its entry, numbered from 0 on
    -- without a gap, with the digest of the line before it, and none in the first, within the limits
    -- of an inspection: on the number of lines, on the bytes of each and on all bytes.
    pub completed_batch-IsFullJournal :
        (w : W) (run : JournalRun I S E J O) (w' : W) (batch : BatchResult I S)
        → is_empty scenarios ≡ false
        → stored w ≡ []
        → evaluate_registered_bundle_journaled typed serde bundle adapters metrics policies control
            capture sink encoders host w
          ≡ (ok run, w')
        → completed_batch run ≡ ok batch
        → IsFullJournal w' × (outcome_scenarios batch.outcomes ≡ scenarios)
    unfolding evaluate_registered_bundle_journaled run_prepared
    completed_batch-IsFullJournal w run w' batch m f h b =
        let k = rw prepares at h in
        let p : made w ≡ (run, w') = λ i. (ok_injective (ap (λ x. x.0) k) i, (k i).1) in
        subst
          (λ (x : JournalRun I S E J O × W).
            completed_batch x.0 ≡ ok batch
            → IsFullJournal x.1 × (outcome_scenarios batch.outcomes ≡ scenarios))
          p (made-IsFullJournal w batch m f) b
