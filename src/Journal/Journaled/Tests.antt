-- ===== src/Journal/Journaled/Tests.antt =====
-- The batch of a journaled run of the bundle of Record/Fixture.
use prospect_engine.Base.{ℕ, ◌+◌, ◌≡◌, refl, false, none, some, List, [], ◌∷◌, map, ok, err}
use prospect_engine.Base.Ord.{nat_ord}
use prospect_engine.Base.Text.{Text, text, text_cmp, bytes}
use prospect_engine.Base.Key.{text_key, same}
use prospect_engine.Base.Sets.{contains, first_duplicate}
use prospect_engine.Core.{ProspectiveEngine, SignatureMetric, DecisionPolicy, scenario_id_key}
use prospect_engine.Adapter.{namespaced_id_key, supports}
use prospect_engine.Registry.{Registry, new_registry}
use prospect_engine.Bundle.{into_core}
use prospect_engine.Bundle.Json.{Value, canonical_json, scalar, write_value}
use prospect_engine.Bundle.Wire.{wire_ref}
use prospect_engine.Scenario.{BatchResult}
use prospect_engine.Scenario.Controlled.{
  BatchStatus, EvaluationControl, Host, evaluate_with_clock, into_completed_batch,
}
use prospect_engine.Scenario.Controlled.Accounting.{outcome_scenarios}
use prospect_engine.Dispatch.{
  check_upstream, only_candidate, resolve_adapter, resolve_bundle_requirements,
  resolve_required_metric, resolve_required_policy,
}
use prospect_engine.Dispatch.Execution.{
  ExecutableAdapterRegistry, engine_of, entry_engine, owned_metadata_catalog,
}
use prospect_engine.Record.{check_payload}
use prospect_engine.Record.Capture.{Encoders}
use prospect_engine.Record.Fixture.{bundle, bundle_read, bundle_serde, fixture, serde, wire}
use prospect_engine.Record.Verify.{canonical}
use prospect_engine.Journal.Emit.{JournalSerde, append, entry_written, acknowledged}
use prospect_engine.Journal.Evaluate.{JournalRun, completed_batch, journal_state}
use prospect_engine.Journal.Fixture.{header, header_valid, identity}
use prospect_engine.Journal.Journaled.{
  JournalCapture, Prepared, adapter_resolved, evaluate_registered_bundle_journaled, header_checked,
  prepare, run_prepared,
}
use prospect_engine.Journal.Journaled.Batch.{IsFullJournal, completed_batch-IsFullJournal}
use prospect_engine.Journal.Run.{run_session, close_session, end_session}
use prospect_engine.Journal.Run.Fixture.{bounded, itself, bounded-IsFaithful}
use prospect_engine.Journal.Run.Loop.{IsSingleWriter}
use prospect_engine.Journal.Session.{
  call_returned, emit, emitted, evaluate_call, intended, invoke, payload_checked, result_encoded,
  returned, target_found,
}

-- an entry is written as its sequence number
abbrev numbering : JournalSerde Text ℕ
numbering = record {
  library = serde;
  entry_to_value = λ e. ok (scalar ((48 + e.sequence) ∷ []));
  entry_from_str = λ p. err 0;
}

abbrev capture : JournalCapture
capture = record { run_id = text "run"; implementation = identity; codecs = wire.codecs }

abbrev constant : ProspectiveEngine (Value Text) (Value Text) Text Text (List ℕ)
constant = record {
  baseline = λ state w. (ok (text "10"), w);
  evaluate = λ state i w. (ok (text "15"), w);
}

abbrev executable : ExecutableAdapterRegistry (Value Text) (Value Text) Text Text (List ℕ)
executable = record {
  entries = (fixture.adapter_id, record { metadata = fixture; engine = constant }) ∷ [];
}

abbrev no_metrics : Registry (SignatureMetric Text ℕ)
no_metrics = new_registry

abbrev no_policies : Registry (DecisionPolicy Text ℕ)
no_policies = new_registry

abbrev plain : Encoders Text Text (List ℕ)
plain = record { encode_signature = λ s w. (ok s, w); encode_error = λ e w. (ok e, w) }

abbrev single : EvaluationControl (List ℕ)
single = record {
  max_evaluations = 1;
  deadline = none;
  cancellation = record { load = λ _. false; store_true = λ w. w };
}

abbrev calm : Host (List ℕ)
calm = record { now = λ w. (5, w); progress = λ _ w. w }

abbrev prepared : Prepared Text (Value Text) (Value Text) Text Text (List ℕ)
prepared = record { input_json = text "B"; adapter = fixture; engine = constant; header = header }

prepares :
    prepare bundle_serde numbering bundle executable no_metrics no_policies single capture
    ≡ ok prepared
unfolding prepare adapter_resolved header_checked canonical_json write_value wire_ref
    resolve_bundle_requirements resolve_adapter only_candidate check_upstream
    resolve_required_metric resolve_required_policy supports owned_metadata_catalog entry_engine
    engine_of same text_cmp text_key
prepares = rw (bundle_read, header_valid) refl

constant-IsSingleWriter :
    IsSingleWriter numbering (bounded 64) itself header plain constant bundle.state single calm
constant-IsSingleWriter = record {
  faithful = bounded-IsFaithful 64 numbering;
  silent = record { signature_silent = λ x w. refl; error_silent = λ x w. refl };
  baseline_silent = λ w. refl;
  evaluate_silent = λ i w. refl;
  now_silent = λ w. refl;
}

abbrev batch : BatchResult (Value Text) Text
batch = record {
  baseline = text "10";
  outcomes =
      record {
        scenario = record { id = record { value = text "a" }; intervention = scalar (text "5") };
        signature = text "15";
      }
      ∷ [];
}

abbrev finished_run : JournalRun (Value Text) Text Text ℕ ℕ
finished_run = record {
  input_json = text "B";
  adapter = fixture;
  evaluation = record {
    total_scenarios = 1;
    baseline = some batch.baseline;
    outcomes = batch.outcomes;
    pending = [];
    status = BatchStatus.completed;
  };
  journal_error = none;
}

-- The header, two calls with their returns, and the terminal.
abbrev six_lines : List ℕ
six_lines = bytes (text "0\n1\n2\n3\n4\n5\n")

runs :
    evaluate_registered_bundle_journaled bundle_serde numbering bundle executable no_metrics
      no_policies single capture
      (bounded 64)
      plain
      calm
      []
    ≡ (ok finished_run, six_lines)
unfolding evaluate_registered_bundle_journaled run_prepared run_session close_session end_session
    evaluate_with_clock emit emitted append entry_written acknowledged canonical write_value invoke
    intended call_returned returned result_encoded payload_checked evaluate_call target_found
    check_payload first_duplicate contains into_core same text_cmp text_key
runs = rw prepares refl

gives_batch : completed_batch finished_run ≡ ok batch
unfolding completed_batch journal_state into_completed_batch
gives_batch = refl

completed_batch-IsFullJournal_example :
    IsFullJournal bundle_serde numbering bundle executable no_metrics no_policies single capture
      (bounded 64)
      itself
      plain
      calm
      prepared
      prepares
      constant-IsSingleWriter
      six_lines
    × (outcome_scenarios batch.outcomes ≡ map into_core bundle.scenarios)
completed_batch-IsFullJournal_example =
    completed_batch-IsFullJournal bundle_serde numbering bundle executable no_metrics no_policies
      single capture (bounded 64) itself plain calm prepared prepares constant-IsSingleWriter []
      finished_run six_lines batch refl refl runs gives_batch
