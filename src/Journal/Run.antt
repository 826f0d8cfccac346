-- ===== src/Journal/Run.antt =====
-- crates/prospect-dispatch/src/execution/record/journal/evaluation.rs: a controlled evaluation that is
-- journaled, from the header to the terminal. The clock and the cancellation token work on the world
-- beside the session; there is no progress callback.
use prospect_engine.Base.{ℕ, Bool, Option, none, some, List, map, is_some, if◌then◌else◌}
use prospect_engine.Base.Text.{Text, text}
use prospect_engine.Bundle.Json.{Value}
use prospect_engine.Core.{Scenario, ProspectiveEngine}
use prospect_engine.Scenario.Controlled.{
  BatchExecution, BatchStatus, CancellationToken, EvaluationControl, Host, engine_failed,
  duplicate_scenario_id, evaluate_with_clock,
}
use prospect_engine.Record.Capture.{Encoders, record_reason}
pub mod Written
pub mod Calls
pub mod Accepts
pub mod Loop
pub mod Complete
pub mod Fixture
mod Tests
use prospect_engine.Journal.{
  Header, Terminal, initialized, finished, completed, interrupted, failed,
}
use prospect_engine.Journal.Emit.{Emitter, JournalError, JournalSerde, JournalSink, refused}
use prospect_engine.Journal.Session.{
  CallFailure, blocked_before_engine, engine_error, Session, fail_session, emit, recording_engine,
}

-- the caller's clock and token, on a world with the session
abbrev pub beside_host {ℓ} : {X W : Type ℓ} → Host W → Host (X × W)
beside_host host = record {
  now = λ u. let (t, w) = host.now u.1 in (t, (u.0, w));
  progress = λ update u. u;
}

abbrev pub beside_control {ℓ} : {X W : Type ℓ} → EvaluationControl W → EvaluationControl (X × W)
beside_control control = record {
  max_evaluations = control.max_evaluations;
  deadline = control.deadline;
  cancellation = record {
    load = λ u. control.cancellation.load u.1;
    store_true = λ u. (u.0, control.cancellation.store_true u.1);
  };
}

abbrev pub fresh_emitter : Emitter
fresh_emitter = record { sequence = 0; previous = none; bytes = 0 }

abbrev pub fresh_session {ℓ} : {J O : Type ℓ} → Session J O
fresh_session = record { emitter = fresh_emitter; error = none; next = 0 }

-- the match on the status of the evaluation
abbrev pub terminal_of {ℓ} : {I E : Type ℓ} → BatchStatus I (CallFailure E) → Option Terminal
terminal_of BatchStatus.completed = some completed
terminal_of (BatchStatus.interrupted reason) = some (interrupted (record_reason reason))
terminal_of (engine_failed _ (engine_error _)) = some failed
terminal_of (engine_failed _ blocked_before_engine) = none
terminal_of (duplicate_scenario_id _) = none

module _ {ℓ} {C J O W : Type ℓ} (serde : JournalSerde C J) (sink : JournalSink O W) where
  -- `if let Some(terminal) = terminal { … } else { … }`
  unfoldable pub end_session : Option Terminal → Session J O × W → Session J O × W
  end_session (some terminal) (self, w) = (emit serde sink self (finished terminal) w).1
  end_session none (self, w) =
      (fail_session self (refused (text "unexpected journal evaluator state")), w)

  -- the session after the evaluation
  unfoldable pub close_session : Option Terminal → Session J O × W → Session J O × W
  unfolding end_session
  close_session terminal (self, w) =
      if is_some self.error then (self, w) else end_session terminal (self, w)

  module _ {State I S E : Type ℓ} (encoders : Encoders S E W)
      (engine : ProspectiveEngine State I S E W) (state : State) (control : EvaluationControl W)
      (host : Host W) where
    -- the controlled evaluation on the recording engine
    abbrev pub evaluate_recorded :
        List (Scenario I) → Session J O × W → BatchExecution I S (CallFailure E) × (Session J O × W)
    evaluate_recorded scenarios u =
        evaluate_with_clock
          (recording_engine serde sink encoders (map (λ s. s.id.value) scenarios) engine) state
          (beside_control control) (beside_host host) scenarios u

    -- the report, and the session once the terminal is written
    abbrev pub closed :
        BatchExecution I S (CallFailure E) × (Session J O × W)
        → BatchExecution I S (CallFailure E) × (Session J O × W)
    closed (evaluation, u) = (evaluation, close_session (terminal_of evaluation.status) u)

    -- `evaluate_registered_bundle_journaled` from the session on
    unfoldable pub run_session :
        Header (Value C)
        → List (Scenario I)
        → W
        → BatchExecution I S (CallFailure E) × (Session J O × W)
    unfolding close_session
    run_session header scenarios w =
        closed
          (evaluate_recorded scenarios (emit serde sink fresh_session (initialized header) w).1)
