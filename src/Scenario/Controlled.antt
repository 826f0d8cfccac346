-- ===== src/Scenario/Controlled.antt =====
-- crates/prospect-scenario/src/controlled.rs: sequential evaluation under a quota, a deadline and
-- a shared cancellation signal.
-- `W` is everything that calls, callbacks, the clock and other threads share; the signal is a cell
-- of it, and each call maps the world before it to the world after it. Instants are numbers.
pub mod Rules
pub mod Accounting
pub mod Gate
pub mod Refinement
pub mod Ends
use prospect_engine.Base.{
  ℕ, zero, suc, ◌+◌, ◌≡◌, Bool, true, false, ◌&&◌, Option, none, some, List, [], ◌∷◌, ◌++◌, map,
  Result, ok, err, if◌then◌else◌, leb, ◌==◌, not, length,
}
use prospect_engine.Base.Sets.{first_duplicate}
use prospect_engine.Core.{ScenarioId, Scenario, ProspectiveEngine, scenario_id_key}
use prospect_engine.Scenario.{ScenarioOutcome, BatchResult}

-- The shared flag behind an `Arc<AtomicBool>`: how it is read and how `true` is stored in it.
pub record CancellationToken {ℓ} (W : Type ℓ) : Type ℓ where
  pub load : W → Bool
  pub store_true : W → W

unfoldable pub cancel {ℓ} : {W : Type ℓ} → CancellationToken W → W → W
cancel token w = token.store_true w

unfoldable pub is_cancelled {ℓ} : {W : Type ℓ} → CancellationToken W → W → Bool
is_cancelled token w = token.load w

pub record EvaluationControl {ℓ} (W : Type ℓ) : Type ℓ where
  pub max_evaluations : ℕ
  pub deadline : Option ℕ
  pub cancellation : CancellationToken W

-- `EvaluationControl::new`, given the signal that `CancellationToken::new` makes.
unfoldable pub new_control {ℓ} : {W : Type ℓ} → ℕ → CancellationToken W → EvaluationControl W
new_control max fresh = record { max_evaluations = max; deadline = none; cancellation = fresh }

unfoldable pub with_deadline {ℓ} : {W : Type ℓ} → EvaluationControl W → ℕ → EvaluationControl W
with_deadline control deadline = record control { deadline = some deadline }

unfoldable pub with_cancellation {ℓ} :
    {W : Type ℓ} → EvaluationControl W → CancellationToken W → EvaluationControl W
with_cancellation control token = record control { cancellation = token }

pub data InterruptionReason : Type 0 where
  cancelled deadline_reached evaluation_limit_reached : InterruptionReason

-- `self.deadline.is_some_and(|deadline| now >= deadline)`
abbrev pub expired : Option ℕ → ℕ → Bool
expired none now = false
expired (some deadline) now = leb deadline now

unfoldable pub interruption_at {ℓ} :
    {W : Type ℓ} → EvaluationControl W → W → ℕ → ℕ → ℕ → Option InterruptionReason
unfolding is_cancelled
interruption_at control w now count pending =
    if is_cancelled control.cancellation w
    then some cancelled
    else if expired control.deadline now
    then some deadline_reached
    else if not (pending == 0) && leb control.max_evaluations count
    then some evaluation_limit_reached
    else none

pub data ExecutionState : Type 0 where
  completed interrupted failed rejected : ExecutionState

pub data BatchStatus {ℓ} (I E : Type ℓ) : Type ℓ where
  completed : BatchStatus I E
  interrupted : InterruptionReason → BatchStatus I E
  engine_failed : Option (Scenario I) → E → BatchStatus I E
  duplicate_scenario_id : ScenarioId → BatchStatus I E

pub record BatchExecution {ℓ} (I S E : Type ℓ) : Type ℓ where
  pub total_scenarios : ℕ
  pub baseline : Option S
  pub outcomes : List (ScenarioOutcome I S)
  pub pending : List (Scenario I)
  pub status : BatchStatus I E

abbrev pub status_state {ℓ} : {I E : Type ℓ} → BatchStatus I E → ExecutionState
status_state BatchStatus.completed = ExecutionState.completed
status_state (BatchStatus.interrupted _) = ExecutionState.interrupted
status_state (engine_failed _ _) = failed
status_state (duplicate_scenario_id _) = rejected

-- `BatchExecution::state`
unfoldable pub state_of {ℓ} : {I S E : Type ℓ} → BatchExecution I S E → ExecutionState
state_of report = status_state report.status

-- The match of `into_completed_batch` on the baseline and the status.
complete {ℓ} :
    {I S E : Type ℓ}
    → Option S
    → BatchStatus I E
    → BatchExecution I S E
    → Result (BatchResult I S) (BatchExecution I S E)
complete (some baseline) BatchStatus.completed report =
    ok (record { baseline = baseline; outcomes = report.outcomes })
complete _ _ report = err report

unfoldable pub into_completed_batch {ℓ} :
    {I S E : Type ℓ} → BatchExecution I S E → Result (BatchResult I S) (BatchExecution I S E)
unfolding complete
into_completed_batch report = complete report.baseline report.status report

pub data ProgressEvent : Type 0 where
  baseline_completed : ProgressEvent
  scenario_completed : ℕ → ScenarioId → ProgressEvent
  finished : ExecutionState → ProgressEvent

pub record ProgressUpdate : Type 0 where
  pub event : ProgressEvent
  pub completed_scenarios : ℕ
  pub total_scenarios : ℕ

-- The caller's part of a run: the clock and the progress callback, which may change the world.
pub record Host {ℓ} (W : Type ℓ) : Type ℓ where
  pub now : W → ℕ × W
  pub progress : ProgressUpdate → W → W

module _ {ℓ} {State I S E W : Type ℓ} (engine : ProspectiveEngine State I S E W) (state : State)
    (control : EvaluationControl W) (host : Host W) where
  -- `control.interruption_at(now(), completed, pending)`
  unfoldable pub checkpoint : W → ℕ → ℕ → Option InterruptionReason × W
  unfolding interruption_at
  checkpoint w count pending =
      let (now, w') = host.now w in (interruption_at control w' now count pending, w')

  -- `break` with the reason, or go on.
  unfoldable pub on_checkpoint :
      (InterruptionReason → BatchExecution I S E)
      → (W → BatchExecution I S E × W)
      → Option InterruptionReason × W
      → BatchExecution I S E × W
  on_checkpoint stop go (some reason, w) = (stop reason, w)
  on_checkpoint stop go (none, w) = go w

  -- The loop of `evaluate_with_clock` once the baseline is there, over the unstarted scenarios.
  module _ (total : ℕ) (baseline : S) where
    abbrev pub report :
        List (ScenarioOutcome I S) → List (Scenario I) → BatchStatus I E → BatchExecution I S E
    report outcomes pending status = record {
      total_scenarios = total;
      baseline = some baseline;
      outcomes = outcomes;
      pending = pending;
      status = status;
    }

    -- The match on the result of `engine.evaluate`.
    unfoldable pub candidate_returned :
        Scenario I
        → List (Scenario I)
        → List (ScenarioOutcome I S)
        → (List (ScenarioOutcome I S) → W → BatchExecution I S E × W)
        → Result S E × W
        → BatchExecution I S E × W
    candidate_returned s pending outcomes continue (ok signature, w) =
        let index = length outcomes in
        continue (outcomes ++ record { scenario = s; signature = signature } ∷ []) (
          host.progress
            (record {
              event = scenario_completed index s.id;
              completed_scenarios = index + 1;
              total_scenarios = total;
            })
            w)
    candidate_returned s pending outcomes continue (err error, w) =
        (report outcomes pending (engine_failed (some s) error), w)

    unfoldable pub run_candidates :
        List (Scenario I) → List (ScenarioOutcome I S) → W → BatchExecution I S E × W
    unfolding on_checkpoint candidate_returned checkpoint
    run_candidates [] outcomes w =
        on_checkpoint (λ reason. report outcomes [] (BatchStatus.interrupted reason))
          (λ w'. (report outcomes [] BatchStatus.completed, w')) (checkpoint w (length outcomes) 0)
    run_candidates (s ∷ ss) outcomes w =
        on_checkpoint (λ reason. report outcomes (s ∷ ss) (BatchStatus.interrupted reason))
          (λ w'.
            candidate_returned s ss outcomes (run_candidates ss)
              (engine.evaluate state s.intervention w'))
          (checkpoint w (length outcomes) (length (s ∷ ss)))

  -- A report with no baseline: nothing but the baseline call was made.
  abbrev pub unstarted : List (Scenario I) → BatchStatus I E → BatchExecution I S E
  unstarted scenarios status = record {
    total_scenarios = length scenarios;
    baseline = none;
    outcomes = [];
    pending = scenarios;
    status = status;
  }

  -- The match on the result of `engine.baseline`, and the rest of the loop.
  unfoldable pub baseline_returned : List (Scenario I) → Result S E × W → BatchExecution I S E × W
  unfolding run_candidates
  baseline_returned scenarios (ok baseline, w) =
      let total = length scenarios in
      run_candidates total baseline scenarios [] (
        host.progress
          (record { event = baseline_completed; completed_scenarios = 0; total_scenarios = total })
          w)
  baseline_returned scenarios (err error, w) = (unstarted scenarios (engine_failed none error), w)

  -- The `if let Some(id) = duplicate { … } else { loop … }`.
  unfoldable pub admitted : List (Scenario I) → Option ScenarioId → W → BatchExecution I S E × W
  unfolding baseline_returned on_checkpoint checkpoint
  admitted scenarios (some id) w = (unstarted scenarios (duplicate_scenario_id id), w)
  admitted scenarios none w =
      on_checkpoint (λ reason. unstarted scenarios (BatchStatus.interrupted reason))
        (λ w'. baseline_returned scenarios (engine.baseline state w'))
        (checkpoint w 0 (length scenarios))

  -- The last notification.
  unfoldable pub notify_finished : BatchExecution I S E × W → BatchExecution I S E × W
  unfolding state_of
  notify_finished (done, w) = (
    done,
    host.progress
        (record {
          event = finished (state_of done);
          completed_scenarios = length done.outcomes;
          total_scenarios = done.total_scenarios;
        })
        w,
  )

  unfoldable pub evaluate_with_clock : List (Scenario I) → W → BatchExecution I S E × W
  unfolding admitted notify_finished
  evaluate_with_clock scenarios w =
      notify_finished (admitted scenarios (first_duplicate [] (map (λ s. s.id) scenarios)) w)
