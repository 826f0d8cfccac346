-- ===== src/Journal/Run/Complete.antt =====
-- The journal of a run, once its terminal is written.
use prospect_engine.Base.{
  ℕ, ◌+◌, ◌≡◌, refl, sym, ap, subst, ◌∙◌, ◌⊎◌, inl, inr, Bool, true, false, none, some, List, [],
  ◌∷◌, ◌++◌, map, length, length-append, length-map, cons-of_nonempty, is_some, is_empty, ok, ◌==◌,
  arith,
}
use prospect_engine.Base.Text.{Text, text}
use prospect_engine.Base.Key.{text_key}
use prospect_engine.Bundle.Json.{Value}
use prospect_engine.Core.{Scenario, ProspectiveEngine}
use prospect_engine.Scenario.Controlled.{
  BatchExecution, BatchStatus, EvaluationControl, Host, InterruptionReason, duplicate_scenario_id,
  engine_failed, evaluate_with_clock,
}
use prospect_engine.Scenario.Controlled.Accounting.{
  Accounts, evaluate_with_clock-Accounts, failed_candidate, outcome_scenarios,
}
use prospect_engine.Scenario.Controlled.Ends.{
  Fits, Interrupts, IsCoherent, evaluate_with_clock-IsCoherent,
}
use prospect_engine.Record.{
  RecordInterruption, cancelled, deadline_reached, evaluation_limit_reached,
}
use prospect_engine.Record.Capture.{Encoders, record_reason}
use prospect_engine.Journal.{
  Header, Lifecycle, Terminal, completed, default, failed, finished, initialized, inspect_event,
  interrupted,
}
use prospect_engine.Journal.Emit.{JournalSerde, JournalSink, refused}
use prospect_engine.Journal.Phases.{
  Interruptible, Phase, at, baseline_failed, between, idle, scenario_failed,
}
use prospect_engine.Journal.Session.{
  CallFailure, Session, blocked_before_engine, emit, engine_error, recording_engine,
}
use prospect_engine.Journal.Run.{
  beside_control, beside_host, close_session, end_session, evaluate_recorded, fresh_session,
  run_session, terminal_of,
}
use prospect_engine.Journal.Run.Accepts.{
  accepts-baseline_failed, accepts-completed, accepts-interrupted_between, accepts-interrupted_idle,
  accepts-scenario_failed,
}
use prospect_engine.Journal.Run.Calls.{Goes, Goes-of_Emits, IsSilent}
use prospect_engine.Journal.Run.Loop.{Ended, Fit, IsSingleWriter, admitted-Ended}
use prospect_engine.Journal.Run.Written.{
  Emits, Stuck, Stuck-of_Written, Written, emit-Emits, emit-header,
}

ne-of_pending {ℓ} :
    {A : Type ℓ} (k n : ℕ) (pending : List A)
    → k + length pending ≡ n
    → is_empty pending ≡ false
    → (k == n) ≡ false
ne-of_pending k n [] m h = cc
ne-of_pending k n (p ∷ ps) m h = ground (arith, m)

all_done {ℓ} :
    {A : Type ℓ} (k n : ℕ) (pending : List A)
    → k + length pending ≡ n
    → is_empty pending ≡ true
    → k ≡ n
all_done k n [] m h = omega (arith, m)
all_done k n (p ∷ ps) m h = cc

-- the reason of a record that tells the reason of a report
abbrev pub IsReason : InterruptionReason → RecordInterruption → Type 0
IsReason InterruptionReason.cancelled x = x ≡ cancelled
IsReason InterruptionReason.deadline_reached x = x ≡ deadline_reached
IsReason InterruptionReason.evaluation_limit_reached x = x ≡ evaluation_limit_reached

record_reason-IsReason : (reason : InterruptionReason) → IsReason reason (record_reason reason)
record_reason-IsReason InterruptionReason.cancelled = refl
record_reason-IsReason InterruptionReason.deadline_reached = refl
record_reason-IsReason InterruptionReason.evaluation_limit_reached = refl

-- the terminal that tells the end of a report
abbrev pub Tells {ℓ} : {I E : Type ℓ} → BatchStatus I (CallFailure E) → Terminal → Type 0
Tells BatchStatus.completed t = t ≡ completed
Tells (BatchStatus.interrupted reason) t =
    (x : RecordInterruption) × (t ≡ interrupted x) × IsReason reason x
Tells (engine_failed _ (engine_error _)) t = t ≡ failed
Tells (engine_failed _ blocked_before_engine) t = ⊥
Tells (duplicate_scenario_id _) t = ⊥

-- the three ways to be interrupted, in the report and in the journal
Interruptible-of_report {ℓ} :
    {V I S E W : Type ℓ} (header : Header V) (ids : List Text) (control : EvaluationControl W)
    (r : BatchExecution I S E) (reason : InterruptionReason)
    → header.max_evaluations ≡ control.max_evaluations
    → header.deadline_configured ≡ is_some control.deadline
    → length r.outcomes + length r.pending ≡ length ids
    → Interrupts control reason r
    → Interruptible header ids (length r.outcomes) (record_reason reason)
Interruptible-of_report header ids control r InterruptionReason.cancelled q d n i = tt
Interruptible-of_report header ids control r InterruptionReason.deadline_reached q d n i = d ∙ i
Interruptible-of_report header ids control r InterruptionReason.evaluation_limit_reached q d n i =
    (i.1 ∙ sym q, ne-of_pending (length r.outcomes) (length ids) r.pending n i.0)

module _ {ℓ} {C J O W State I S E : Type ℓ} (serde : JournalSerde C J) (sink : JournalSink O W)
    (stored : W → List ℕ) (header : Header (Value C)) (encoders : Encoders S E W)
    (engine : ProspectiveEngine State I S E W) (state : State) (control : EvaluationControl W)
    (host : Host W)
    (single : IsSingleWriter serde sink stored header encoders engine state control host)
    (quota : header.max_evaluations ≡ control.max_evaluations)
    (deadline : header.deadline_configured ≡ is_some control.deadline)
    (all : List (Scenario I)) where
  abbrev ids : List Text
  ids = map (λ s. s.id.value) all

  -- A session that failed, with what it wrote until then; or the whole journal of the report.
  abbrev pub Journaled : BatchStatus I (CallFailure E) → Session J O × W → Type ℓ
  Journaled status u =
      Stuck serde sink stored header ids u
      ⊎ ((t : Terminal) × (l : Lifecycle) × (n : ℕ) × Tells status t
          × (l.terminal ≡ some t)
          × Written serde sink stored header ids l n u)

  duplicate_closed :
      (p : Phase) (n : ℕ) (s : Session J O) (w : W)
      → Written serde sink stored header ids (at p none) n (s, w)
      → Stuck serde sink stored header ids (close_session serde sink none (s, w))
  unfolding close_session end_session
  duplicate_closed p n s w h =
      let live : is_some s.error ≡ false = ap is_some h.no_error in
      rw live (
        Stuck-of_Written serde sink stored header ids (at p none) n s w
          (refused (text "unexpected journal evaluator state")) h)

  finished-Journaled :
      (status : BatchStatus I (CallFailure E)) (t : Terminal) (l l' : Lifecycle) (n : ℕ)
      (s : Session J O) (w : W)
      → terminal_of status ≡ some t
      → Tells status t
      → is_some l.terminal ≡ false
      → l'.terminal ≡ some t
      → inspect_event header ids l (finished t) ≡ ok l'
      → Written serde sink stored header ids l n (s, w)
      → Journaled status (close_session serde sink (terminal_of status) (s, w))
  unfolding close_session end_session
  finished-Journaled status t l l' n s w e d o c q h =
      let live : is_some s.error ≡ false = ap is_some h.no_error in
      rw (e, live)
        (outcome _
          (emit-Emits serde sink stored header ids single.faithful l l' n s w (finished t) h o q))
    where
      outcome :
          (r : Bool × (Session J O × W))
          → Emits serde sink stored header ids l' n r
          → Stuck serde sink stored header ids r.1
            ⊎ ((t' : Terminal) × (l : Lifecycle) × (n : ℕ) × Tells status t'
                × (l.terminal ≡ some t')
                × Written serde sink stored header ids l n r.1)
      outcome (true, u) k = inr (t, l', n, d, c, k)
      outcome (false, u) k = inl k

  module _ (r : BatchExecution I S (CallFailure E)) (accounts : Accounts all r) where
    counted : failed_candidate r.status ≡ [] → length r.outcomes + length r.pending ≡ length ids
    counted e =
        let parts : outcome_scenarios r.outcomes ++ r.pending ≡ all =
          rw⁻¹ (ap (λ xs. outcome_scenarios r.outcomes ++ (xs ++ r.pending)) e)
            (accounts.partition) in
        omega (
          arith,
          length-append (outcome_scenarios r.outcomes) r.pending,
          length-map r.outcomes (λ o. o.scenario),
          length-map all (λ s. s.id.value),
          ap length parts,
        )

    -- the terminal that the report asks for is accepted in the phase that fits the report
    closed-Journaled :
        (status : BatchStatus I (CallFailure E)) (p : Phase) (n : ℕ) (s : Session J O) (w : W)
        → r.status ≡ status
        → Fits (beside_control {X = Session J O} control) status r
        → Fit r status p
        → Written serde sink stored header ids (at p none) n (s, w)
        → Journaled status (close_session serde sink (terminal_of status) (s, w))
    closed-Journaled BatchStatus.completed p n s w e f q h =
        let m = counted (ap failed_candidate e) in
        let k = all_done (length r.outcomes) (length ids) r.pending m f.1 in
        finished-Journaled BatchStatus.completed completed (at (between (length r.outcomes)) none)
          (at (between (length r.outcomes)) (some completed)) n s w refl refl refl refl
          (accepts-completed header ids (length r.outcomes) k)
          (subst (λ x. Written serde sink stored header ids (at x none) n (s, w)) q h)
    closed-Journaled (BatchStatus.interrupted reason) p n s w e f (inl q) h =
        let i =
          Interruptible-of_report header ids (beside_control {X = Session J O} control) r reason
            quota deadline (counted (ap failed_candidate e)) f in
        finished-Journaled (BatchStatus.interrupted reason) (interrupted (record_reason reason))
          (at (between (length r.outcomes)) none)
          (at (between (length r.outcomes)) (some (interrupted (record_reason reason)))) n s w refl
          (record_reason reason, refl, record_reason-IsReason reason) refl refl
          (accepts-interrupted_between header ids (length r.outcomes) (record_reason reason) i)
          (subst (λ x. Written serde sink stored header ids (at x none) n (s, w)) q h)
    closed-Journaled (BatchStatus.interrupted reason) p n s w e f (inr (q, z)) h =
        let i =
          Interruptible-of_report header ids (beside_control {X = Session J O} control) r reason
            quota deadline (counted (ap failed_candidate e)) f in
        finished-Journaled (BatchStatus.interrupted reason) (interrupted (record_reason reason))
          (at idle none) (at idle (some (interrupted (record_reason reason)))) n s w refl
          (record_reason reason, refl, record_reason-IsReason reason) refl refl
          (accepts-interrupted_idle header ids (record_reason reason)
            (subst (λ k. Interruptible header ids k (record_reason reason)) z i))
          (subst (λ x. Written serde sink stored header ids (at x none) n (s, w)) q h)
    closed-Journaled (engine_failed c (engine_error x)) p n s w e f (inl q) h =
        finished-Journaled (engine_failed c (engine_error x)) failed (at baseline_failed none)
          (at baseline_failed (some failed)) n s w refl refl refl refl
          (accepts-baseline_failed header ids)
          (subst (λ x. Written serde sink stored header ids (at x none) n (s, w)) q h)
    closed-Journaled (engine_failed c (engine_error x)) p n s w e f (inr (k, id, q)) h =
        finished-Journaled (engine_failed c (engine_error x)) failed
          (at (scenario_failed k id) none) (at (scenario_failed k id) (some failed)) n s w refl refl
          refl refl (accepts-scenario_failed header ids k id)
          (subst (λ x. Written serde sink stored header ids (at x none) n (s, w)) q h)
    closed-Journaled (engine_failed c blocked_before_engine) p n s w e f q h = absurd q
    closed-Journaled (duplicate_scenario_id id) p n s w e f q h = inl (duplicate_closed p n s w h)

  Ended-Journaled :
      (r : BatchExecution I S (CallFailure E)) (u : Session J O × W)
      → Accounts all r
      → IsCoherent (beside_control {X = Session J O} control) r
      → Ended serde sink stored header encoders engine state control host single quota all (r, u)
      → Journaled r.status (close_session serde sink (terminal_of r.status) u)
  unfolding close_session
  Ended-Journaled r (s, w) a c (inl h) = rw h.0 (inl h)
  Ended-Journaled r (s, w) a c (inr (p, n, h, f)) =
      closed-Journaled r a r.status p n s w refl c.fits f h

  evaluated-Journaled :
      (s : Scenario I) (ss : List (Scenario I)) (u : Session J O × W)
      → all ≡ s ∷ ss
      → Goes serde sink stored header ids encoders default 0 u
      → (let (r, u') = evaluate_recorded serde sink encoders engine state control host all u in
          Journaled r.status (close_session serde sink (terminal_of r.status) u'))
  unfolding evaluate_with_clock
  evaluated-Journaled s ss u e g =
      let (r, u') = evaluate_recorded serde sink encoders engine state control host all u in
      let recorded = recording_engine serde sink encoders ids engine in
      Ended-Journaled r u'
        (evaluate_with_clock-Accounts recorded state (beside_control control) (beside_host host) all
          u)
        (subst
          (λ (xs : List (Scenario I)).
            IsCoherent (beside_control {X = Session J O} control)
              (evaluate_with_clock recorded state (beside_control {X = Session J O} control)
                (beside_host host) xs u).0)
          (sym e)
          (evaluate_with_clock-IsCoherent recorded state (beside_control control) (beside_host host)
            s ss u))
        (admitted-Ended serde sink stored header encoders engine state control host single quota all
          s ss _ u e g)

  -- If the header has the quota of the control and says whether it has a deadline, there is a
  -- scenario, and the sink holds nothing yet, adds the whole line when it acknowledges one, adds a
  -- beginning of the line (nothing, a part or all of it) when it fails, and is written by nothing but
  -- the session, then a journaled run ends in one of two ways. Either its session reports an error,
  -- and the sink holds nothing, a beginning of the line of the header, or a journal and after it
  -- perhaps a beginning of the line of one more event that the lifecycle accepts; or it reports none,
  -- and the sink holds a journal with the terminal of the report. A journal is the lines of the header
  -- and of events that the lifecycle accepts, each the canonical text of its entry, numbered from 0 on
  -- without a gap, with the digest of the line before it, and none in the first, within the limits
  -- of an inspection: on the number of lines, on the bytes of each and on all bytes.
  pub run_session-Journaled :
      (w : W)
      → is_empty all ≡ false
      → stored w ≡ []
      → (let (r, u) = run_session serde sink encoders engine state control host header all w in
          Journaled r.status u)
  unfolding run_session
  run_session-Journaled w h f =
      let (s, ss, e) = cons-of_nonempty all h in
      evaluated-Journaled s ss (emit serde sink fresh_session (initialized header) w).1 e (
        Goes-of_Emits serde sink stored header ids encoders single.faithful silent default 0 _
          (emit-header serde sink stored header ids single.faithful w f))
    where
      silent : IsSilent serde sink stored header ids encoders
      silent = record {
        signature_silent = single.silent.signature_silent;
        error_silent = single.silent.error_silent;
      }
