-- ===== src/Journal.antt =====
-- crates/prospect-dispatch/src/execution/record/journal.rs: the lifecycle that the call events of an
-- execution journal must follow, and the part of the inspection loop that feeds it, on events that
-- are already decoded. `V` is `serde_json::Value`.
use prospect_engine.Base.{
  is_some, ℕ, zero, suc, ◌+◌, ◌≡◌, Bool, true, false, not, ◌&&◌, ◌||◌, Option, none, some, List, [],
  ◌∷◌, length, ◌==◌, ltb, if◌then◌else◌, Result, ok, err, ◌>>=◌, ◌>>◌,
}
use prospect_engine.Base.Text.{Text, text, bytes}
use prospect_engine.Base.Key.{text_key, same}
use prospect_engine.Record.{
  Violation, invalid, RecordInterruption, cancelled, deadline_reached, evaluation_limit_reached,
  check_payload, PayloadCodecs,
}
pub mod Phases
pub mod Steps
pub mod Order
pub mod Emit
pub mod Session
pub mod Run
pub mod Chain
pub mod Evaluate
pub mod Journaled
pub mod Inspect
pub mod Fixture
mod Tests

pub data CallTarget : Type 0 where
  baseline_call : CallTarget
  scenario_call : Text → CallTarget

pub data Terminal : Type 0 where
  completed : Terminal
  interrupted : RecordInterruption → Terminal
  failed : Terminal

pub record EngineIdentity : Type 0 where
  pub component : Text
  pub revision : Text
  pub artifact_sha256 : Text

pub record Header {ℓ} (V : Type ℓ) : Type ℓ where
  pub schema : Text
  pub run_id : Text
  pub bundle_sha256 : Text
  pub adapter : V
  pub implementation : EngineIdentity
  pub codecs : PayloadCodecs
  pub max_evaluations : ℕ
  pub deadline_configured : Bool

pub data Event {ℓ} (V : Type ℓ) : Type ℓ where
  initialized : Header V → Event V
  call_started : CallTarget → Event V
  call_succeeded : CallTarget → Text → Event V
  call_failed : CallTarget → Text → Event V
  finished : Terminal → Event V

pub record Lifecycle : Type 0 where
  pub baseline : Bool
  pub started : ℕ
  pub successful : ℕ
  pub active : Option CallTarget
  pub failure : Option CallTarget
  pub terminal : Option Terminal

-- `Lifecycle::default`
abbrev pub default : Lifecycle
default = record {
  baseline = false;
  started = 0;
  successful = 0;
  active = none;
  failure = none;
  terminal = none;
}

-- the derived `PartialEq` of `CallTarget`
abbrev pub same_target : CallTarget → CallTarget → Bool
same_target baseline_call baseline_call = true
same_target (scenario_call a) (scenario_call b) = same a b
same_target _ _ = false

-- `self.active.as_ref() == Some(target)`
abbrev pub is_active : Option CallTarget → CallTarget → Bool
is_active none target = false
is_active (some active) target = same_target active target

-- `bundle.scenarios().get(index).is_some_and(|s| s.id().as_str() == id)`, on the ids in order
abbrev pub is_at : List Text → ℕ → Text → Bool
is_at [] index id = false
is_at (x ∷ xs) zero id = same x id
is_at (x ∷ xs) (suc index) id = is_at xs index id

module _ {ℓ} {V : Type ℓ} (header : Header V) (ids : List Text) (self : Lifecycle) where
  -- the match on the target of a call intent
  unfoldable pub start : CallTarget → Result Lifecycle Violation
  start baseline_call =
      if not self.baseline && self.started == 0
      then ok (record self { active = some baseline_call })
      else err (invalid (text "call target out of order or quota exceeded"))
  start (scenario_call id) =
      if self.baseline && ltb self.started header.max_evaluations && is_at ids self.started id
      then ok (record self { started = self.started + 1; active = some (scenario_call id) })
      else err (invalid (text "call target out of order or quota exceeded"))

  -- a return for the active call
  unfoldable pub succeed : CallTarget → Lifecycle
  succeed baseline_call = record self { baseline = true; active = none }
  succeed (scenario_call _) = record self { successful = self.successful + 1; active = none }

  -- the match on the reason of an interruption
  unfoldable pub interrupt : RecordInterruption → Result (Unit {0}) Violation
  interrupt cancelled = ok tt
  interrupt deadline_reached =
      if not header.deadline_configured
      then err (invalid (text "deadline not configured"))
      else ok tt
  interrupt evaluation_limit_reached =
      if not (self.successful == header.max_evaluations) || self.started == length ids
      then err (invalid (text "invalid quota interruption"))
      else ok tt

  -- the match on the terminal
  unfoldable pub check_terminal : Terminal → Result (Unit {0}) Violation
  check_terminal completed =
      if not self.baseline || is_some self.failure || not (self.successful == length ids)
      then err (invalid (text "incomplete journal relabelled completed"))
      else ok tt
  check_terminal failed =
      if not (is_some self.failure)
      then err (invalid (text "terminal failure without failed call"))
      else ok tt
  check_terminal (interrupted reason) =
      if is_some self.failure
      then err (invalid (text "engine error replaced by interruption"))
      else interrupt reason

  -- `Lifecycle::accept`
  unfoldable pub accept : Event V → Result Lifecycle Violation
  accept (initialized _) = err (invalid (text "unexpected journal header"))
  accept (call_started target) =
      if is_some self.active || is_some self.failure || header.max_evaluations == 0
      then err (invalid (text "inadmissible call intent"))
      else start target
  accept (call_succeeded target payload) =
      check_payload payload
      >> (if not (is_active self.active target)
          then err (invalid (text "return without matching intent"))
          else ok (succeed target))
  accept (call_failed target error_payload) =
      check_payload error_payload
      >> (if not (is_active self.active target)
          then err (invalid (text "failure without matching intent"))
          else ok (record self { failure = some target; active = none }))
  accept (finished terminal) =
      if is_some self.active
      then err (invalid (text "terminal while call result is unknown"))
      else (check_terminal terminal >> ok (record self { terminal = some terminal }))

-- The match on an event after the first: a second header is refused before the lifecycle sees it.
unfoldable pub inspect_event {ℓ} :
    {V : Type ℓ} → Header V → List Text → Lifecycle → Event V → Result Lifecycle Violation
inspect_event header ids self (initialized _) = err (invalid (text "duplicate journal header"))
inspect_event header ids self (call_started target) = accept header ids self (call_started target)
inspect_event header ids self (call_succeeded target payload) =
    accept header ids self (call_succeeded target payload)
inspect_event header ids self (call_failed target payload) =
    accept header ids self (call_failed target payload)
inspect_event header ids self (finished terminal) = accept header ids self (finished terminal)

-- The loop of `inspect_execution_journal` after the header, on decoded events.
unfoldable pub replay {ℓ} :
    {V : Type ℓ} → Header V → List Text → Lifecycle → List (Event V) → Result Lifecycle Violation
replay header ids self [] = ok self
replay header ids self (event ∷ events) =
    if is_some self.terminal
    then err (invalid (text "bytes after journal terminal"))
    else (inspect_event header ids self event >>= λ next. replay header ids next events)
