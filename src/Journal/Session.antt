-- ===== src/Journal/Session.antt =====
-- crates/prospect-dispatch/src/execution/record/journal/evaluation.rs: the engine that records each
-- call before and after it is made. The `RefCell` of the session is a part of the engine's world.
use prospect_engine.Base.{
  ℕ, zero, suc, ◌+◌, Bool, true, false, Option, none, some, List, [], ◌∷◌, map_err, is_some,
  if◌then◌else◌, Result, ok, err,
}
use prospect_engine.Base.Text.{Text, text}
use prospect_engine.Bundle.Json.{Value}
use prospect_engine.Core.{ProspectiveEngine}
use prospect_engine.Record.{Violation, violation, encoding, check_payload}
use prospect_engine.Record.Capture.{Encoders}
use prospect_engine.Journal.{
  CallTarget, Event, baseline_call, scenario_call, call_started, call_succeeded, call_failed,
}
use prospect_engine.Journal.Emit.{
  Emitter, JournalError, JournalSerde, JournalSink, append, contract, refused,
}

pub data CallFailure {ℓ} (E : Type ℓ) : Type ℓ where
  blocked_before_engine : CallFailure E
  engine_error : E → CallFailure E

-- The fields of `Session` that change; the ids and the encoders are arguments of its methods.
pub record Session {ℓ} (J O : Type ℓ) : Type ℓ where
  pub emitter : Emitter
  pub error : Option (JournalError J O)
  pub next : ℕ

-- `ids.get(next)`
abbrev pub nth : List Text → ℕ → Option Text
nth [] n = none
nth (x ∷ xs) zero = some x
nth (x ∷ xs) (suc n) = nth xs n

abbrev pub fail_session {ℓ} : {J O : Type ℓ} → Session J O → JournalError J O → Session J O
fail_session self e = record self { error = some e }

-- `Session::emit` after the append
unfoldable pub emitted {ℓ} :
    {J O W : Type ℓ}
    → Session J O
    → Result (Unit {0}) (JournalError J O) × (Emitter × W)
    → Bool × (Session J O × W)
emitted self (ok _, (emitter, w)) = (true, (record self { emitter = emitter }, w))
emitted self (err e, (emitter, w)) = (false, (record self { emitter = emitter; error = some e }, w))

-- the event of a return
abbrev pub return_event {ℓ κ} :
    {S E : Type ℓ} {V : Type κ} → CallTarget → Result S E → Text → Event V
return_event target (ok _) payload = call_succeeded target payload
return_event target (err _) payload = call_failed target payload

module _ {ℓ} {C J O W : Type ℓ} (serde : JournalSerde C J) (sink : JournalSink O W) where
  -- `Session::emit`
  unfoldable pub emit : Session J O → Event (Value C) → W → Bool × (Session J O × W)
  unfolding emitted append
  emit self event w =
      if is_some self.error
      then (false, (self, w))
      else emitted self (append serde sink self.emitter event w)

  module _ {S E : Type ℓ} (encoders : Encoders S E W) where
    -- the match on the result of a call
    abbrev pub encode_result : Result S E → W → Result Text Text × W
    encode_result (ok signature) w = encoders.encode_signature signature w
    encode_result (err error) w = encoders.encode_error error w

    -- `Session::returned` after `check_payload`
    unfoldable pub payload_checked :
        Session J O
        → CallTarget
        → Result S E
        → Text
        → Result (Unit {0}) Violation
        → W
        → Session J O × W
    unfolding emit
    payload_checked self target result payload (err v) w =
        (fail_session self (contract (violation v)), w)
    payload_checked self target result payload (ok _) w =
        (emit self (return_event target result payload) w).1

    -- `Session::returned` after the encoder
    unfoldable pub result_encoded :
        Session J O → CallTarget → Result S E → Result Text Text × W → Session J O × W
    unfolding payload_checked
    result_encoded self target result (err e, w) = (fail_session self (contract (encoding e)), w)
    result_encoded self target result (ok payload, w) =
        payload_checked self target result payload (check_payload payload) w

    -- `Session::returned`
    unfoldable pub returned : Session J O → CallTarget → Result S E → W → Session J O × W
    unfolding result_encoded
    returned self target result w = result_encoded self target result (encode_result result w)

    -- `invoke` after the call
    unfoldable pub call_returned :
        Session J O → CallTarget → Result S E × W → Result S (CallFailure E) × (Session J O × W)
    unfolding returned
    call_returned self target (result, w) =
        (map_err engine_error result, returned self target result w)

    -- `invoke` after the intent
    unfoldable pub intended :
        CallTarget
        → (W → Result S E × W)
        → Bool × (Session J O × W)
        → Result S (CallFailure E) × (Session J O × W)
    unfolding call_returned
    intended target call (false, s) = (err blocked_before_engine, s)
    intended target call (true, (self, w)) = call_returned self target (call w)

    unfoldable pub invoke :
        CallTarget
        → (W → Result S E × W)
        → Session J O × W
        → Result S (CallFailure E) × (Session J O × W)
    unfolding intended
    invoke target call (self, w) = intended target call (emit self (call_started target) w)

    -- `RecordingEngine::evaluate` after `ids.get(next)`
    unfoldable pub target_found :
        Option Text
        → (W → Result S E × W)
        → Session J O × W
        → Result S (CallFailure E) × (Session J O × W)
    unfolding invoke
    target_found none call (self, w) = (
      err blocked_before_engine,
      (fail_session self (refused (text "journal input order exhausted")), w),
    )
    target_found (some id) call (self, w) =
        invoke (scenario_call id) call (record self { next = self.next + 1 }, w)

    -- `RecordingEngine::evaluate`, for the call of the engine that it wraps
    unfoldable pub evaluate_call :
        List Text
        → (W → Result S E × W)
        → Session J O × W
        → Result S (CallFailure E) × (Session J O × W)
    unfolding target_found
    evaluate_call ids call (self, w) =
        if is_some self.error
        then (err blocked_before_engine, (self, w))
        else target_found (nth ids self.next) call (self, w)

    -- `RecordingEngine`
    abbrev pub recording_engine :
        {State I : Type ℓ}
        → List Text
        → ProspectiveEngine State I S E W
        → ProspectiveEngine State I S (CallFailure E) (Session J O × W)
    recording_engine ids engine = record {
      baseline = λ state u. invoke baseline_call (engine.baseline state) u;
      evaluate = λ state i u. evaluate_call ids (engine.evaluate state i) u;
    }
