-- ===== src/Journal/Run/Calls.antt =====
-- What one recorded call does to a session.
use prospect_engine.Base.{
  ℕ, ◌≡◌, refl, ◌⊎◌, inl, inr, Bool, true, false, List, is_some, Result, ok, err,
}
use prospect_engine.Base.Text.{Text}
use prospect_engine.Base.Key.{text_key}
use prospect_engine.Bundle.Json.{Value}
use prospect_engine.Record.{Violation, violation, encoding, check_payload}
use prospect_engine.Record.Capture.{Encoders}
use prospect_engine.Journal.{
  CallTarget, Header, Lifecycle, call_failed, call_started, call_succeeded, inspect_event,
}
use prospect_engine.Journal.Emit.{JournalSerde, JournalSink, contract}
use prospect_engine.Journal.Session.{
  CallFailure, blocked_before_engine, engine_error, Session, call_returned, encode_result, intended,
  invoke, payload_checked, result_encoded, return_event, returned,
}
use prospect_engine.Journal.Chain.{IsFaithful}
use prospect_engine.Journal.Run.Written.{
  Emits, Stuck, Stuck-of_Written, Written, Written-moves, emit-Emits,
}

module _ {ℓ} {C J O W S E : Type ℓ} (serde : JournalSerde C J) (sink : JournalSink O W)
    (stored : W → List ℕ) (header : Header (Value C)) (ids : List Text)
    (encoders : Encoders S E W) where
  -- encoders that write nothing to the sink
  pub record IsSilent : Type ℓ where
    pub signature_silent : (x : S) (w : W) → stored (encoders.encode_signature x w).1 ≡ stored w
    pub error_silent : (x : E) (w : W) → stored (encoders.encode_error x w).1 ≡ stored w

  -- how the lifecycle goes through a call: before it, during it, after a success, after a failure
  pub record Admits (target : CallTarget) (before during success failure : Lifecycle) : Type ℓ where
    pub open_before : is_some before.terminal ≡ false
    pub open_during : is_some during.terminal ≡ false
    pub starts : inspect_event header ids before (call_started target) ≡ ok during
    pub succeeds :
        (payload : Text)
        → check_payload payload ≡ ok tt
        → inspect_event header ids during (call_succeeded target payload) ≡ ok success
    pub fails :
        (payload : Text)
        → check_payload payload ≡ ok tt
        → inspect_event header ids during (call_failed target payload) ≡ ok failure

  abbrev pub Goes : Lifecycle → ℕ → Session J O × W → Type ℓ
  Goes l n u = Written serde sink stored header ids l n u ⊎ Stuck serde sink stored header ids u

  -- what a recorded call returns with which session
  abbrev pub Returns :
      Lifecycle → Lifecycle → ℕ → Result S (CallFailure E) × (Session J O × W) → Type ℓ
  Returns success failure n (ok _, u) = Goes success n u
  Returns success failure n (err blocked_before_engine, u) = Stuck serde sink stored header ids u
  Returns success failure n (err (engine_error _), u) = Goes failure n u

  module _ (faithful : IsFaithful serde sink stored) (silent : IsSilent) where
    -- what an emission leaves, whether it succeeded or not
    pub Goes-of_Emits :
        (l : Lifecycle) (n : ℕ) (r : Bool × (Session J O × W))
        → Emits serde sink stored header ids l n r
        → Goes l n r.1
    Goes-of_Emits l n (true, u) h = inl h
    Goes-of_Emits l n (false, u) h = inr h

    -- the lifecycle after a return
    abbrev after : Lifecycle → Lifecycle → Result S E → Lifecycle
    after success failure (ok _) = success
    after success failure (err _) = failure

    module _ (target : CallTarget) (before during success failure : Lifecycle) (n : ℕ)
        (admits : Admits target before during success failure) where
      inspect-return_event :
          (result : Result S E) (payload : Text)
          → check_payload payload ≡ ok tt
          → inspect_event header ids during (return_event target result payload)
            ≡ ok (after success failure result)
      inspect-return_event (ok _) payload h = admits.succeeds payload h
      inspect-return_event (err _) payload h = admits.fails payload h

      payload_checked-Goes :
          (s : Session J O) (result : Result S E) (payload : Text) (c : Result (Unit {0}) Violation)
          (w : W)
          → check_payload payload ≡ c
          → Written serde sink stored header ids during n (s, w)
          → Goes
              (after success failure result)
              n
              (payload_checked serde sink encoders s target result payload c w)
      unfolding payload_checked
      payload_checked-Goes s result payload (err v) w q h =
          inr
            (Stuck-of_Written serde sink stored header ids during n s w (contract (violation v)) h)
      payload_checked-Goes s result payload (ok _) w q h =
          Goes-of_Emits (after success failure result) n _ (
            emit-Emits serde sink stored header ids faithful during (after success failure result) n
              s w (return_event target result payload) h admits.open_during
              (inspect-return_event result payload q))

      result_encoded-Goes :
          (s : Session J O) (result : Result S E) (c : Result Text Text × W)
          → Written serde sink stored header ids during n (s, c.1)
          → Goes
              (after success failure result)
              n
              (result_encoded serde sink encoders s target result c)
      unfolding result_encoded
      result_encoded-Goes s result (err e, w) h =
          inr (Stuck-of_Written serde sink stored header ids during n s w (contract (encoding e)) h)
      result_encoded-Goes s result (ok payload, w) h =
          payload_checked-Goes s result payload (check_payload payload) w refl h

      encode_result-silent :
          (result : Result S E) (w : W)
          → stored (encode_result serde sink encoders result w).1 ≡ stored w
      encode_result-silent (ok x) w = silent.signature_silent x w
      encode_result-silent (err x) w = silent.error_silent x w

      returned-Goes :
          (s : Session J O) (result : Result S E) (w : W)
          → Written serde sink stored header ids during n (s, w)
          → Goes (after success failure result) n (returned serde sink encoders s target result w)
      unfolding returned
      returned-Goes s result w h =
          result_encoded-Goes s result (encode_result serde sink encoders result w) (
            Written-moves serde sink stored header ids during n s w _
              (encode_result-silent result w) h)

      call_returned-Returns :
          (s : Session J O) (r : Result S E × W)
          → Written serde sink stored header ids during n (s, r.1)
          → Returns success failure n (call_returned serde sink encoders s target r)
      unfolding call_returned
      call_returned-Returns s (ok x, w) h = returned-Goes s (ok x) w h
      call_returned-Returns s (err x, w) h = returned-Goes s (err x) w h

      module _ (call : W → Result S E × W)
          (call_silent : (w : W) → stored (call w).1 ≡ stored w) where
        intended-Returns :
            (r : Bool × (Session J O × W))
            → Emits serde sink stored header ids during n r
            → Returns success failure n (intended serde sink encoders target call r)
        unfolding intended
        intended-Returns (false, u) h = h
        intended-Returns (true, (s, w)) h =
            call_returned-Returns s (call w)
              (Written-moves serde sink stored header ids during n s w _ (call_silent w) h)

        -- A call that the lifecycle admits, on a session that goes on.
        pub invoke-Returns :
            (u : Session J O × W)
            → Written serde sink stored header ids before n u
            → Returns success failure n (invoke serde sink encoders target call u)
        unfolding invoke
        invoke-Returns (s, w) h = intended-Returns _ (
            emit-Emits serde sink stored header ids faithful before during n s w
              (call_started target) h admits.open_before admits.starts)
