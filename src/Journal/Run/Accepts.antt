-- ===== src/Journal/Run/Accepts.antt =====
-- The events of a journaled run, each accepted by the lifecycle in the phase in which it is written.
use prospect_engine.Base.{
  ℕ, suc, ◌+◌, ◌<◌, ◌≡◌, ◌≢◌, refl, true, false, none, some, List, [], ◌∷◌, ◌++◌, length, ok, ◌==◌,
  ltb, arith,
}
use prospect_engine.Base.Text.{Text}
use prospect_engine.Base.Key.{text_key, same, same_refl}
use prospect_engine.Bundle.Json.{Value}
use prospect_engine.Record.{RecordInterruption}
use prospect_engine.Record.Capture.{Encoders}
use prospect_engine.Journal.{
  Header, Lifecycle, accept, baseline_call, check_terminal, completed, failed, finished,
  inspect_event, interrupt, interrupted, is_at, scenario_call, start, succeed,
}
use prospect_engine.Journal.Emit.{JournalSerde, JournalSink}
use prospect_engine.Journal.Session.{nth}
use prospect_engine.Journal.Phases.{
  Interruptible, at, baseline_failed, between, calling, calling_baseline, idle, scenario_failed,
}
use prospect_engine.Journal.Run.Calls.{Admits}

pub is_at-append :
    (front : List Text) (id : Text) (back : List Text)
    → is_at (front ++ id ∷ back) (length front) id ≡ true
is_at-append [] id back = same_refl id
is_at-append (x ∷ xs) id back = is_at-append xs id back

pub nth-append :
    (front : List Text) (id : Text) (back : List Text)
    → nth (front ++ id ∷ back) (length front) ≡ some id
nth-append [] id back = refl
nth-append (x ∷ xs) id back = nth-append xs id back

module _ {ℓ} {C J O W S E : Type ℓ} (serde : JournalSerde C J) (sink : JournalSink O W)
    (stored : W → List ℕ) (header : Header (Value C)) (ids : List Text)
    (encoders : Encoders S E W) where
  pub baseline-Admits :
      header.max_evaluations ≢ 0
      → Admits serde sink stored header ids encoders baseline_call
          (at idle none)
          (at calling_baseline none)
          (at (between 0) none)
          (at baseline_failed none)
  unfolding inspect_event accept start succeed
  baseline-Admits m =
      let q : (header.max_evaluations == 0) ≡ false = ground (arith, m) in
      record {
        open_before = refl;
        open_during = refl;
        starts = rw q refl;
        succeeds = λ payload h. rw h refl;
        fails = λ payload h. rw h refl;
      }

  pub scenario-Admits :
      (k : ℕ) (id : Text)
      → k < header.max_evaluations
      → is_at ids k id ≡ true
      → Admits serde sink stored header ids encoders
          (scenario_call id)
          (at (between k) none)
          (at (calling k id) none)
          (at (between (suc k)) none)
          (at (scenario_failed k id) none)
  unfolding inspect_event accept start succeed
  scenario-Admits k id m p =
      let q : (header.max_evaluations == 0) ≡ false = ground (arith, m) in
      let below : ltb k header.max_evaluations ≡ true = ground (arith, m) in
      let e : k + 1 ≡ suc k = omega arith in
      let target : same id id ≡ true = same_refl id in
      record {
        open_before = refl;
        open_during = refl;
        starts = rw (q, below, p, e) refl;
        succeeds = λ payload h. rw (h, target, e) refl;
        fails = λ payload h. rw (h, target) refl;
      }

module _ {ℓ} {V : Type ℓ} (header : Header V) (ids : List Text) where
  pub accepts-completed :
      (k : ℕ)
      → k ≡ length ids
      → inspect_event header ids (at (between k) none) (finished completed)
        ≡ ok (at (between k) (some completed))
  unfolding inspect_event accept check_terminal
  accepts-completed k e = let q : (k == length ids) ≡ true = ground (arith, e) in rw q refl

  pub accepts-baseline_failed :
      inspect_event header ids (at baseline_failed none) (finished failed)
      ≡ ok (at baseline_failed (some failed))
  unfolding inspect_event accept check_terminal
  accepts-baseline_failed = refl

  pub accepts-scenario_failed :
      (k : ℕ) (id : Text)
      → inspect_event header ids (at (scenario_failed k id) none) (finished failed)
        ≡ ok (at (scenario_failed k id) (some failed))
  unfolding inspect_event accept check_terminal
  accepts-scenario_failed k id = refl

  interrupt-of_Interruptible :
      (k : ℕ) (l : Lifecycle) (r : RecordInterruption)
      → l.started ≡ k
      → l.successful ≡ k
      → Interruptible header ids k r
      → interrupt header ids l r ≡ ok tt
  unfolding interrupt
  interrupt-of_Interruptible k l RecordInterruption.cancelled a b h = refl
  interrupt-of_Interruptible k l RecordInterruption.deadline_reached a b h = rw h refl
  interrupt-of_Interruptible k l RecordInterruption.evaluation_limit_reached a b h =
      ground (arith, a, b, h.0, h.1)

  pub accepts-interrupted_between :
      (k : ℕ) (r : RecordInterruption)
      → Interruptible header ids k r
      → inspect_event header ids (at (between k) none) (finished (interrupted r))
        ≡ ok (at (between k) (some (interrupted r)))
  unfolding inspect_event accept check_terminal
  accepts-interrupted_between k r h =
      rw (interrupt-of_Interruptible k (at (between k) none) r refl refl h) refl

  pub accepts-interrupted_idle :
      (r : RecordInterruption)
      → Interruptible header ids 0 r
      → inspect_event header ids (at idle none) (finished (interrupted r))
        ≡ ok (at idle (some (interrupted r)))
  unfolding inspect_event accept check_terminal
  accepts-interrupted_idle r h = rw (interrupt-of_Interruptible 0 (at idle none) r refl refl h) refl
