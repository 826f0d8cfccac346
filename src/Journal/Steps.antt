-- ===== src/Journal/Steps.antt =====
-- What one accepted event does to the phase.
use prospect_engine.Base.{ℕ, zero, suc, ◌≡◌, refl, ap, true, none, some, List, [], ◌∷◌, ok, arith}
use prospect_engine.Base.Text.{Text}
use prospect_engine.Base.Key.{text_key, same→eq}
use prospect_engine.Record.{
  RecordInterruption, check_payload, cancelled, deadline_reached, evaluation_limit_reached,
}
use prospect_engine.Journal.{
  CallTarget, Terminal, Header, Event, Lifecycle, is_at, start, succeed, interrupt, check_terminal,
  accept, inspect_event, baseline_call, scenario_call, initialized, call_started, call_succeeded,
  call_failed, finished, completed, interrupted, failed,
}
use prospect_engine.Journal.Phases.{
  Phase, idle, calling_baseline, baseline_failed, between, calling, scenario_failed, at, drop,
  Within, Interruptible, Step,
}

is_at-drop :
    (ids : List Text) (k : ℕ) (id : Text)
    → is_at ids k id ≡ true
    → drop k ids ≡ id ∷ drop (suc k) ids
is_at-drop [] k id h = cc
is_at-drop (x ∷ xs) zero id h = ap (λ y. y ∷ xs) (same→eq x id h)
is_at-drop (x ∷ xs) (suc k) id h = is_at-drop xs k id h

module _ {ℓ} {V : Type ℓ} (header : Header V) (ids : List Text) where
  start-baseline :
      (p : Phase) (l : Lifecycle)
      → accept header ids (at p none) (call_started baseline_call) ≡ ok l
      → Step header ids p (call_started baseline_call) l
  unfolding accept start
  start-baseline idle l h = (calling_baseline, none, ground (arith, h), refl, tt, tt)
  start-baseline calling_baseline l h = absurd (ground (arith, h))
  start-baseline baseline_failed l h = absurd (ground (arith, h))
  start-baseline (between k) l h = absurd (ground (arith, h))
  start-baseline (calling k id) l h = absurd (ground (arith, h))
  start-baseline (scenario_failed k id) l h = absurd (ground (arith, h))

  start-scenario :
      (p : Phase) (id : Text) (l : Lifecycle)
      → accept header ids (at p none) (call_started (scenario_call id)) ≡ ok l
      → Step header ids p (call_started (scenario_call id)) l
  unfolding accept start
  start-scenario (between k) id l h = (
    calling k id,
    none,
    ground (arith, h),
    rw (is_at-drop ids k id (ground (arith, h))) refl,
    ground (arith, h),
    tt,
  )
  start-scenario idle id l h = absurd (ground (arith, h))
  start-scenario calling_baseline id l h = absurd (ground (arith, h))
  start-scenario baseline_failed id l h = absurd (ground (arith, h))
  start-scenario (calling k _) id l h = absurd (ground (arith, h))
  start-scenario (scenario_failed k _) id l h = absurd (ground (arith, h))

  succeed-Step :
      (p : Phase) (target : CallTarget) (payload : Text) (l : Lifecycle)
      → Within header p
      → accept header ids (at p none) (call_succeeded target payload) ≡ ok l
      → Step header ids p (call_succeeded target payload) l
  unfolding accept check_payload succeed
  succeed-Step calling_baseline baseline_call payload l w h =
      (between 0, none, ground (arith, h), refl, ground arith, tt)
  succeed-Step (calling k id) (scenario_call x) payload l w h =
      (between (suc k), none, ground (arith, h), refl, w, tt)
  succeed-Step (calling k id) baseline_call payload l w h = absurd (ground (arith, h))
  succeed-Step calling_baseline (scenario_call x) payload l w h = absurd (ground (arith, h))
  succeed-Step idle target payload l w h = absurd (ground (arith, h))
  succeed-Step baseline_failed target payload l w h = absurd (ground (arith, h))
  succeed-Step (between k) target payload l w h = absurd (ground (arith, h))
  succeed-Step (scenario_failed k id) target payload l w h = absurd (ground (arith, h))

  fail-Step :
      (p : Phase) (target : CallTarget) (payload : Text) (l : Lifecycle)
      → Within header p
      → accept header ids (at p none) (call_failed target payload) ≡ ok l
      → Step header ids p (call_failed target payload) l
  unfolding accept check_payload
  fail-Step calling_baseline baseline_call payload l w h =
      (baseline_failed, none, ground (arith, h), refl, tt, tt)
  fail-Step (calling k id) (scenario_call x) payload l w h =
      (scenario_failed k x, none, ground (arith, h), refl, w, tt)
  fail-Step (calling k id) baseline_call payload l w h = absurd (ground (arith, h))
  fail-Step calling_baseline (scenario_call x) payload l w h = absurd (ground (arith, h))
  fail-Step idle target payload l w h = absurd (ground (arith, h))
  fail-Step baseline_failed target payload l w h = absurd (ground (arith, h))
  fail-Step (between k) target payload l w h = absurd (ground (arith, h))
  fail-Step (scenario_failed k id) target payload l w h = absurd (ground (arith, h))

  interrupt-ok :
      (k : ℕ) (l : Lifecycle) (r : RecordInterruption)
      → l.started ≡ k
      → l.successful ≡ k
      → interrupt header ids l r ≡ ok tt
      → Interruptible header ids k r
  unfolding interrupt
  interrupt-ok k l cancelled a b h = tt
  interrupt-ok k l deadline_reached a b h = ground (arith, h)
  interrupt-ok k l evaluation_limit_reached a b h = ground (arith, h)

  finish-Step :
      (p : Phase) (t : Terminal) (l : Lifecycle)
      → Within header p
      → accept header ids (at p none) (finished t) ≡ ok l
      → Step header ids p (finished t) l
  unfolding accept check_terminal
  finish-Step idle completed l w h = absurd (ground (arith, h))
  finish-Step idle failed l w h = absurd (ground (arith, h))
  finish-Step idle (interrupted r) l w h = (
    idle,
    some (interrupted r),
    ground (arith, h),
    refl,
    tt,
    interrupt-ok 0 (at idle none) r refl refl (ground (arith, h)),
  )
  finish-Step (between k) completed l w h =
      (between k, some completed, ground (arith, h), refl, w, ground (arith, h))
  finish-Step (between k) failed l w h = absurd (ground (arith, h))
  finish-Step (between k) (interrupted r) l w h = (
    between k,
    some (interrupted r),
    ground (arith, h),
    refl,
    w,
    interrupt-ok k (at (between k) none) r refl refl (ground (arith, h)),
  )
  finish-Step baseline_failed failed l w h =
      (baseline_failed, some failed, ground (arith, h), refl, tt, tt)
  finish-Step baseline_failed completed l w h = absurd (ground (arith, h))
  finish-Step baseline_failed (interrupted r) l w h = absurd (ground (arith, h))
  finish-Step (scenario_failed k id) failed l w h =
      (scenario_failed k id, some failed, ground (arith, h), refl, w, tt)
  finish-Step (scenario_failed k id) completed l w h = absurd (ground (arith, h))
  finish-Step (scenario_failed k id) (interrupted r) l w h = absurd (ground (arith, h))
  finish-Step calling_baseline t l w h = absurd (ground (arith, h))
  finish-Step (calling k id) t l w h = absurd (ground (arith, h))

  pub inspect_event-Step :
      (p : Phase) (event : Event V) (l : Lifecycle)
      → Within header p
      → inspect_event header ids (at p none) event ≡ ok l
      → Step header ids p event l
  unfolding inspect_event
  inspect_event-Step p (initialized x) l w h = absurd (ground (arith, h))
  inspect_event-Step p (call_started baseline_call) l w h = start-baseline p l h
  inspect_event-Step p (call_started (scenario_call id)) l w h = start-scenario p id l h
  inspect_event-Step p (call_succeeded target payload) l w h = succeed-Step p target payload l w h
  inspect_event-Step p (call_failed target payload) l w h = fail-Step p target payload l w h
  inspect_event-Step p (finished t) l w h = finish-Step p t l w h
