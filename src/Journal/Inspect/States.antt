-- ===== src/Journal/Inspect/States.antt =====
-- The name of the state of a run, by its phase and its terminal, and the one that an inspection gives.
use prospect_engine.Base.{◌≡◌, refl, Option, none, some, List}
use prospect_engine.Base.Text.{Text, text}
use prospect_engine.Base.Key.{text_key}
use prospect_engine.Journal.{Header, Terminal, completed, interrupted, failed}
use prospect_engine.Journal.Phases.{
  Phase, Ends, at, baseline_failed, between, calling, calling_baseline, idle, scenario_failed,
}
use prospect_engine.Journal.Inspect.{inspected_state}

-- the name of the state of a run that is in a phase and has a terminal or none
abbrev pub state_name : Phase → Option Terminal → Text
state_name p (some completed) = text "completed"
state_name p (some (interrupted _)) = text "interrupted"
state_name p (some failed) = text "failed"
state_name idle none = text "not_started"
state_name calling_baseline none = text "unknown_call_result"
state_name baseline_failed none = text "open_after_failure"
state_name (between k) none = text "open_after_return"
state_name (calling k id) none = text "unknown_call_result"
state_name (scenario_failed k id) none = text "open_after_failure"

pub inspected_state-at {ℓ} :
    {V : Type ℓ} (header : Header V) (ids : List Text) (p : Phase) (t : Option Terminal)
    → Ends header ids p t
    → inspected_state 0 (at p t) ≡ state_name p t
unfolding inspected_state
inspected_state-at header ids idle none e = refl
inspected_state-at header ids idle (some completed) e = refl
inspected_state-at header ids idle (some (interrupted r)) e = refl
inspected_state-at header ids idle (some failed) e = refl
inspected_state-at header ids calling_baseline none e = refl
inspected_state-at header ids calling_baseline (some t) e = absurd e
inspected_state-at header ids baseline_failed none e = refl
inspected_state-at header ids baseline_failed (some completed) e = refl
inspected_state-at header ids baseline_failed (some (interrupted r)) e = refl
inspected_state-at header ids baseline_failed (some failed) e = refl
inspected_state-at header ids (between k) none e = refl
inspected_state-at header ids (between k) (some completed) e = refl
inspected_state-at header ids (between k) (some (interrupted r)) e = refl
inspected_state-at header ids (between k) (some failed) e = refl
inspected_state-at header ids (calling k id) none e = refl
inspected_state-at header ids (calling k id) (some t) e = absurd e
inspected_state-at header ids (scenario_failed k id) none e = refl
inspected_state-at header ids (scenario_failed k id) (some completed) e = refl
inspected_state-at header ids (scenario_failed k id) (some (interrupted r)) e = refl
inspected_state-at header ids (scenario_failed k id) (some failed) e = refl
