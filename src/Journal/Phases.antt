-- ===== src/Journal/Phases.antt =====
-- The lifecycle as a state machine on phases.
use prospect_engine.Base.{
  ℕ, zero, suc, ◌≤◌, ◌≡◌, true, false, Option, none, some, List, [], ◌∷◌, ◌++◌, map, length, ◌==◌,
}
use prospect_engine.Base.Text.{Text}
use prospect_engine.Base.Key.{text_key}
use prospect_engine.Record.{
  RecordInterruption, cancelled, deadline_reached, evaluation_limit_reached,
}
use prospect_engine.Journal.{
  CallTarget, Terminal, Header, Event, Lifecycle, default, baseline_call, scenario_call,
  call_started, completed, interrupted, failed,
}

-- Where a run stands; the number counts the scenarios that succeeded.
pub data Phase : Type 0 where
  idle : Phase
  calling_baseline : Phase
  baseline_failed : Phase
  between : ℕ → Phase
  calling : ℕ → Text → Phase
  scenario_failed : ℕ → Text → Phase

-- the lifecycle in a phase
abbrev pub at : Phase → Option Terminal → Lifecycle
at idle t = record default { terminal = t }
at calling_baseline t = record default { active = some baseline_call; terminal = t }
at baseline_failed t = record default { failure = some baseline_call; terminal = t }
at (between k) t = record default { baseline = true; started = k; successful = k; terminal = t }
at (calling k id) t = record default {
  baseline = true;
  started = suc k;
  successful = k;
  active = some (scenario_call id);
  terminal = t;
}
at (scenario_failed k id) t = record default {
  baseline = true;
  started = suc k;
  successful = k;
  failure = some (scenario_call id);
  terminal = t;
}

abbrev pub drop : ℕ → List Text → List Text
drop zero ids = ids
drop (suc n) [] = []
drop (suc n) (_ ∷ ids) = drop n ids

-- the calls of a whole run: the baseline, then the scenarios in order
abbrev pub plan : List Text → List CallTarget
plan ids = baseline_call ∷ map scenario_call ids

-- the calls that a phase leaves to be made
abbrev pub ahead : List Text → Phase → List CallTarget
ahead ids idle = plan ids
ahead ids calling_baseline = map scenario_call ids
ahead ids baseline_failed = map scenario_call ids
ahead ids (between k) = map scenario_call (drop k ids)
ahead ids (calling k id) = map scenario_call (drop (suc k) ids)
ahead ids (scenario_failed k id) = map scenario_call (drop (suc k) ids)

-- the calls that were begun
abbrev pub begun {ℓ} : {V : Type ℓ} → List (Event V) → List CallTarget
begun [] = []
begun (call_started target ∷ events) = target ∷ begun events
begun (_ ∷ events) = begun events

-- the quota bounds the scenarios that were begun
abbrev pub Within {ℓ} : {V : Type ℓ} → Header V → Phase → Type 0
Within header (between k) = k ≤ header.max_evaluations
Within header (calling k id) = suc k ≤ header.max_evaluations
Within header (scenario_failed k id) = suc k ≤ header.max_evaluations
Within header _ = Unit

-- why a run with `k` successes may be interrupted
abbrev pub Interruptible {ℓ} : {V : Type ℓ} → Header V → List Text → ℕ → RecordInterruption → Type 0
Interruptible header ids k cancelled = Unit
Interruptible header ids k deadline_reached = header.deadline_configured ≡ true
Interruptible header ids k evaluation_limit_reached =
    (k ≡ header.max_evaluations) × ((k == length ids) ≡ false)

-- which terminal may end a run in which phase
abbrev pub Ends {ℓ} : {V : Type ℓ} → Header V → List Text → Phase → Option Terminal → Type 0
Ends header ids _ none = Unit
Ends header ids (between k) (some completed) = k ≡ length ids
Ends header ids idle (some (interrupted r)) = Interruptible header ids 0 r
Ends header ids (between k) (some (interrupted r)) = Interruptible header ids k r
Ends header ids baseline_failed (some failed) = Unit
Ends header ids (scenario_failed k id) (some failed) = Unit
Ends header ids _ _ = ⊥

-- One accepted event: the phase it leads to, whose calls ahead follow the call it begins, if any.
abbrev pub Step {ℓ} : {V : Type ℓ} → Header V → List Text → Phase → Event V → Lifecycle → Type 0
Step header ids p event l =
    (q : Phase) × (t : Option Terminal) × (l ≡ at q t)
    × (begun (event ∷ []) ++ ahead ids q ≡ ahead ids p)
    × Within header q
    × Ends header ids q t
