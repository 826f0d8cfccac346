-- ===== src/Journal/Tests.antt =====
-- The journal theorem at a run that fails on its first scenario.
use prospect_engine.Base.{ℕ, ◌≡◌, refl, false, some, List, [], ◌∷◌, err}
use prospect_engine.Base.Text.{Text, text}
use prospect_engine.Record.{invalid}
use prospect_engine.Journal.{
  Header, Event, Lifecycle, default, check_terminal, accept, inspect_event, replay, baseline_call,
  scenario_call, call_started, call_succeeded, call_failed, finished, completed, failed,
}
use prospect_engine.Journal.Phases.{scenario_failed, at}

abbrev two : Header ℕ
two = record {
  schema = text "prospect.execution-journal/v1";
  run_id = text "run";
  bundle_sha256 = text "B";
  adapter = 0;
  implementation = record { component = text "i.c"; revision = []; artifact_sha256 = [] };
  codecs = record { signature = text "c.s"; error = text "c.e" };
  max_evaluations = 2;
  deadline_configured = false;
}

abbrev ids : List Text
ids = text "a" ∷ text "b" ∷ []

abbrev broken_run : List (Event ℕ)
broken_run =
    call_started baseline_call
    ∷ call_succeeded baseline_call (text "0")
    ∷ call_started (scenario_call (text "a"))
    ∷ call_failed (scenario_call (text "a")) (text "e")
    ∷ finished failed
    ∷ []

abbrev broken : Lifecycle
broken = at (scenario_failed 0 (text "a")) (some failed)

early_completion :
    replay two ids default (finished completed ∷ [])
    ≡ err (invalid (text "incomplete journal relabelled completed"))
unfolding replay inspect_event accept check_terminal
early_completion = refl
