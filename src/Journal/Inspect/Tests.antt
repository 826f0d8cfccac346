-- ===== src/Journal/Inspect/Tests.antt =====
-- The inspection of a journal that has its header and the intent of the baseline call.
use prospect_engine.Base.{
  ℕ, ◌≡◌, refl, true, false, ◌&&◌, Option, none, some, List, [], ◌∷◌, Result, ok, err, ◌==◌,
  if◌then◌else◌, Bool, arith,
}
use prospect_engine.Base.Text.{Text, text, text_cmp}
use prospect_engine.Base.Key.{text_key, same}
use prospect_engine.Bundle.Json.{Value, scalar, write_value}
use prospect_engine.Record.Fixture.{bundle, bundle_read, fixture, serde}
use prospect_engine.Record.Verify.{canonical, scenario_ids}
use prospect_engine.Journal.{
  Event, accept, baseline_call, call_started, default, initialized, inspect_event, replay, start,
}
use prospect_engine.Journal.Chain.{Chain}
use prospect_engine.Journal.Emit.{Entry, JournalSerde}
use prospect_engine.Journal.Fixture.{header, header_valid}
use prospect_engine.Journal.Inspect.{JournalSummary, inspect_execution_journal}
use prospect_engine.Journal.Inspect.Loop.{ReadsBack}
use prospect_engine.Journal.Inspect.RoundTrip.{SumsUp, inspect_execution_journal-SumsUp}
use prospect_engine.Journal.Phases.{at, calling_baseline}

abbrev first_entry : Entry (Value Text)
first_entry = record { sequence = 0; previous_sha256 = none; event = initialized header }

abbrev second_entry : Entry (Value Text)
second_entry = record {
  sequence = 1;
  previous_sha256 = some (text "H");
  event = call_started baseline_call;
}

abbrev is_head : Option Text → Bool
is_head none = true
is_head (some t) = false

abbrev is_second : Option Text → Bool
is_second none = false
is_second (some t) = same t (text "H")

-- A library that writes a first entry for a header as H, and the second entry above as C.
abbrev written_event : ℕ → Option Text → Event (Value Text) → Result (Value Text) ℕ
written_event n previous (initialized h) =
    if is_head previous && n == 0 then ok (scalar (text "H")) else err 0
written_event n previous (call_started baseline_call) =
    if is_second previous && n == 1 then ok (scalar (text "C")) else err 0
written_event n previous _ = err 0

abbrev two_entries : JournalSerde Text ℕ
two_entries = record {
  library = serde;
  entry_to_value = λ e. written_event e.sequence e.previous_sha256 e.event;
  entry_from_str = λ p.
      if same p (text "H")
      then ok first_entry
      else if same p (text "C")
      then ok second_entry
      else err 0;
}

first_read : two_entries.entry_from_str (text "H") ≡ ok first_entry
unfolding same text_cmp text_key
first_read = refl

second_read : two_entries.entry_from_str (text "C") ≡ ok second_entry
unfolding same text_cmp text_key
second_read = refl

abbrev two_lines : List Text
two_lines = text "H" ∷ text "C" ∷ []

two_lines_chained :
    Chain two_entries 0 none
      (initialized header ∷ call_started baseline_call ∷ [])
      two_lines
      2
      (some (text "C"))
unfolding canonical write_value same text_cmp text_key
two_lines_chained = (refl, (refl, (refl, refl)))

two_lines_read :
    ReadsBack two_entries 0 none (initialized header ∷ call_started baseline_call ∷ []) two_lines
two_lines_read = (first_read, (refl, tt), (second_read, (refl, tt), tt))

intent_accepted :
    replay header (scenario_ids bundle) default (call_started baseline_call ∷ [])
    ≡ ok (at calling_baseline none)
unfolding replay inspect_event accept start
intent_accepted = refl

inspect_execution_journal-SumsUp_example :
    (s : JournalSummary) × (inspect_execution_journal two_entries (text "H\nC\n") (text "B") ≡ ok s)
    × SumsUp two_entries bundle (text "B") (at calling_baseline none) 2 s
inspect_execution_journal-SumsUp_example =
    inspect_execution_journal-SumsUp two_entries bundle (text "B") header fixture bundle_read
      header_valid (call_started baseline_call ∷ []) two_lines 2 (some (text "C"))
      (at calling_baseline none) two_lines_chained two_lines_read intent_accepted
      (omega arith, (omega arith, tt)) (omega arith) (omega arith)
