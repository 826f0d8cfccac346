-- ===== src/Journal/Inspect.antt =====
-- crates/prospect-dispatch/src/execution/record/journal.rs: `inspect_execution_journal`, which reads the
-- text of a journal line by line and sums it up.
use prospect_engine.Base.{
  ℕ, ◌+◌, ◌-◌, Bool, true, false, not, ◌||◌, Option, none, some, List, [], ◌∷◌, ◌++◌, length, ◌==◌,
  leb, ltb, is_some, if◌then◌else◌, Result, ok, err, ◌>>=◌, map_err,
}
use prospect_engine.Base.Text.{Text, text, bytes}
use prospect_engine.Base.Key.{text_key, same}
use prospect_engine.Bundle.{ScenarioBundle}
use prospect_engine.Bundle.Json.{Value}
use prospect_engine.Record.{ExecutionRecordError, json, violation, refuse, refuse_if}
use prospect_engine.Record.Verify.{canonical, parse_bundle, scenario_ids}
pub mod Lines
pub mod States
pub mod Loop
pub mod RoundTrip
mod Tests
use prospect_engine.Journal.{
  CallTarget, EngineIdentity, Event, Header, Lifecycle, Terminal, accept, call_failed, call_started,
  call_succeeded, completed, default, failed, finished, initialized, interrupted,
}
use prospect_engine.Journal.Emit.{
  Entry, JournalSerde, max_entries, max_journal_bytes, max_journal_entry_bytes,
}
use prospect_engine.Journal.Evaluate.{validate_header}

-- a character before the lines of the rest of a text
abbrev pub push_char : ℕ → List Text → List Text
push_char c [] = (c ∷ []) ∷ []
push_char c (line ∷ lines) = (c ∷ line) ∷ lines

-- `str::split_inclusive('\n')`
abbrev pub split_inclusive : Text → List Text
split_inclusive [] = []
split_inclusive (c ∷ cs) =
    let rest = split_inclusive cs in if c == 10 then (c ∷ []) ∷ rest else push_char c rest

abbrev pub put_first : ℕ → Option Text → Option Text
put_first c none = none
put_first c (some line) = some (c ∷ line)

-- `str::strip_suffix('\n')`
abbrev pub strip_suffix : Text → Option Text
strip_suffix [] = none
strip_suffix (c ∷ []) = if c == 10 then some [] else none
strip_suffix (c ∷ d ∷ cs) = put_first c (strip_suffix (d ∷ cs))

-- `&payload.as_bytes()[..n]`, for an `n` at the end of a character
abbrev pub byte_prefix : ℕ → Text → Text
byte_prefix n [] = []
byte_prefix n (c ∷ cs) =
    let width = length (bytes (c ∷ [])) in
    let rest = byte_prefix (n - width) cs in if leb width n then c ∷ rest else []

-- `entry.previous_sha256 != previous`
abbrev pub same_previous : Option Text → Option Text → Bool
same_previous none none = true
same_previous (some a) (some b) = same a b
same_previous _ _ = false

-- the variables of the loop
pub record Inspection {ℓ} (V : Type ℓ) : Type ℓ where
  pub header : Option (Header V)
  pub previous : Option Text
  pub count : ℕ
  pub prefix_bytes : ℕ
  pub incomplete_tail_bytes : ℕ
  pub lifecycle : Lifecycle

abbrev pub begin_inspection {ℓ} : {V : Type ℓ} → Inspection V
begin_inspection = record {
  header = none;
  previous = none;
  count = 0;
  prefix_bytes = 0;
  incomplete_tail_bytes = 0;
  lifecycle = default;
}

pub record JournalSummary : Type 0 where
  pub schema : Text
  pub journal_sha256 : Text
  pub verified_prefix_sha256 : Text
  pub bundle_sha256 : Text
  pub run_id : Text
  pub implementation : EngineIdentity
  pub verified_entries : ℕ
  pub incomplete_tail_bytes : ℕ
  pub state : Text
  pub baseline_succeeded : Bool
  pub successful_candidates : ℕ
  pub failed_call : Option CallTarget
  pub unknown_call_result : Option CallTarget
  pub never_started_candidates : ℕ
  pub terminal_recorded : Bool
  pub resume_authorized : Bool
  pub evidence_kind : Text

-- the match on the terminal of the lifecycle
abbrev pub closed_state : Lifecycle → Option Terminal → Text
closed_state lifecycle (some completed) = text "completed"
closed_state lifecycle (some (interrupted _)) = text "interrupted"
closed_state lifecycle (some failed) = text "failed"
closed_state lifecycle none =
    if is_some lifecycle.failure
    then text "open_after_failure"
    else if lifecycle.baseline
    then text "open_after_return"
    else text "not_started"

unfoldable pub inspected_state : ℕ → Lifecycle → Text
inspected_state incomplete_tail_bytes lifecycle =
    if not (incomplete_tail_bytes == 0)
    then text "incomplete_tail"
    else if is_some lifecycle.active
    then text "unknown_call_result"
    else closed_state lifecycle lifecycle.terminal

-- `header.ok_or(..)`
abbrev pub header_of_journal {ℓ} :
    {V J : Type ℓ} → Option (Header V) → Result (Header V) (ExecutionRecordError J)
header_of_journal none = map_err violation (refuse (text "no complete journal header"))
header_of_journal (some header) = ok header

module _ {ℓ} {C J : Type ℓ} (serde : JournalSerde C J) (bundle : ScenarioBundle (Value C) (Value C))
    (expected_bundle : Text) where
  -- `lifecycle.accept(event, header, &bundle)?`
  unfoldable pub accept_event :
      Inspection (Value C)
      → Option (Header (Value C))
      → Event (Value C)
      → Result (Inspection (Value C)) (ExecutionRecordError J)
  accept_event self none event = map_err violation (refuse (text "journal must start with header"))
  accept_event self (some header) event =
      map_err violation (accept header (scenario_ids bundle) self.lifecycle event) >>= λ lifecycle.
      ok (record self { lifecycle = lifecycle })

  -- the match on the event of an entry
  unfoldable pub inspect_entry :
      Inspection (Value C)
      → Event (Value C)
      → Result (Inspection (Value C)) (ExecutionRecordError J)
  unfolding accept_event
  inspect_entry self (initialized value) =
      if self.count == 0
      then (validate_header serde.library value bundle expected_bundle >>= λ _.
          ok (record self { header = some value }))
      else map_err violation (refuse (text "duplicate journal header"))
  inspect_entry self (call_started target) = accept_event self self.header (call_started target)
  inspect_entry self (call_succeeded target payload) =
      accept_event self self.header (call_succeeded target payload)
  inspect_entry self (call_failed target payload) =
      accept_event self self.header (call_failed target payload)
  inspect_entry self (finished terminal) = accept_event self self.header (finished terminal)

  -- the tests of an entry against its line and its place
  abbrev pub misplaced : Inspection (Value C) → Entry (Value C) → Bool
  misplaced self entry =
      not (entry.sequence == self.count) || not (same_previous entry.previous_sha256 self.previous)

  abbrev pub entry_read :
      Inspection (Value C)
      → Text
      → Entry (Value C)
      → Text
      → Result (Inspection (Value C)) (ExecutionRecordError J)
  entry_read self line entry rewritten =
      if not (same rewritten line)
      then map_err violation (refuse (text "noncanonical, duplicate or missing journal fields"))
      else if misplaced self entry
      then map_err violation (refuse (text "journal sequence or hash-chain mismatch"))
      else inspect_entry self entry.event

  -- a line without its line feed; the last step counts the line feed with it
  unfoldable pub inspect_line :
      Inspection (Value C) → Text → Result (Inspection (Value C)) (ExecutionRecordError J)
  unfolding inspect_entry
  inspect_line self line =
      if leb max_entries self.count
      then map_err violation (refuse (text "too many journal entries"))
      else (map_err json (serde.entry_from_str line) >>= λ entry.
          canonical serde.library (serde.entry_to_value entry) >>= λ rewritten.
          entry_read self line entry rewritten >>= λ next. ok (record next {
            previous = some (serde.library.digest line);
            prefix_bytes = next.prefix_bytes + (length (bytes line) + 1);
            count = next.count + 1;
          }))

  -- the match on `raw.strip_suffix('\n')`
  abbrev pub on_line :
      Inspection (Value C)
      → Text
      → Option Text
      → (Inspection (Value C) → Result (Inspection (Value C)) (ExecutionRecordError J))
      → Result (Inspection (Value C)) (ExecutionRecordError J)
  on_line self raw none continue = ok (record self { incomplete_tail_bytes = length (bytes raw) })
  on_line self raw (some line) continue = inspect_line self line >>= continue

  -- the loop
  unfoldable pub inspect_lines :
      Inspection (Value C) → List Text → Result (Inspection (Value C)) (ExecutionRecordError J)
  unfolding inspect_line
  inspect_lines self [] = ok self
  inspect_lines self (raw ∷ raws) =
      if is_some self.lifecycle.terminal
      then map_err violation (refuse (text "bytes after journal terminal"))
      else if ltb max_journal_entry_bytes (length (bytes raw))
      then map_err violation (refuse (text "journal entry exceeds byte limit"))
      else on_line self raw (strip_suffix raw) (λ next. inspect_lines next raws)

  -- The literal of the summary. `started` is at most the number of scenarios in a lifecycle that was
  -- accepted.
  abbrev pub summary_of : Text → Inspection (Value C) → Header (Value C) → JournalSummary
  summary_of payload self header = record {
    schema = text "prospect.execution-journal-inspection/v1";
    journal_sha256 = serde.library.digest payload;
    verified_prefix_sha256 = serde.library.digest (byte_prefix self.prefix_bytes payload);
    bundle_sha256 = header.bundle_sha256;
    run_id = header.run_id;
    implementation = header.implementation;
    verified_entries = self.count;
    incomplete_tail_bytes = self.incomplete_tail_bytes;
    state = inspected_state self.incomplete_tail_bytes self.lifecycle;
    baseline_succeeded = self.lifecycle.baseline;
    successful_candidates = self.lifecycle.successful;
    failed_call = self.lifecycle.failure;
    unknown_call_result = self.lifecycle.active;
    never_started_candidates = length bundle.scenarios - self.lifecycle.started;
    terminal_recorded = is_some self.lifecycle.terminal;
    resume_authorized = false;
    evidence_kind = text "journal_consistency_only";
  }

  -- `inspect_execution_journal` after the loop
  unfoldable pub summarize :
      Text → Inspection (Value C) → Result JournalSummary (ExecutionRecordError J)
  unfolding inspected_state
  summarize payload self =
      header_of_journal self.header >>= λ header. ok (summary_of payload self header)

module _ {ℓ} {C J : Type ℓ} (serde : JournalSerde C J) where
  -- `inspect_execution_journal`
  unfoldable pub inspect_execution_journal :
      Text → Text → Result JournalSummary (ExecutionRecordError J)
  unfolding inspect_lines summarize
  inspect_execution_journal payload expected_bundle =
      if ltb max_journal_bytes (length (bytes payload))
      then map_err violation (refuse (text "journal exceeds byte limit"))
      else (map_err violation (parse_bundle serde.library expected_bundle) >>= λ bundle.
          inspect_lines serde bundle expected_bundle begin_inspection (split_inclusive payload)
          >>= summarize serde bundle expected_bundle payload)
