-- ===== src/Journal/Inspect/RoundTrip.antt =====
-- The inspection of a journal whose lines are chained.
use prospect_engine.Base.{
  ℕ, ◌-◌, ◌≤◌, ◌≡◌, refl, ap, ◌∙◌, false, Option, none, some, List, [], ◌∷◌, map, All, length, ltb,
  is_some, ok, arith,
}
use prospect_engine.Base.Text.{Text, bytes}
use prospect_engine.Base.Key.{text_key}
use prospect_engine.Adapter.{AdapterMetadata}
use prospect_engine.Bundle.{ScenarioBundle}
use prospect_engine.Bundle.Json.{Value}
use prospect_engine.Record.Verify.{parse_bundle, scenario_ids}
use prospect_engine.Journal.{Event, Header, Lifecycle, Terminal, default, initialized, replay}
use prospect_engine.Journal.Chain.{Chain, journal_text, terminated}
use prospect_engine.Journal.Order.{replay-follows_plan}
use prospect_engine.Journal.Phases.{Phase, Ends, at}
use prospect_engine.Journal.Emit.{JournalSerde, max_entries, max_journal_bytes}
use prospect_engine.Journal.Evaluate.{validate_header}
use prospect_engine.Journal.Inspect.{
  Inspection, JournalSummary, begin_inspection, inspect_entry, inspect_execution_journal,
  inspect_lines, summarize, summary_of, inspected_state,
}
use prospect_engine.Journal.Inspect.Loop.{
  FitsEntry, Reads, ReadsBack, inspect_line-ok, inspect_lines-cons, inspect_lines-of_Chain, next_of,
  one_lines,
}
use prospect_engine.Journal.Inspect.States.{state_name, inspected_state-at}
use prospect_engine.Journal.Inspect.Lines.{split_inclusive-journal}

module _ {ℓ} {C J : Type ℓ} (serde : JournalSerde C J) where
  module _ (bundle : ScenarioBundle (Value C) (Value C)) (expected : Text) where
    -- What the summary of a whole journal says of its lifecycle, which ended in a phase of a run.
    pub record SumsUp (l : Lifecycle) (n : ℕ) (s : JournalSummary) : Type 0 where
      pub phase : Phase
      pub terminal : Option Terminal
      pub ended : l ≡ at phase terminal
      pub state_shown : s.state ≡ state_name phase terminal
      pub all_entries : s.verified_entries ≡ n
      pub no_tail_left : s.incomplete_tail_bytes ≡ 0
      pub baseline_shown : s.baseline_succeeded ≡ l.baseline
      pub successes : s.successful_candidates ≡ l.successful
      pub failure_shown : s.failed_call ≡ l.failure
      pub unknown_shown : s.unknown_call_result ≡ l.active
      pub never_started : s.never_started_candidates ≡ length bundle.scenarios - l.started
      pub terminal_shown : s.terminal_recorded ≡ is_some l.terminal
      pub no_resume : s.resume_authorized ≡ false

    summarize-SumsUp :
        (payload : Text) (header : Header (Value C)) (l : Lifecycle) (n : ℕ) (p : Phase)
        (t : Option Terminal) (final : Inspection (Value C))
        → l ≡ at p t
        → Ends header (scenario_ids bundle) p t
        → Reads serde bundle expected header l n final
        → (s : JournalSummary) × (summarize serde bundle expected payload final ≡ ok s)
          × SumsUp l n s
    unfolding summarize
    summarize-SumsUp payload header l n p t final e ends r =
        let shape : final.lifecycle ≡ l = r.lifecycle_is in
        (
          summary_of serde bundle expected payload final header,
          rw r.header_kept refl,
          record {
            phase = p;
            terminal = t;
            ended = e;
            state_shown =
                (λ i. inspected_state (r.whole i) ((shape ∙ e) i))
                ∙ inspected_state-at header (scenario_ids bundle) p t ends;
            all_entries = r.counted;
            no_tail_left = r.whole;
            baseline_shown = ap (λ (x : Lifecycle). x.baseline) shape;
            successes = ap (λ (x : Lifecycle). x.successful) shape;
            failure_shown = ap (λ (x : Lifecycle). x.failure) shape;
            unknown_shown = ap (λ (x : Lifecycle). x.active) shape;
            never_started = ap (λ (x : Lifecycle). length bundle.scenarios - x.started) shape;
            terminal_shown = ap (λ (x : Lifecycle). is_some x.terminal) shape;
            no_resume = refl;
          },
        )

    module _ (header : Header (Value C)) (metadata : AdapterMetadata)
        (bundle_read : parse_bundle serde.library expected ≡ ok bundle)
        (valid : validate_header serde.library header bundle expected ≡ ok metadata) where
      inspect_lines-of_journal :
          (events : List (Event (Value C))) (lines : List Text) (m : ℕ) (q : Option Text)
          (l : Lifecycle)
          → Chain serde 0 none (initialized header ∷ events) lines m q
          → ReadsBack serde 0 none (initialized header ∷ events) lines
          → replay header (scenario_ids bundle) default events ≡ ok l
          → All (FitsEntry serde bundle expected) lines
          → length lines ≤ max_entries
          → (final : Inspection (Value C)) × (inspect_lines serde bundle expected begin_inspection
                (map terminated lines)
              ≡ ok final)
            × Reads serde bundle expected header l (length lines) final
      unfolding inspect_entry
      inspect_lines-of_journal events [] m q l c b r s u = absurd c
      inspect_lines-of_journal events (line ∷ lines) m q l c b r s u =
          let headed : Inspection (Value C) = record begin_inspection { header = some header } in
          let read =
            inspect_line-ok serde bundle expected begin_inspection headed 0 none
              (initialized header) line
              (record { same_count = refl; same_chain = refl; no_tail = refl }) c.0 b.0
              (omega arith) (rw valid refl) in
          let (final, done, reads) =
            inspect_lines-of_Chain serde bundle expected header l m q events lines
              (next_of serde bundle expected begin_inspection headed line) 1
              (some (serde.library.digest line)) refl
              (record { same_count = refl; same_chain = refl; no_tail = refl }) c.1 b.2 r s.1
              (omega (arith, u)) in
          (
            final,
            inspect_lines-cons serde bundle expected begin_inspection
                  (next_of serde bundle expected begin_inspection headed line) line lines refl s.0
                  read
                ∙ done,
            record {
              header_kept = reads.header_kept;
              lifecycle_is = reads.lifecycle_is;
              counted = omega (arith, reads.counted);
              whole = reads.whole;
            },
          )

      -- Reading a journal back: if the bundle is read from its text and the header is valid for it,
      -- then the text of lines that are the entries of the header and of events that the lifecycle
      -- accepts, numbered from 0 on and chained by digests, within the limits of the emitter, each one
      -- line and read by serde_json as its entry, passes the inspection. Its summary tells the
      -- entries, and of the phase in which the events ended the state by name, the baseline, the
      -- successes, the failed call, the unknown result, the scenarios never started and the terminal,
      -- and it authorizes no resume.
      pub inspect_execution_journal-SumsUp :
          (events : List (Event (Value C))) (lines : List Text) (m : ℕ) (q : Option Text)
          (l : Lifecycle)
          → Chain serde 0 none (initialized header ∷ events) lines m q
          → ReadsBack serde 0 none (initialized header ∷ events) lines
          → replay header (scenario_ids bundle) default events ≡ ok l
          → All (FitsEntry serde bundle expected) lines
          → length lines ≤ max_entries
          → length (bytes (journal_text lines)) ≤ max_journal_bytes
          → (s : JournalSummary) × (inspect_execution_journal serde (journal_text lines) expected
              ≡ ok s)
            × SumsUp l (length lines) s
      unfolding inspect_execution_journal
      inspect_execution_journal-SumsUp events lines m q l c b r s u v =
          let fits : ltb max_journal_bytes (length (bytes (journal_text lines))) ≡ false =
            ground (arith, v) in
          let split =
            split_inclusive-journal lines (
              one_lines serde bundle expected 0 none (initialized header ∷ events) lines m q c b) in
          let (final, done, reads) = inspect_lines-of_journal events lines m q l c b r s u in
          let (p, t, e, _, _, ends) = replay-follows_plan header (scenario_ids bundle) events l r in
          let (summary, summed, says) =
            summarize-SumsUp (journal_text lines) header l (length lines) p t final e ends reads in
          (summary, rw (fits, bundle_read, split, done) summed, says)
