-- ===== src/Record/Summary.antt =====
-- crates/prospect-dispatch/src/execution/record.rs: the summary of a verified record.
use prospect_engine.Base.{
  ℕ, ◌+◌, ◌≡◌, refl, ap, ◌∙◌, Bool, false, none, some, List, [], ◌++◌, length, length-append,
  length-map, ok, arith,
}
use prospect_engine.Base.Text.{Text, text}
use prospect_engine.Bundle.{ScenarioBundle}
use prospect_engine.Bundle.Json.{Value}
use prospect_engine.Record.{RecordTerminal, completed, interrupted, failed, RecordWire}
use prospect_engine.Record.Laws.{IsConsistent, EndsAs, outcome_ids, failed_ids}
use prospect_engine.Record.Capture.{evidence_kind}
use prospect_engine.Record.Verify.{
  ExecutionRecord, RecordSerde, verify_against_bundle, scenario_ids, parse_bundle,
}
use prospect_engine.Record.Verify.Laws.{verify_against_bundle-ok_iff}

pub record ExecutionRecordSummary : Type 0 where
  pub schema : Text
  pub record_sha256 : Text
  pub bundle_sha256 : Text
  pub run_id : Text
  pub state : Text
  pub successful_candidates : ℕ
  pub failed_candidates : ℕ
  pub never_started_candidates : ℕ
  pub evidence_kind : Text
  pub resume_authorized : Bool

abbrev pub terminal_state : RecordTerminal → Text
terminal_state completed = text "completed"
terminal_state (interrupted _) = text "interrupted"
terminal_state (failed _ _) = text "failed"

-- `usize::from(matches!(terminal, Failed { scenario_id: Some(_), .. }))`
abbrev pub failed_count : RecordTerminal → ℕ
failed_count (failed (some _) _) = 1
failed_count _ = 0

-- `ExecutionRecord::sha256`
unfoldable pub record_sha256 {ℓ} :
    {C J : Type ℓ} → RecordSerde C J → ExecutionRecord (Value C) → Text
record_sha256 serde self = serde.digest self.canonical

-- `ExecutionRecord::summary`
unfoldable pub summary {ℓ} :
    {C J : Type ℓ} → RecordSerde C J → ExecutionRecord (Value C) → ExecutionRecordSummary
unfolding record_sha256
summary serde self = record {
  schema = text "prospect.execution-record-verification/v1";
  record_sha256 = record_sha256 serde self;
  bundle_sha256 = self.wire.bundle_sha256;
  run_id = self.wire.run_id;
  state = terminal_state self.wire.terminal;
  successful_candidates = length self.wire.outcomes;
  failed_candidates = failed_count self.wire.terminal;
  never_started_candidates = length self.wire.pending;
  evidence_kind = evidence_kind;
  resume_authorized = false;
}

-- What a summary says of a bundle.
pub record Tallies {ℓ} {State I : Type ℓ} (bundle : ScenarioBundle State I)
    (s : ExecutionRecordSummary) : Type 0 where
  pub total :
      s.successful_candidates + (s.failed_candidates + s.never_started_candidates)
      ≡ length bundle.scenarios
  pub all_done : s.state ≡ text "completed" → s.successful_candidates ≡ length bundle.scenarios
  pub resume_refused : s.resume_authorized ≡ false

length-failed_ids : (t : RecordTerminal) → length (failed_ids t) ≡ failed_count t
length-failed_ids completed = refl
length-failed_ids (interrupted r) = refl
length-failed_ids (failed none p) = refl
length-failed_ids (failed (some id) p) = refl

module _ {ℓ} {V : Type ℓ} (wire : RecordWire V) where
  tally :
      (ids : List Text)
      → IsConsistent wire ids
      → length wire.outcomes + (failed_count wire.terminal + length wire.pending) ≡ length ids
  tally ids c = omega (
    arith,
    length-append (outcome_ids wire.outcomes) (failed_ids wire.terminal ++ wire.pending),
    length-append (failed_ids wire.terminal) wire.pending,
    length-map wire.outcomes (λ o. o.scenario_id),
    length-failed_ids wire.terminal,
    ap length c.partition,
  )

  -- only a completed record is summed up as completed
  ends_completed :
      (t : RecordTerminal)
      → EndsAs wire t
      → terminal_state t ≡ text "completed"
      → (failed_count t ≡ 0) × (wire.pending ≡ [])
  ends_completed completed e h = (refl, e.1)
  ends_completed (interrupted r) e h = absurd (ground (arith, h))
  ends_completed (failed id p) e h = absurd (ground (arith, h))

module _ {ℓ} {C J : Type ℓ} (serde : RecordSerde C J) (payload expected : Text) where
  -- The summary of a record that was verified against a bundle accounts for every scenario of the
  -- bundle: those that succeeded, failed and never started are as many as the bundle has; if it
  -- says completed, all of them succeeded; and it never authorizes a resume.
  pub summary-Tallies :
      (r : ExecutionRecord (Value C))
      → verify_against_bundle serde payload expected ≡ ok r
      → (bundle : ScenarioBundle (Value C) (Value C)) × (parse_bundle serde expected ≡ ok bundle)
        × Tallies bundle (summary serde r)
  unfolding summary
  summary-Tallies r h =
      let v = (verify_against_bundle-ok_iff serde payload expected r).0 h in
      let consistent = v.bound.consistent in
      let total =
        tally r.wire (scenario_ids v.bundle) consistent
        ∙ length-map v.bundle.scenarios (λ s. s.id.value) in
      (
        v.bundle,
        v.bundle_read,
        record {
          total = total;
          all_done = λ q.
              let (none_failed, none_pending) =
                ends_completed r.wire r.wire.terminal consistent.ending q in
              omega (arith, total, none_failed, ap length none_pending);
          resume_refused = refl;
        },
      )
