-- ===== src/Record.antt =====
-- crates/prospect-dispatch/src/execution/record.rs: the execution record and the checks that bind it
-- to its bundle, on a record that is already decoded. The checks stop at the first that fails.
use prospect_engine.Base.{
  is_some, ℕ, suc, ◌+◌, ◌≡◌, Bool, true, false, not, ◌&&◌, ◌||◌, Option, none, some, List, [], ◌∷◌,
  length, is_empty, ◌==◌, ltb, leb, if◌then◌else◌, Result, ok, err, ◌>>=◌, ◌>>◌,
}
use prospect_engine.Base.Text.{Text, text, bytes}
use prospect_engine.Base.Key.{text_key, same}
pub mod Laws
pub mod Capture
pub mod Verify
pub mod Bound
pub mod Summary
pub mod Fixture
mod Tests

abbrev pub max_record_bytes : ℕ
max_record_bytes = 16777216

abbrev pub max_record_scenarios : ℕ
max_record_scenarios = 4096

abbrev pub max_encoded_payload_bytes : ℕ
max_encoded_payload_bytes = 1048576

-- `ExecutionRecordError::Invalid`
pub data Violation : Type 0 where
  invalid : Text → Violation

-- `ExecutionRecordError`, for a JSON error `E`
pub data ExecutionRecordError {ℓ} (E : Type ℓ) : Type ℓ where
  json : E → ExecutionRecordError E
  violation : Violation → ExecutionRecordError E
  encoding : Text → ExecutionRecordError E

pub record PayloadCodecs : Type 0 where
  pub signature : Text
  pub error : Text

pub data RecordInterruption : Type 0 where
  cancelled : RecordInterruption
  deadline_reached : RecordInterruption
  evaluation_limit_reached : RecordInterruption

pub data RecordTerminal : Type 0 where
  completed : RecordTerminal
  interrupted : RecordInterruption → RecordTerminal
  failed : Option Text → Text → RecordTerminal

pub record StoredOutcome : Type 0 where
  pub scenario_id : Text
  pub payload : Text

-- `V` is `serde_json::Value`.
pub record RecordWire {ℓ} (V : Type ℓ) : Type ℓ where
  pub schema : Text
  pub evidence_kind : Text
  pub run_id : Text
  pub bundle_sha256 : Text
  pub bundle_id : Text
  pub seed : Option ℕ
  pub adapter : V
  pub max_evaluations : ℕ
  pub deadline_configured : Bool
  pub codecs : PayloadCodecs
  pub baseline : Option Text
  pub outcomes : List StoredOutcome
  pub pending : List Text
  pub terminal : RecordTerminal

abbrev pub refuse {ℓ} : {A : Type ℓ} → Text → Result A Violation
refuse reason = err (invalid reason)

-- `if test { return invalid(reason); }`
abbrev pub refuse_if : Bool → Text → Result (Unit {0}) Violation
refuse_if true reason = err (invalid reason)
refuse_if false reason = ok tt

unfoldable pub check_payload : Text → Result (Unit {0}) Violation
check_payload payload =
    refuse_if (ltb max_encoded_payload_bytes (length (bytes payload)))
      (text "encoded payload exceeds byte limit")

-- `ids.next() != Some(id)`: the ids that are left, or a refusal
abbrev pub next_id : List Text → Text → Text → Result (List Text) Violation
next_id [] id reason = refuse reason
next_id (x ∷ ids) id reason = if same x id then ok ids else refuse reason

-- `ids.eq(pending)`
abbrev pub same_ids : List Text → List Text → Bool
same_ids [] [] = true
same_ids (x ∷ xs) (y ∷ ys) = same x y && same_ids xs ys
same_ids _ _ = false

-- The loop of `verify_against_bundle` over the outcomes; the ids that it leaves.
unfoldable pub check_outcomes : List Text → List StoredOutcome → Result (List Text) Violation
check_outcomes ids [] = ok ids
check_outcomes ids (outcome ∷ outcomes) =
    next_id ids outcome.scenario_id (text "successful prefix mismatch") >>= λ rest.
    check_payload outcome.payload >> check_outcomes rest outcomes

module _ {ℓ} {V : Type ℓ} (wire : RecordWire V) where
  -- the match on `scenario_id` of a failure
  unfoldable pub check_failed : Option Text → List Text → Result (List Text) Violation
  check_failed (some id) ids =
      refuse_if (not (is_some wire.baseline)) (text "invalid failed candidate")
      >> (next_id ids id (text "invalid failed candidate") >>= λ rest.
          refuse_if (leb wire.max_evaluations (length wire.outcomes))
            (text "invalid failed candidate")
          >> ok rest)
  check_failed none ids =
      refuse_if (is_some wire.baseline || not (is_empty wire.outcomes) || wire.max_evaluations == 0)
        (text "invalid baseline failure")
      >> ok ids

  -- the match on the reason of an interruption
  unfoldable pub check_interrupted : RecordInterruption → Result (Unit {0}) Violation
  check_interrupted cancelled = ok tt
  check_interrupted deadline_reached =
      refuse_if (not wire.deadline_configured) (text "deadline interruption without deadline")
  check_interrupted evaluation_limit_reached =
      refuse_if (is_empty wire.pending || not (length wire.outcomes == wire.max_evaluations))
        (text "invalid quota interruption")

  -- The match on the terminal, with the ids that the outcomes leave; those that it leaves.
  unfoldable pub check_terminal : RecordTerminal → List Text → Result (List Text) Violation
  check_terminal completed ids =
      refuse_if (not (is_some wire.baseline) || not (is_empty wire.pending) || not (is_empty ids))
        (text "incomplete work relabelled completed")
      >> ok ids
  check_terminal (failed scenario_id error_payload) ids =
      check_payload error_payload >> check_failed scenario_id ids
  check_terminal (interrupted reason) ids = check_interrupted reason >> ok ids

  abbrev pub check_baseline : Option Text → Result (Unit {0}) Violation
  check_baseline none = ok tt
  check_baseline (some value) = check_payload value

  -- the quota, the baseline and its payload
  unfoldable pub check_counts : Result (Unit {0}) Violation
  check_counts =
      refuse_if (ltb wire.max_evaluations (length wire.outcomes)) (text "candidate quota exceeded")
      >> refuse_if (not (is_some wire.baseline) && not (is_empty wire.outcomes))
          (text "outcomes without baseline")
      >> check_baseline wire.baseline

  -- the budget of the baseline, and the ids that the outcomes and the terminal leave
  unfoldable pub check_suffix : List Text → Result (Unit {0}) Violation
  check_suffix rest =
      refuse_if (wire.max_evaluations == 0 && is_some wire.baseline)
        (text "zero budget baseline call")
      >> refuse_if (not (same_ids rest wire.pending)) (text "never-started suffix mismatch")

  -- `verify_against_bundle` from `let mut ids` on, for the scenario ids of the bundle
  unfoldable pub check_record : List Text → Result (Unit {0}) Violation
  check_record ids =
      check_counts
      >> (check_outcomes ids wire.outcomes >>= λ left.
          check_terminal wire.terminal left >>= λ rest. check_suffix rest)
