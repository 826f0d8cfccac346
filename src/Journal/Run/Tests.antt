-- ===== src/Journal/Run/Tests.antt =====
-- The journal of a run of one scenario, in a sink that is full in the middle of the fourth line.
use prospect_engine.Base.{ℕ, ◌+◌, refl, false, none, List, [], ◌∷◌, ok, err}
use prospect_engine.Base.Text.{Text, text}
use prospect_engine.Bundle.Json.{Value, scalar, Serde}
use prospect_engine.Core.{Scenario, ProspectiveEngine}
use prospect_engine.Scenario.Controlled.{EvaluationControl, Host}
use prospect_engine.Record.Capture.{Encoders}
use prospect_engine.Journal.{Header}
use prospect_engine.Journal.Emit.{JournalSerde}
use prospect_engine.Journal.Run.{run_session}
use prospect_engine.Journal.Run.Fixture.{bounded, itself, bounded-IsFaithful}
use prospect_engine.Journal.Run.Complete.{Journaled, run_session-Journaled}
use prospect_engine.Journal.Run.Loop.{IsSingleWriter}

abbrev unread : Serde ℕ (Value ℕ) (Value ℕ) ℕ
unread = record {
  to_string = λ c. ok (c ∷ []);
  key_to_string = λ key. ok key;
  to_value = λ w. err 0;
  from_value = λ v. err 0;
  from_str = λ p. err 0;
}

-- an entry is written as its sequence number
abbrev numbering : JournalSerde ℕ ℕ
numbering = record {
  library = record {
    bundle = unread;
    record_to_value = λ w. err 0;
    record_from_str = λ p. err 0;
    metadata_to_value = λ m. err 0;
    metadata_from_value = λ v. err 0;
    digest = λ t. t;
  };
  entry_to_value = λ e. ok (scalar (48 + e.sequence));
  entry_from_str = λ p. err 0;
}

abbrev first_header : Header (Value ℕ)
first_header = record {
  schema = text "prospect.execution-journal/v1";
  run_id = text "run";
  bundle_sha256 = text "B";
  adapter = scalar 0;
  implementation = record { component = text "i.c"; revision = []; artifact_sha256 = [] };
  codecs = record { signature = text "c.s"; error = text "c.e" };
  max_evaluations = 2;
  deadline_configured = false;
}

abbrev plain : Encoders Text Text (List ℕ)
plain = record { encode_signature = λ s w. (ok s, w); encode_error = λ e w. (ok e, w) }

abbrev constant : ProspectiveEngine ℕ ℕ Text Text (List ℕ)
constant = record {
  baseline = λ state w. (ok (text "10"), w);
  evaluate = λ state i w. (ok (text "15"), w);
}

abbrev pair : EvaluationControl (List ℕ)
pair = record {
  max_evaluations = 2;
  deadline = none;
  cancellation = record { load = λ _. false; store_true = λ w. w };
}

abbrev calm : Host (List ℕ)
calm = record { now = λ w. (5, w); progress = λ _ w. w }

abbrev lone : List (Scenario ℕ)
lone = record { id = record { value = text "a" }; intervention = 5 } ∷ []

lone-IsSingleWriter :
    IsSingleWriter numbering (bounded 7) itself first_header plain constant 0 pair calm
lone-IsSingleWriter = record {
  faithful = bounded-IsFaithful 7 numbering;
  silent = record { signature_silent = λ x w. refl; error_silent = λ x w. refl };
  baseline_silent = λ w. refl;
  evaluate_silent = λ i w. refl;
  now_silent = λ w. refl;
}

run_session-Journaled_example :
    (let (r, u) =
        run_session numbering (bounded 7) plain constant 0 pair calm first_header lone [] in
      Journaled numbering
        (bounded 7)
        itself
        first_header
        plain
        constant
        0
        pair
        calm
        lone-IsSingleWriter
        refl
        refl
        lone
        r.status
        u)
run_session-Journaled_example =
    run_session-Journaled numbering (bounded 7) itself first_header plain constant 0 pair calm
      lone-IsSingleWriter refl refl lone [] refl refl
