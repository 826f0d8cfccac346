-- ===== src/Journal/Fixture.antt =====
-- A journal header that is valid for the bundle of Record/Fixture.
use prospect_engine.Base.{◌≡◌, refl, false, ok}
use prospect_engine.Base.Ord.{nat_ord}
use prospect_engine.Base.Text.{Text, text, text_cmp}
use prospect_engine.Base.Key.{text_key, same}
use prospect_engine.Core.{scenario_id_key}
use prospect_engine.Adapter.{
  is_id_byte, namespaced_id_key, new_namespaced_id, supports, valid_namespaced_id, valid_segment,
}
use prospect_engine.Bundle.Json.{Value, scalar}
use prospect_engine.Record.Fixture.{adapter_read, bundle, fixture, serde, wire}
use prospect_engine.Record.Verify.{check_codecs, check_run_id}
use prospect_engine.Journal.{EngineIdentity, Header}
use prospect_engine.Journal.Evaluate.{
  check_header_identity, check_implementation, check_journal_adapter, journal_schema,
  validate_header,
}

abbrev pub identity : EngineIdentity
identity = record {
  component = text "i.c";
  revision = text "aaaaaaaaaaaaaaaaaaaaaaaaaaaaaaaaaaaaaaaa";
  artifact_sha256 = text "aaaaaaaaaaaaaaaaaaaaaaaaaaaaaaaaaaaaaaaaaaaaaaaaaaaaaaaaaaaaaaaa";
}

abbrev pub header : Header (Value Text)
header = record {
  schema = journal_schema;
  run_id = text "run";
  bundle_sha256 = text "B";
  adapter = scalar (text "M");
  implementation = identity;
  codecs = wire.codecs;
  max_evaluations = 1;
  deadline_configured = false;
}

identity_checked : check_header_identity serde header (text "B") ≡ ok tt
unfolding check_header_identity check_run_id check_implementation check_codecs new_namespaced_id
    valid_namespaced_id valid_segment is_id_byte same text_cmp text_key
identity_checked = refl

adapter_checked : check_journal_adapter fixture bundle.adapter ≡ ok tt
unfolding check_journal_adapter supports same text_cmp
adapter_checked = refl

pub header_valid : validate_header serde header bundle (text "B") ≡ ok fixture
unfolding validate_header
header_valid = rw (identity_checked, adapter_read, adapter_checked) refl
