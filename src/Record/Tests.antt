-- ===== src/Record/Tests.antt =====
-- The record theorems at one bundle of one scenario.
use prospect_engine.Record.Fixture.{
  bundle, fixture, wire, bundle_serde, serde, bundle_read, adapter_read,
}
use prospect_engine.Base.{ℕ, ◌+◌, ◌≡◌, ◌↔◌, refl, false, none, some, [], ◌∷◌, ok}
use prospect_engine.Base.Ord.{nat_ord}
use prospect_engine.Base.Text.{Text, text, text_cmp}
use prospect_engine.Base.Key.{text_key, same}
use prospect_engine.Base.Sets.{contains, first_duplicate}
use prospect_engine.Core.{ProspectiveEngine, SignatureMetric, DecisionPolicy, scenario_id_key}
use prospect_engine.Adapter.{
  is_id_byte, valid_segment, valid_namespaced_id, new_namespaced_id, supports, namespaced_id_key,
}
use prospect_engine.Registry.{Registry, new_registry}
use prospect_engine.Bundle.{ScenarioBundle, into_core}
use prospect_engine.Bundle.Wire.{wire_ref}
use prospect_engine.Bundle.Json.{Value, scalar, write_value, canonical_json}
use prospect_engine.Scenario.Controlled.{EvaluationControl, BatchStatus, Host, evaluate_with_clock}
use prospect_engine.Dispatch.{
  resolve_bundle_requirements, resolve_adapter, only_candidate, check_upstream,
  resolve_required_metric, resolve_required_policy,
}
use prospect_engine.Dispatch.Controlled.{
  evaluate_registered_bundle_controlled, evaluate_resolved, evaluate_on, evaluated,
}
use prospect_engine.Dispatch.Execution.{
  ExecutableAdapterRegistry, owned_metadata_catalog, entry_engine, engine_of,
}
use prospect_engine.Dispatch.Invariant.{IsWellKeyed}
use prospect_engine.Record.{
  check_record, check_payload, check_outcomes, check_counts, check_terminal, check_suffix,
}
use prospect_engine.Record.Laws.{IsConsistent, check_record-ok_iff}
use prospect_engine.Record.Capture.{
  encode_baseline, encode_checked, encoded, charge, encode_outcomes, encode_terminal,
  BoundBundleEvaluation, Encoders, capture_wire,
}
use prospect_engine.Record.Capture.Complete.{HasShortError}
use prospect_engine.Record.Verify.{
  ExecutionRecord, parse_bundle, scenario_ids, verify_against_bundle, canonical, check_identity,
  check_schema, check_run_id, check_binding, check_contract, check_adapter, check_codecs,
  check_canonical, verify_wire,
}
use prospect_engine.Record.Verify.Laws.{IsVerified, verify_against_bundle-ok_iff}
use prospect_engine.Record.Bound.{
  admit, input_admitted, bound_returned, evaluate_registered_bundle_bound, capture_library,
  capture_wire-of_bound_iff,
}
use prospect_engine.Record.Summary.{summary, Tallies, summary-Tallies}

abbrev stored : ExecutionRecord (Value Text)
stored = record { wire = wire; canonical = text "R" }

check_record-ok_iff_example :
    (check_record wire (scenario_ids bundle) ≡ ok tt) ↔ IsConsistent wire (scenario_ids bundle)
check_record-ok_iff_example = check_record-ok_iff wire (scenario_ids bundle)

verify_against_bundle-ok_iff_example :
    (verify_against_bundle serde (text "R") (text "B") ≡ ok stored)
    ↔ IsVerified serde (text "R") (text "B") stored
verify_against_bundle-ok_iff_example =
    verify_against_bundle-ok_iff serde (text "R") (text "B") stored

identity_holds : check_identity serde wire (text "B") bundle ≡ ok tt
unfolding check_identity check_schema check_run_id check_binding same text_cmp text_key
identity_holds = refl

contract_holds : check_contract serde wire bundle fixture ≡ ok tt
unfolding check_contract check_adapter supports check_codecs new_namespaced_id valid_namespaced_id
    valid_segment is_id_byte check_record check_counts check_outcomes check_payload check_terminal
    check_suffix same text_cmp text_key
contract_holds = refl

canonical_holds : check_canonical serde (text "R") wire ≡ ok tt
unfolding check_canonical canonical write_value same text_cmp text_key
canonical_holds = refl

stored_verified : verify_against_bundle serde (text "R") (text "B") ≡ ok stored
unfolding verify_against_bundle verify_wire
stored_verified =
    rw (bundle_read, canonical_holds, identity_holds, adapter_read, contract_holds) refl

summary-Tallies_example :
    (bundle : ScenarioBundle (Value Text) (Value Text)) × (parse_bundle serde (text "B")
      ≡ ok bundle)
    × Tallies bundle (summary serde stored)
summary-Tallies_example = summary-Tallies serde (text "R") (text "B") stored stored_verified

-- An engine that returns 10 and then 15, and counts its calls in the world.
abbrev constant : ProspectiveEngine (Value Text) (Value Text) Text Text ℕ
constant = record {
  baseline = λ state w. (ok (text "10"), w + 1);
  evaluate = λ state i w. (ok (text "15"), w + 1);
}

abbrev executable : ExecutableAdapterRegistry (Value Text) (Value Text) Text Text ℕ
executable = record {
  entries = (fixture.adapter_id, record { metadata = fixture; engine = constant }) ∷ [];
}

abbrev no_metrics : Registry (SignatureMetric Text ℕ)
no_metrics = new_registry

abbrev no_policies : Registry (DecisionPolicy Text ℕ)
no_policies = new_registry

abbrev calm : Host ℕ
calm = record { now = λ w. (5, w); progress = λ _ w. w }

abbrev single : EvaluationControl ℕ
single = record {
  max_evaluations = 1;
  deadline = none;
  cancellation = record { load = λ _. false; store_true = λ w. w };
}

abbrev plain : Encoders Text Text ℕ
plain = record { encode_signature = λ s w. (ok s, w); encode_error = λ e w. (ok e, w) }

abbrev bound : BoundBundleEvaluation (Value Text) Text Text
bound = record {
  input_json = text "B";
  max_evaluations = 1;
  deadline_configured = false;
  report = record {
    bundle_id = text "e.f";
    seed = some 7;
    adapter = fixture;
    evaluation = record {
      total_scenarios = 1;
      baseline = some (text "10");
      outcomes =
          record {
            scenario = record {
              id = record { value = text "a" };
              intervention = scalar (text "5");
            };
            signature = text "15";
          }
          ∷ [];
      pending = [];
      status = BatchStatus.completed;
    };
  };
}

executable-IsWellKeyed : IsWellKeyed executable
executable-IsWellKeyed = (refl, tt)

run_reported :
    evaluate_registered_bundle_controlled bundle single calm executable no_metrics no_policies 0
    ≡ (ok bound.report, 2)
unfolding evaluate_registered_bundle_controlled evaluate_resolved evaluate_on evaluated
    resolve_bundle_requirements resolve_adapter only_candidate check_upstream
    resolve_required_metric resolve_required_policy supports owned_metadata_catalog entry_engine
    engine_of evaluate_with_clock first_duplicate contains same text_cmp text_key into_core
run_reported = refl

bound_evaluated :
    evaluate_registered_bundle_bound bundle_serde serde bundle executable no_metrics no_policies
      single calm 0
    ≡ (ok bound, 2)
unfolding evaluate_registered_bundle_bound admit input_admitted bound_returned canonical_json
    write_value wire_ref
bound_evaluated = rw (bundle_read, run_reported) refl

wire_made :
    capture_wire (capture_library serde) bound (text "run") wire.codecs plain (100, 2)
    ≡ (ok wire, (96, 2))
unfolding capture_wire encode_baseline encode_checked encoded charge check_payload encode_outcomes
    encode_terminal
wire_made = refl

capture_wire-of_bound_iff_example :
    (check_record wire (scenario_ids bundle) ≡ ok tt) ↔ HasShortError wire.terminal
capture_wire-of_bound_iff_example =
    capture_wire-of_bound_iff bundle_serde serde bundle executable no_metrics no_policies single
      calm executable-IsWellKeyed refl 0 bound 2 bound_evaluated (text "run") wire.codecs plain
      (100, 2) wire (96, 2) wire_made
