-- ===== src/Dispatch/Tests.antt =====
-- The dispatch theorems at one engine and one bundle.
use prospect_engine.Base.{false, refl, ℕ, ◌+◌, ◌≡◌, ◌↔◌, ◌⊎◌, none, [], ◌∷◌, ok}
use prospect_engine.Base.Ord.{nat_ord}
use prospect_engine.Base.Text.{text}
use prospect_engine.Base.TreeMap.{get, insert}
use prospect_engine.Core.{ProspectiveEngine, SignatureMetric, DecisionPolicy}
use prospect_engine.Adapter.{AdapterMetadata}
use prospect_engine.Registry.{Registry, new_registry}
use prospect_engine.Bundle.{AdapterBinding, ScenarioBundle}
use prospect_engine.Scenario.Controlled.{EvaluationControl, Host}
use prospect_engine.Dispatch.Controlled.{
  IsRefused, IsReported, evaluate_registered_bundle_controlled-reports,
}
use prospect_engine.Dispatch.{resolve_adapter}
use prospect_engine.Dispatch.Laws.{IsResolved, resolve_adapter-ok_iff}
use prospect_engine.Dispatch.Execution.{ExecutableAdapterRegistry, register_engine, register_absent}
use prospect_engine.Dispatch.Invariant.{IsWellKeyed, register_engine-IsWellKeyed}

abbrev adder : ProspectiveEngine ℕ ℕ ℕ ℕ ℕ
adder = record {
  baseline = λ state w. (ok state, w + 1);
  evaluate = λ state i w. (ok (state + i), w + 1);
}

abbrev fixture : AdapterMetadata
fixture = record {
  adapter_id = record { value = text "p.f" };
  contract_version = record { major = 1; minor = 2 };
  upstream = none;
  capabilities =
      record { id = record { value = text "f.e" }; version = record { major = 1; minor = 0 } } ∷ [];
}

abbrev required : AdapterBinding
required = record {
  adapter_id = record { value = text "p.f" };
  contract_version = record { major = 1; minor = 0 };
  upstream = none;
}

abbrev bundle : ScenarioBundle ℕ ℕ
bundle = record {
  bundle_id = record { value = text "e.f" };
  adapter = required;
  seed = none;
  state = 10;
  scenarios = record { id = record { value = text "a" }; intervention = 5 } ∷ [];
  metric = none;
  policy = none;
}

abbrev executable : ExecutableAdapterRegistry ℕ ℕ ℕ ℕ ℕ
executable = record {
  entries = (fixture.adapter_id, record { metadata = fixture; engine = adder }) ∷ [];
}

abbrev no_metrics : Registry (SignatureMetric ℕ ℕ)
no_metrics = new_registry

abbrev no_policies : Registry (DecisionPolicy ℕ ℕ)
no_policies = new_registry

executable-IsWellKeyed : IsWellKeyed executable
unfolding register_engine register_absent get insert
executable-IsWellKeyed = register_engine-IsWellKeyed (record { entries = [] }) (ok fixture) adder tt

resolve_adapter-ok_iff_example :
    (resolve_adapter required (fixture ∷ []) ≡ ok fixture)
    ↔ IsResolved required (fixture ∷ []) fixture
resolve_adapter-ok_iff_example = resolve_adapter-ok_iff required (fixture ∷ []) fixture

-- A signal that nobody sets, a clock that stands at 5, and no callback.
abbrev calm : Host ℕ
calm = record { now = λ w. (5, w); progress = λ _ w. w }

abbrev single : EvaluationControl ℕ
single = record {
  max_evaluations = 1;
  deadline = none;
  cancellation = record { load = λ _. false; store_true = λ w. w };
}

evaluate_registered_bundle_controlled-reports_example :
    IsRefused bundle single calm executable no_metrics no_policies 0
    ⊎ IsReported bundle single calm executable no_metrics no_policies 0
evaluate_registered_bundle_controlled-reports_example =
    evaluate_registered_bundle_controlled-reports bundle single calm executable no_metrics
      no_policies 0 executable-IsWellKeyed refl
