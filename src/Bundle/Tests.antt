-- ===== src/Bundle/Tests.antt =====
-- The bundle theorems at a small bundle and a library that writes a wire struct as its id.
use mathlib.Core.List.{Permᴰ}
use prospect_engine.Base.{
  ℕ, ◌≡◌, refl, sym, subst, true, false, none, some, [], ◌∷◌, is_empty, if◌then◌else◌, Result, ok,
  err, arith,
}
use prospect_engine.Base.Text.{Text, text, text_cmp}
use prospect_engine.Base.Key.{text_key, same}
use prospect_engine.Base.Sets.{contains, first_duplicate}
use prospect_engine.Base.Sort.{sort_by_key, insert_sorted, IsStrict}
use prospect_engine.Core.{scenario_id_key}
use prospect_engine.Adapter.{is_id_byte, valid_segment, valid_namespaced_id, new_namespaced_id}
use prospect_engine.Bundle.{
  AdapterBinding, BundleScenario, ScenarioBundle, ScenarioBundleError, new_bundle,
  unrepeated_bundle,
}
use prospect_engine.Bundle.Wire.{BundleWire, wire_ref, from_wire}
use prospect_engine.Bundle.Json.{
  Value, scalar, Serde, write_value, canonical_json, from_canonical_json,
}
use prospect_engine.Bundle.Laws.{id_of, new_bundle-IsStrict}
use prospect_engine.Bundle.RoundTrip.{
  IsWellFormed, Reads, from_wire-wire_ref, from_canonical_json-canonical_json,
  from_canonical_json-ok,
}

abbrev binding : AdapterBinding
binding = record {
  adapter_id = record { value = text "p.f" };
  contract_version = record { major = 1; minor = 0 };
  upstream = none;
}

abbrev second : BundleScenario ℕ
second = record { id = record { value = text "b" }; intervention = 2 }

abbrev first : BundleScenario ℕ
first = record { id = record { value = text "a" }; intervention = 5 }

abbrev sample : ScenarioBundle ℕ ℕ
sample = record {
  bundle_id = record { value = text "e.f" };
  adapter = binding;
  seed = some 7;
  state = 10;
  scenarios = first ∷ second ∷ [];
  metric = none;
  policy =
      some
        (record { id = record { value = text "p.h" }; version = record { major = 1; minor = 1 } });
}

sample_made :
    ◌≡◌ {A = Result (ScenarioBundle ℕ ℕ) (ScenarioBundleError ℕ)}
      (new_bundle (text "e.f") binding sample.seed 10 (second ∷ first ∷ []) none sample.policy)
      (ok sample)
unfolding new_bundle unrepeated_bundle new_namespaced_id valid_namespaced_id valid_segment
    is_id_byte sort_by_key insert_sorted first_duplicate contains same text_cmp
sample_made = refl

sample-IsWellFormed : IsWellFormed sample
unfolding valid_namespaced_id valid_segment is_id_byte text_cmp
sample-IsWellFormed =
    (refl, (refl, refl, tt), refl, ((refl, tt), (tt, tt)), (refl, (refl, tt)), tt, (refl, refl))

abbrev value_of : Value (BundleWire ℕ ℕ) → Result (BundleWire ℕ ℕ) ℕ
value_of (scalar w) = ok w
value_of _ = err 0

abbrev by_id : Serde (BundleWire ℕ ℕ) ℕ ℕ ℕ
by_id = record {
  to_string = λ w. ok w.bundle_id;
  key_to_string = λ key. ok key;
  to_value = λ w. ok (scalar w);
  from_value = value_of;
  from_str = λ p. if same p (text "e.f") then ok (scalar (wire_ref sample)) else err 1;
}

ok_injective : {A : Type 0} (x y : A) → ◌≡◌ {A = Result A ℕ} (ok x) (ok y) → x ≡ y
ok_injective x y h = ground arith

abbrev sample_value : Value (BundleWire ℕ ℕ)
sample_value = scalar (wire_ref sample)

id_written : (p : Text) → write_value by_id sample_value ≡ ok p → text "e.f" ≡ p
unfolding write_value wire_ref
id_written p k = ok_injective (text "e.f") p k

sample_read : by_id.from_str (text "e.f") ≡ ok sample_value
unfolding same text_cmp text_key
sample_read = refl

by_id-Reads : Reads by_id (wire_ref sample)
by_id-Reads = record {
  converts = λ x v h. subst (λ y. value_of y ≡ ok x) (ok_injective (scalar x) v h) refl;
  parses = λ v p h k.
      let e : sample_value ≡ v = ok_injective sample_value v h in
      subst (λ y. by_id.from_str p ≡ ok y) e
        (subst (λ q. by_id.from_str q ≡ ok sample_value)
          (id_written p (subst (λ y. write_value by_id y ≡ ok p) (sym e) k)) sample_read);
}

sample_written : canonical_json by_id sample ≡ ok (text "e.f")
unfolding canonical_json write_value wire_ref
sample_written = refl

new_bundle-IsStrict_example :
    (is_empty (second ∷ first ∷ []) ≡ false)
    × Permᴰ sample.scenarios (second ∷ first ∷ [])
    × IsStrict id_of sample.scenarios
    × (valid_namespaced_id sample.bundle_id.value ≡ true)
new_bundle-IsStrict_example =
    new_bundle-IsStrict (text "e.f") binding sample.seed 10 (second ∷ first ∷ []) none sample.policy
      sample sample_made

from_wire-wire_ref_example :
    ◌≡◌ {A = Result (ScenarioBundle ℕ ℕ) (ScenarioBundleError ℕ)}
      (from_wire (wire_ref sample))
      (ok sample)
from_wire-wire_ref_example = from_wire-wire_ref sample sample-IsWellFormed

from_canonical_json-canonical_json_example : from_canonical_json by_id (text "e.f") ≡ ok sample
from_canonical_json-canonical_json_example =
    from_canonical_json-canonical_json by_id sample (text "e.f") by_id-Reads sample-IsWellFormed
      sample_written

from_canonical_json-ok_example : canonical_json by_id sample ≡ ok (text "e.f")
from_canonical_json-ok_example =
    from_canonical_json-ok by_id sample (text "e.f") from_canonical_json-canonical_json_example
