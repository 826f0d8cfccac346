-- ===== src/Bundle/Laws.antt =====
-- What `ScenarioBundle::new` accepts, and what it makes of it.
use mathlib.Core.List.{Permᴰ}
use prospect_engine.Base.{
  ◌≡◌, true, false, Option, none, some, List, [], map, is_empty, Result, ok, Bool-cases, arith, ℕ,
  inl, inr,
}
use prospect_engine.Base.Text.{Text}
use prospect_engine.Base.Sets.{first_duplicate, first_duplicate-none_iff}
use prospect_engine.Base.Sort.{
  sort_by_key, sort_by_key-Perm, sort_by_key-IsStrict, IsStrict, IsDistinct-Perm, Perm-map,
}
use prospect_engine.Core.{ScenarioId, scenario_id_key}
use prospect_engine.Adapter.{new_namespaced_id, valid_namespaced_id}
use prospect_engine.Bundle.{
  AdapterBinding, RegistryRequirement, BundleScenario, ScenarioBundle, ScenarioBundleError,
  unrepeated_bundle, new_bundle,
}

abbrev pub id_of {ℓ} : {I : Type ℓ} → BundleScenario I → ScenarioId
id_of s = s.id

module _ {ℓ} {State I E : Type ℓ} where
  unrepeated-ok :
      (found : Option ScenarioId) (name : Text) (adapter : AdapterBinding) (seed : Option ℕ)
      (state : State) (sorted : List (BundleScenario I))
      (metric policy : Option RegistryRequirement) {bundle : ScenarioBundle State I}
      → ◌≡◌ {A = Result (ScenarioBundle State I) (ScenarioBundleError E)}
          (unrepeated_bundle found name adapter seed state sorted metric policy)
          (ok bundle)
      → (found ≡ none)
        × (bundle.scenarios ≡ sorted)
        × (valid_namespaced_id bundle.bundle_id.value ≡ true)
  unfolding unrepeated_bundle new_namespaced_id
  unrepeated-ok none name adapter seed state sorted metric policy h = ground arith
  unrepeated-ok (some id) name adapter seed state sorted metric policy h = cc

  -- A bundle that is made has at least one scenario; its scenarios are those given, in strictly
  -- ascending order of their ids, and its own id is valid.
  pub new_bundle-IsStrict :
      (name : Text) (adapter : AdapterBinding) (seed : Option ℕ) (state : State)
      (scenarios : List (BundleScenario I)) (metric policy : Option RegistryRequirement)
      (bundle : ScenarioBundle State I)
      → ◌≡◌ {A = Result (ScenarioBundle State I) (ScenarioBundleError E)}
          (new_bundle name adapter seed state scenarios metric policy)
          (ok bundle)
      → (is_empty scenarios ≡ false)
        × Permᴰ bundle.scenarios scenarios
        × IsStrict id_of bundle.scenarios
        × (valid_namespaced_id bundle.bundle_id.value ≡ true)
  unfolding new_bundle
  new_bundle-IsStrict name adapter seed state scenarios metric policy bundle h =
      elim (Bool-cases (is_empty scenarios)) [
        | inl e ↦ absurd (ground (arith, rw e at h))
        | inr e ↦
            let (found, same, valid) =
              unrepeated-ok (first_duplicate [] (map id_of (sort_by_key id_of scenarios))) name
                adapter seed state (sort_by_key id_of scenarios) metric policy (rw e at h) in
            let distinct =
              (first_duplicate-none_iff (map id_of (sort_by_key id_of scenarios))).0 found in
            (
              e,
              rw same (sort_by_key-Perm id_of scenarios),
              rw same (
                  sort_by_key-IsStrict id_of scenarios
                    (IsDistinct-Perm (Perm-map id_of (sort_by_key-Perm id_of scenarios)) distinct)),
              valid,
            )
      ]
