-- ===== src/Core.antt =====
-- crates/prospect-core/src/lib.rs: scenarios and the engine, metric and policy contracts.
-- An engine is called through `&self` and may hold interior state, so a call takes and returns a
-- value of `W`, the world outside the generic layer. Metrics and policies are functions.
use prospect_engine.Base.{◌≡◌, Result, ok, err, if◌then◌else◌, eq}
use prospect_engine.Base.Effects.{Effect}
use prospect_engine.Base.Ord.{Ord}
use prospect_engine.Base.Key.{Key, text_key}
use prospect_engine.Base.Text.{Text, text_cmp, text_cmp-flip, text_cmp_trans, text_cmp-eq, is_blank}

pub record ScenarioId : Type 0 where
  pub value : Text

pub data InvalidScenarioId : Type 0 where
  invalid_scenario_id : InvalidScenarioId

-- `ScenarioId::new`
unfoldable pub new_scenario_id : Text → Result ScenarioId InvalidScenarioId
new_scenario_id value =
    if is_blank value then err invalid_scenario_id else ok (record { value = value })

pub record Scenario {ℓ} (I : Type ℓ) : Type ℓ where
  pub id : ScenarioId
  pub intervention : I

-- The derived `Ord` of the newtype.
instance abbrev pub scenario_id_ord : Ord ScenarioId
scenario_id_ord = record {
  cmp = λ a b. text_cmp a.value b.value;
  cmp_flip = λ a b. text_cmp-flip a.value b.value;
  cmp_trans = λ a b c. text_cmp_trans a.value b.value c.value;
}

pub scenario_id_eq : (a b : ScenarioId) → text_cmp a.value b.value ≡ eq → a ≡ b
scenario_id_eq a b h = λ i. record { value = text_cmp-eq a.value b.value h i }

instance abbrev pub scenario_id_key : Key ScenarioId
scenario_id_key = record { order = scenario_id_ord; eq_of_cmp = scenario_id_eq }

-- trait `ProspectiveEngine<State, Intervention>` with its `Signature` and `Error`
pub record ProspectiveEngine {ℓ} (State I S E W : Type ℓ) : Type ℓ where
  pub baseline : State → Effect W E S
  pub evaluate : State → I → Effect W E S

-- trait `SignatureMetric<Signature>`
pub record SignatureMetric {ℓ} (S Score : Type ℓ) : Type ℓ where
  pub compare : S → S → Score

-- trait `DecisionPolicy<Signature>`
pub record DecisionPolicy {ℓ} (S Score : Type ℓ) : Type ℓ where
  pub utility : S → Score
