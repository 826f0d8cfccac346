-- ===== src/Registry.antt =====
-- crates/prospect-registry/src/lib.rs: metrics and decision policies registered by id and version.
-- The source writes the two registries out with the same code for two implementation types; here
-- the code is written once, for a type `I` of implementations, and used at both.
use prospect_engine.Base.{
  ℕ, ◌≡◌, Bool, true, false, not, Option, none, some, List, [], map, length, is_empty, Result, ok,
  err, ◌>>=◌, map_err, ok_or, if◌then◌else◌,
}
use prospect_engine.Base.Ord.{Ord}
use prospect_engine.Base.Text.{Text}
use prospect_engine.Base.TreeMap.{get, insert}
use prospect_engine.Core.{SignatureMetric, DecisionPolicy}
use prospect_engine.Adapter.{
  ContractVersion, NamespacedId, namespaced_id_key, new_namespaced_id, supports,
}
pub mod Laws
mod Tests

pub record RegistryEntryMetadata : Type 0 where
  pub id : NamespacedId
  pub version : ContractVersion

pub data RegistryRegistrationError : Type 0 where
  invalid_id : Text → RegistryRegistrationError
  duplicate_id : Text → RegistryRegistrationError

pub data RegistryLookupError : Type 0 where
  invalid_lookup_id : Text → RegistryLookupError
  missing_id : Text → RegistryLookupError
  incompatible_version : Text → ContractVersion → ContractVersion → RegistryLookupError

-- `MetricEntry` and `PolicyEntry`
pub record Entry {ℓ} (I : Type ℓ) : Type ℓ where
  pub metadata : RegistryEntryMetadata
  pub implementation : I

-- `MetricRegistry` and `DecisionPolicyRegistry`
pub record Registry {ℓ} (I : Type ℓ) : Type ℓ where
  pub entries : List (NamespacedId × Entry I)

unfoldable pub parse_id : Text → Result NamespacedId Text
parse_id value = map_err (λ _. value) (new_namespaced_id value)

module _ {ℓ} {I : Type ℓ} where
  abbrev pub new_registry : Registry I
  new_registry = record { entries = [] }

  -- `register` after `contains_key`: the registry is changed only for a new id
  unfoldable pub register_looked_up :
      Registry I
      → NamespacedId
      → Option (Entry I)
      → ContractVersion
      → I
      → Result (Unit {0}) RegistryRegistrationError × Registry I
  register_looked_up self id (some _) version implementation = (err (duplicate_id id.value), self)
  register_looked_up self id none version implementation = (
    ok tt,
    record {
      entries =
          insert id
            (record {
              metadata = record { id = id; version = version };
              implementation = implementation;
            })
            self.entries;
    },
  )

  -- `register` after `parse_id`
  unfoldable pub register_parsed :
      Registry I
      → Result NamespacedId RegistryRegistrationError
      → ContractVersion
      → I
      → Result (Unit {0}) RegistryRegistrationError × Registry I
  register_parsed self (err e) version implementation = (err e, self)
  register_parsed self (ok id) version implementation =
      register_looked_up self id (get id self.entries) version implementation

  unfoldable pub register :
      Registry I
      → Text
      → ContractVersion
      → I
      → Result (Unit {0}) RegistryRegistrationError × Registry I
  register self id version implementation =
      register_parsed self (map_err invalid_id (parse_id id)) version implementation

  unfoldable pub resolve : Registry I → Text → ContractVersion → Result I RegistryLookupError
  resolve self id required = map_err invalid_lookup_id (parse_id id) >>= λ id.
      ok_or (get id self.entries) (missing_id id.value) >>= λ entry.
      if not (supports entry.metadata.version required)
      then err (incompatible_version id.value entry.metadata.version required)
      else ok entry.implementation

  unfoldable pub metadata : Registry I → List RegistryEntryMetadata
  metadata self = map (λ e. e.1.metadata) self.entries

  unfoldable pub len : Registry I → ℕ
  len self = length self.entries

  unfoldable pub registry_is_empty : Registry I → Bool
  registry_is_empty self = is_empty self.entries

module _ {ℓ} {S Score : Type ℓ} where
  -- `MetricRegistry::{register, resolve}`
  unfoldable pub register_metric :
      Registry (SignatureMetric S Score)
      → Text
      → ContractVersion
      → SignatureMetric S Score
      → Result (Unit {0}) RegistryRegistrationError × Registry (SignatureMetric S Score)
  register_metric = register

  unfoldable pub resolve_metric :
      Registry (SignatureMetric S Score)
      → Text
      → ContractVersion
      → Result (SignatureMetric S Score) RegistryLookupError
  resolve_metric = resolve

  -- `DecisionPolicyRegistry::{register, resolve}`
  unfoldable pub register_policy :
      Registry (DecisionPolicy S Score)
      → Text
      → ContractVersion
      → DecisionPolicy S Score
      → Result (Unit {0}) RegistryRegistrationError × Registry (DecisionPolicy S Score)
  register_policy = register

  unfoldable pub resolve_policy :
      Registry (DecisionPolicy S Score)
      → Text
      → ContractVersion
      → Result (DecisionPolicy S Score) RegistryLookupError
  resolve_policy = resolve
