-- ===== src/Adapter.antt =====
-- crates/prospect-adapter/src/lib.rs: contract versions, namespaced ids and the metadata that an
-- adapter declares.
use prospect_engine.Base.{
  ℕ, length, ◌≡◌, Bool, true, false, not, ◌&&◌, ◌||◌, Option, none, some, List, [], ◌∷◌, any, all,
  find, is_empty, ◌==◌, ltb, leb, if◌then◌else◌, Result, ok, err, ◌>>=◌, eq,
}
use prospect_engine.Base.Ord.{Ord}
use prospect_engine.Base.Key.{Key, text_key, same}
use prospect_engine.Base.Sort.{sort_by_key, adjacent_duplicate}
use prospect_engine.Base.Text.{
  Text, text, bytes, is_blank, split, text_cmp, text_cmp-flip, text_cmp_trans, text_cmp-eq,
}
pub mod BuiltIn
pub mod Metadata
pub mod Versions
mod Tests

-- Both numbers are `u16`. They are only compared.
pub record ContractVersion : Type 0 where
  pub major : ℕ
  pub minor : ℕ

pub record NamespacedId : Type 0 where
  pub value : Text

pub record AdapterCapability : Type 0 where
  pub id : NamespacedId
  pub version : ContractVersion

pub record AdapterUpstream : Type 0 where
  pub component : NamespacedId
  pub revision : Text

pub record AdapterMetadata : Type 0 where
  pub adapter_id : NamespacedId
  pub contract_version : ContractVersion
  pub upstream : Option AdapterUpstream
  pub capabilities : List AdapterCapability

pub data AdapterMetadataError : Type 0 where
  zero_major_version : AdapterMetadataError
  invalid_namespaced_id : Text → AdapterMetadataError
  empty_revision : AdapterMetadataError
  empty_capabilities : AdapterMetadataError
  duplicate_capability : Text → AdapterMetadataError

abbrev pub adapter_contract_version : ContractVersion
adapter_contract_version = record { major = 1; minor = 0 }

-- The derived `Ord` of the newtype.
abbrev pub namespaced_id_ord : Ord NamespacedId
namespaced_id_ord = record {
  cmp = λ a b. text_cmp a.value b.value;
  cmp_flip = λ a b. text_cmp-flip a.value b.value;
  cmp_trans = λ a b c. text_cmp_trans a.value b.value c.value;
}

pub namespaced_id_eq : (a b : NamespacedId) → text_cmp a.value b.value ≡ eq → a ≡ b
namespaced_id_eq a b h = λ i. record { value = text_cmp-eq a.value b.value h i }

instance abbrev pub namespaced_id_key : Key NamespacedId
namespaced_id_key = record { order = namespaced_id_ord; eq_of_cmp = namespaced_id_eq }

-- `ContractVersion::new`
unfoldable pub new_contract_version : ℕ → ℕ → Result ContractVersion AdapterMetadataError
new_contract_version major minor =
    if major == 0 then err zero_major_version else ok (record { major = major; minor = minor })

-- `ContractVersion::supports`
unfoldable pub supports : ContractVersion → ContractVersion → Bool
supports self required = self.major == required.major && leb required.minor self.minor

-- `u8::is_ascii_lowercase` and `u8::is_ascii_digit`
abbrev pub is_ascii_lowercase : ℕ → Bool
is_ascii_lowercase b = leb 97 b && leb b 122

abbrev pub is_ascii_digit : ℕ → Bool
is_ascii_digit b = leb 48 b && leb b 57

unfoldable pub is_id_byte : ℕ → Bool
is_id_byte byte = is_ascii_lowercase byte || is_ascii_digit byte || byte == 45 || byte == 95

-- the closure of `valid_namespaced_id`, on the bytes of a segment
unfoldable pub valid_segment : List ℕ → Bool
valid_segment [] = false
valid_segment (first ∷ rest) = is_ascii_lowercase first && all is_id_byte rest

unfoldable pub valid_namespaced_id : Text → Bool
valid_namespaced_id value =
    if ltb 128 (length (bytes value)) || not (any (λ c. c == 46) value)
    then false
    else all (λ segment. valid_segment (bytes segment)) (split 46 value)

-- `NamespacedId::new`
unfoldable pub new_namespaced_id : Text → Result NamespacedId AdapterMetadataError
new_namespaced_id value =
    if not (valid_namespaced_id value)
    then err (invalid_namespaced_id value)
    else ok (record { value = value })

-- `AdapterCapability::new`
unfoldable pub new_capability :
    Text → ContractVersion → Result AdapterCapability AdapterMetadataError
new_capability id version =
    new_namespaced_id id >>= λ id. ok (record { id = id; version = version })

-- `AdapterUpstream::new`
unfoldable pub new_upstream : Text → Text → Result AdapterUpstream AdapterMetadataError
new_upstream component revision =
    if is_blank revision
    then err empty_revision
    else (new_namespaced_id component >>= λ component.
        ok (record { component = component; revision = revision }))

-- `AdapterMetadata::new` after the test for duplicates
unfoldable pub checked_metadata :
    Text
    → ContractVersion
    → Option AdapterUpstream
    → List AdapterCapability
    → Option AdapterCapability
    → Result AdapterMetadata AdapterMetadataError
checked_metadata adapter_id contract_version upstream capabilities (some duplicate) =
    err (duplicate_capability duplicate.id.value)
checked_metadata adapter_id contract_version upstream capabilities none =
    new_namespaced_id adapter_id >>= λ adapter_id. ok (record {
      adapter_id = adapter_id;
      contract_version = contract_version;
      upstream = upstream;
      capabilities = capabilities;
    })

-- `AdapterMetadata::new`
unfoldable pub new_metadata :
    Text
    → ContractVersion
    → Option AdapterUpstream
    → List AdapterCapability
    → Result AdapterMetadata AdapterMetadataError
new_metadata adapter_id contract_version upstream capabilities =
    if is_empty capabilities
    then err empty_capabilities
    else (let sorted = sort_by_key (λ c. c.id) capabilities in
        checked_metadata adapter_id contract_version upstream sorted
          (adjacent_duplicate (λ c. c.id) sorted))

-- `option.is_some_and(|capability| capability.version.supports(required))`
unfoldable pub found_supports : Option AdapterCapability → ContractVersion → Bool
found_supports none required = false
found_supports (some capability) required = supports capability.version required

-- `AdapterMetadata::supports_capability`
unfoldable pub supports_capability : AdapterMetadata → Text → ContractVersion → Bool
supports_capability self id required =
    found_supports (find (λ capability. same capability.id.value id) self.capabilities) required
