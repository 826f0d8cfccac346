-- ===== src/Adapter/Tests.antt =====
-- The metadata theorems at the fixture of the crate's own tests.
use mathlib.Core.List.{Permᴰ}
use prospect_engine.Base.{◌≡◌, refl, ◌↔◌, true, false, none, [], ◌∷◌, ok, err}
use prospect_engine.Base.Text.{text, text_cmp}
use prospect_engine.Base.Sort.{sort_by_key, insert_sorted, adjacent_duplicate}
use prospect_engine.Adapter.{
  ContractVersion, AdapterCapability, AdapterMetadata, duplicate_capability, is_id_byte,
  valid_segment, valid_namespaced_id, new_namespaced_id, checked_metadata, new_metadata,
}
use prospect_engine.Adapter.Metadata.{
  declared, IsAdmissible, new_metadata-ok_iff, new_metadata-Perm,
}

abbrev one_zero : ContractVersion
one_zero = record { major = 1; minor = 0 }

abbrev zeta : AdapterCapability
zeta = record { id = record { value = text "f.z" }; version = one_zero }

abbrev alpha : AdapterCapability
alpha = record { id = record { value = text "f.a" }; version = one_zero }

abbrev fixture : AdapterMetadata
fixture = record {
  adapter_id = record { value = text "p.f" };
  contract_version = one_zero;
  upstream = none;
  capabilities = alpha ∷ zeta ∷ [];
}

fixture_made : new_metadata (text "p.f") one_zero none (zeta ∷ alpha ∷ []) ≡ ok fixture
unfolding new_metadata checked_metadata new_namespaced_id valid_namespaced_id valid_segment
    is_id_byte sort_by_key insert_sorted adjacent_duplicate text_cmp
fixture_made = refl

duplicates_fail :
    new_metadata (text "p.f") one_zero none (zeta ∷ alpha ∷ zeta ∷ [])
    ≡ err (duplicate_capability (text "f.z"))
unfolding new_metadata checked_metadata sort_by_key insert_sorted adjacent_duplicate text_cmp
duplicates_fail = refl

ids_valid : valid_namespaced_id (text "flat.boolean_hamming-routing2") ≡ true
unfolding valid_namespaced_id valid_segment is_id_byte
ids_valid = refl

ids_without_dot : valid_namespaced_id (text "flat") ≡ false
unfolding valid_namespaced_id
ids_without_dot = refl

ids_with_empty_segment : valid_namespaced_id (text "flat..routing") ≡ false
unfolding valid_namespaced_id valid_segment is_id_byte
ids_with_empty_segment = refl

new_metadata-ok_iff_example :
    (new_metadata (text "p.f") one_zero none (zeta ∷ alpha ∷ []) ≡ ok fixture) ↔ (
      IsAdmissible (text "p.f") (zeta ∷ alpha ∷ [])
      × (fixture ≡ declared (text "p.f") one_zero none (zeta ∷ alpha ∷ [])))
new_metadata-ok_iff_example =
    new_metadata-ok_iff (text "p.f") one_zero none (zeta ∷ alpha ∷ []) fixture

new_metadata-Perm_example : new_metadata (text "p.f") one_zero none (alpha ∷ zeta ∷ []) ≡ ok fixture
new_metadata-Perm_example =
    new_metadata-Perm (text "p.f") one_zero none fixture (Permᴰ.swap refl refl) fixture_made
