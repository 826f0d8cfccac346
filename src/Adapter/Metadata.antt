-- ===== src/Adapter/Metadata.antt =====
-- What `AdapterMetadata::new` accepts, and what `supports_capability` answers about it.
use mathlib.Core.List.{Permᴰ}
use mathlib.Core.List.Permᴰ as Perm
use prospect_engine.Base.{
  ◌≡◌, refl, sym, ◌↔◌, Bool, true, false, ◌&&◌, Option, none, some, List, map, is_empty, inl, inr,
  Bool-cases, ok, arith,
}
use prospect_engine.Base.Key.{text_key, same}
use prospect_engine.Base.Sets.{IsDistinct}
use prospect_engine.Base.Sort.{
  sort_by_key, adjacent_duplicate, adjacent_duplicate-sort_iff, sort_by_key_unique, IsDistinct-Perm,
  Perm-map,
}
use prospect_engine.Base.Text.{Text}
use prospect_engine.Adapter.{
  ContractVersion, NamespacedId, AdapterCapability, AdapterUpstream, AdapterMetadata,
  namespaced_id_key, valid_namespaced_id, new_namespaced_id, checked_metadata, new_metadata,
  supports,
}

abbrev pub id_of : AdapterCapability → NamespacedId
id_of c = c.id

-- the metadata that the arguments declare
abbrev pub declared :
    Text → ContractVersion → Option AdapterUpstream → List AdapterCapability → AdapterMetadata
declared id version upstream capabilities = record {
  adapter_id = record { value = id };
  contract_version = version;
  upstream = upstream;
  capabilities = sort_by_key id_of capabilities;
}

-- the arguments that `AdapterMetadata::new` accepts
abbrev pub IsAdmissible : Text → List AdapterCapability → Type 0
IsAdmissible id capabilities =
    (is_empty capabilities ≡ false)
    × IsDistinct (map id_of capabilities)
    × (valid_namespaced_id id ≡ true)

module _ (id : Text) (version : ContractVersion) (upstream : Option AdapterUpstream) where
  checked-ok :
      (capabilities sorted : List AdapterCapability) (found : Option AdapterCapability)
      {m : AdapterMetadata}
      → checked_metadata id version upstream sorted found ≡ ok m
      → (found ≡ none)
        × (valid_namespaced_id id ≡ true)
        × (m ≡ record {
          adapter_id = record { value = id };
          contract_version = version;
          upstream = upstream;
          capabilities = sorted;
        })
  unfolding checked_metadata new_namespaced_id
  checked-ok capabilities sorted none h = ground arith
  checked-ok capabilities sorted (some c) h = cc

  -- `AdapterMetadata::new` succeeds exactly when the capabilities are not empty, no capability id
  -- occurs twice and the adapter id is valid; the metadata then holds the arguments, with the
  -- capabilities sorted by id.
  pub new_metadata-ok_iff :
      (capabilities : List AdapterCapability) (m : AdapterMetadata)
      → (new_metadata id version upstream capabilities ≡ ok m)
        ↔ (IsAdmissible id capabilities × (m ≡ declared id version upstream capabilities))
  unfolding new_metadata checked_metadata new_namespaced_id
  new_metadata-ok_iff capabilities m = (
    λ h. elim (Bool-cases (is_empty capabilities)) [
      | inl e ↦ absurd (ground (arith, h))
      | inr e ↦
          let (found, valid, shape) =
            checked-ok capabilities (sort_by_key id_of capabilities)
              (adjacent_duplicate id_of (sort_by_key id_of capabilities)) (rw e at h) in
          ((e, (adjacent_duplicate-sort_iff id_of capabilities).0 found, valid), shape)
    ],
    λ h. rw (h.0.0, (adjacent_duplicate-sort_iff id_of capabilities).1 h.0.1, h.0.2, h.1) refl,
  )

is_empty-Perm :
    {xs ys : List AdapterCapability} → Permᴰ xs ys → is_empty xs ≡ false → is_empty ys ≡ false
is_empty-Perm Permᴰ.nil h = h
is_empty-Perm (Permᴰ.cons e d) h = refl
is_empty-Perm (Permᴰ.swap e d) h = refl
is_empty-Perm (Permᴰ.trans c d) h = is_empty-Perm d (is_empty-Perm c h)

-- A capability for the id that is good enough.
unfoldable pub offers : Text → ContractVersion → AdapterCapability → Bool
offers id required capability = same capability.id.value id && supports capability.version required

-- Metadata that is made does not depend on the order in which the capabilities are listed.
pub new_metadata-Perm :
    (id : Text) (version : ContractVersion) (upstream : Option AdapterUpstream)
    {listed reordered : List AdapterCapability} (m : AdapterMetadata)
    → Permᴰ listed reordered
    → new_metadata id version upstream listed ≡ ok m
    → new_metadata id version upstream reordered ≡ ok m
new_metadata-Perm id version upstream {listed} {reordered} m p h =
    let (admissible, e) = (new_metadata-ok_iff id version upstream listed m).0 h in
    (new_metadata-ok_iff id version upstream reordered m).1 (
      (is_empty-Perm p admissible.0, IsDistinct-Perm (Perm-map id_of p) admissible.1, admissible.2),
      rw (sym (sort_by_key_unique id_of p admissible.1)) e,
    )
