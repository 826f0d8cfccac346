-- ===== src/Dispatch/Catalog/RoundTrip.antt =====
-- Writing a catalog and reading it back.
use prospect_engine.Base.{
  ◌≡◌, refl, ap, ◌∙◌, true, false, All, Result, ok, Result-cases, inl, inr, arith,
}
use mathlib.Core.List.Permᴰ as Perm
use prospect_engine.Base.Text.{Text, is_blank}
use prospect_engine.Base.Key.{text_key, same, same_refl}
use prospect_engine.Base.Sort.{IsStrict}
use prospect_engine.Adapter.{ContractVersion, namespaced_id_key, new_contract_version}
use prospect_engine.Bundle.RoundTrip.{
  Every, IsVersion, IsId, transpose-map_option, traverse-map, new_namespaced_id-value,
}
use prospect_engine.Dispatch.Catalog.{
  AvailableUpstream, AvailableAdapter, AvailableRegistryEntry, DispatchCatalog,
  DispatchCatalogError, new_available_upstream, new_available_adapter, new_registry_entry,
}
use prospect_engine.Dispatch.Catalog.Laws.{new_catalog-ok_iff}
use prospect_engine.Dispatch.Catalog.Json.{
  CatalogSerde, dispatch_catalog_schema_v1, catalog_version_to_wire, available_upstream_to_wire,
  available_adapter_to_wire, registry_to_wire, to_wire, catalog_version_from_wire,
  available_upstream_from_wire, available_adapter_from_wire, registry_from_wire, catalog_from_wire,
  catalog_canonical_json, catalog_rechecked, catalog_decoded, catalog_from_canonical_json,
}

-- What the constructors of the parts check.
abbrev pub IsAvailableUpstream : AvailableUpstream → Type 0
IsAvailableUpstream u = IsId u.component × (is_blank u.revision ≡ false)

abbrev pub IsAvailableAdapter : AvailableAdapter → Type 0
IsAvailableAdapter a =
    IsId a.adapter_id × IsVersion a.contract_version × Every IsAvailableUpstream a.upstream

abbrev pub IsRegistryEntry : AvailableRegistryEntry → Type 0
IsRegistryEntry e = IsId e.id × IsVersion e.version

-- parts as their constructors make them, each list in strictly ascending order of its ids
abbrev pub IsWellFormed : DispatchCatalog → Type 0
IsWellFormed c =
    (All IsAvailableAdapter c.adapters × IsStrict (λ a. a.adapter_id) c.adapters)
    × (All IsRegistryEntry c.metrics × IsStrict (λ e. e.id) c.metrics)
    × All IsRegistryEntry c.policies
    × IsStrict (λ e. e.id) c.policies

module _ {ℓ} {E : Type ℓ} where
  catalog_version_from_wire-to_wire :
      (v : ContractVersion)
      → IsVersion v
      → ◌≡◌ {A = Result ContractVersion (DispatchCatalogError E)}
          (catalog_version_from_wire (catalog_version_to_wire v))
          (ok v)
  unfolding catalog_version_from_wire catalog_version_to_wire new_contract_version
  catalog_version_from_wire-to_wire v h = rw h refl

  available_upstream_from_wire-to_wire :
      (u : AvailableUpstream)
      → IsAvailableUpstream u
      → ◌≡◌ {A = Result AvailableUpstream (DispatchCatalogError E)}
          (available_upstream_from_wire (available_upstream_to_wire u))
          (ok u)
  unfolding available_upstream_from_wire available_upstream_to_wire new_available_upstream
  available_upstream_from_wire-to_wire u h = rw (h.1, new_namespaced_id-value u.component h.0) refl

  available_adapter_from_wire-to_wire :
      (a : AvailableAdapter)
      → IsAvailableAdapter a
      → ◌≡◌ {A = Result AvailableAdapter (DispatchCatalogError E)}
          (available_adapter_from_wire (available_adapter_to_wire a))
          (ok a)
  unfolding available_adapter_from_wire available_adapter_to_wire new_available_adapter
  available_adapter_from_wire-to_wire a h =
      rw
        (
          catalog_version_from_wire-to_wire a.contract_version h.1,
          transpose-map_option available_upstream_from_wire available_upstream_to_wire
              IsAvailableUpstream available_upstream_from_wire-to_wire a.upstream h.2,
          new_namespaced_id-value a.adapter_id h.0,
        )
        refl

  registry_from_wire-to_wire :
      (e : AvailableRegistryEntry)
      → IsRegistryEntry e
      → ◌≡◌ {A = Result AvailableRegistryEntry (DispatchCatalogError E)}
          (registry_from_wire (registry_to_wire e))
          (ok e)
  unfolding registry_from_wire registry_to_wire new_registry_entry
  registry_from_wire-to_wire e h =
      rw (catalog_version_from_wire-to_wire e.version h.1, new_namespaced_id-value e.id h.0) refl

  catalog_from_wire-to_wire :
      (c : DispatchCatalog)
      → IsWellFormed c
      → ◌≡◌ {A = Result DispatchCatalog (DispatchCatalogError E)}
          (catalog_from_wire (to_wire c))
          (ok c)
  unfolding catalog_from_wire to_wire
  catalog_from_wire-to_wire c wf =
      rw
        (
          traverse-map available_adapter_from_wire available_adapter_to_wire IsAvailableAdapter
              available_adapter_from_wire-to_wire c.adapters wf.0.0,
          traverse-map registry_from_wire registry_to_wire IsRegistryEntry
              registry_from_wire-to_wire c.metrics wf.1.0,
          traverse-map registry_from_wire registry_to_wire IsRegistryEntry
              registry_from_wire-to_wire c.policies wf.2,
        )
        ((new_catalog-ok_iff c.adapters c.metrics c.policies c).1 (
          (Perm.refl c.adapters, wf.0.1),
          (Perm.refl c.metrics, wf.1.1),
          (Perm.refl c.policies, wf.3),
        ))

schema-to_wire : (c : DispatchCatalog) → same (to_wire c).schema dispatch_catalog_schema_v1 ≡ true
unfolding to_wire
schema-to_wire c = same_refl dispatch_catalog_schema_v1

-- The canonical text of a catalog whose parts are as their constructors make them, and whose lists
-- are in strictly ascending order of their ids, is read back as that catalog, if serde_json reads
-- the text that it writes for the wire struct of the catalog as that wire struct.
pub from_canonical_json-canonical_catalog {ℓ} :
    {E : Type ℓ} (serde : CatalogSerde E) (c : DispatchCatalog) (p : Text)
    → (serde.to_string (to_wire c) ≡ ok p → serde.from_str p ≡ ok (to_wire c))
    → IsWellFormed c
    → catalog_canonical_json serde c ≡ ok p
    → catalog_from_canonical_json serde p ≡ ok c
unfolding catalog_from_canonical_json catalog_decoded catalog_rechecked catalog_canonical_json
from_canonical_json-canonical_catalog {E = E} serde c p reads wf h =
    elim (Result-cases (serde.to_string (to_wire c))) [
      | inr (e, q) ↦ absurd (ground (arith, rw q at h))
      | inl (t, q) ↦
          let same_text : t ≡ p = ground (arith, rw q at h) in
          let written : serde.to_string (to_wire c) ≡ ok p = q ∙ ap ok same_text in
          rw
            (
              reads written,
              schema-to_wire c,
              catalog_from_wire-to_wire {E = E} c wf,
              written,
              same_refl p,
            )
            refl
    ]
