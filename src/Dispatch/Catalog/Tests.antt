-- ===== src/Dispatch/Catalog/Tests.antt =====
-- The catalog theorems at one catalog of two adapters and one metric.
use prospect_engine.Base.{ℕ, ◌≡◌, refl, ◌↔◌, none, some, [], ◌∷◌, ok}
use prospect_engine.Base.Text.{text, text_cmp}
use prospect_engine.Base.Sort.{sort_by_key, insert_sorted, adjacent_duplicate}
use prospect_engine.Bundle.{ScenarioBundle}
use prospect_engine.Dispatch.Catalog.{
  AvailableAdapter, AvailableRegistryEntry, DispatchCatalog, ResolvedCatalogRequirements,
  new_catalog, reject_duplicate_adapters, reject_duplicate_registry, adapter_repeated,
  entry_repeated, resolve_bundle,
}
use prospect_engine.Adapter.{valid_namespaced_id, valid_segment, is_id_byte}
use prospect_engine.Dispatch.Catalog.Json.{
  CatalogSerde, dispatch_catalog_schema_v1, to_wire, catalog_canonical_json,
  catalog_from_canonical_json,
}
use prospect_engine.Dispatch.Catalog.RoundTrip.{IsWellFormed, from_canonical_json-canonical_catalog}
use prospect_engine.Dispatch.Catalog.Laws.{IsCatalogOf, new_catalog-ok_iff}
use prospect_engine.Dispatch.Catalog.Resolve.{IsPreflighted, resolve_bundle-ok_iff}

abbrev fixture : AvailableAdapter
fixture = record {
  adapter_id = record { value = text "p.f" };
  contract_version = record { major = 1; minor = 2 };
  upstream = none;
}

abbrev other : AvailableAdapter
other = record {
  adapter_id = record { value = text "p.a" };
  contract_version = record { major = 1; minor = 0 };
  upstream = none;
}

abbrev metric : AvailableRegistryEntry
metric = record { id = record { value = text "m.a" }; version = record { major = 1; minor = 0 } }

abbrev catalog : DispatchCatalog
catalog = record { adapters = other ∷ fixture ∷ []; metrics = metric ∷ []; policies = [] }

abbrev bundle : ScenarioBundle ℕ ℕ
bundle = record {
  bundle_id = record { value = text "e.f" };
  adapter = record {
    adapter_id = record { value = text "p.f" };
    contract_version = record { major = 1; minor = 0 };
    upstream = none;
  };
  seed = none;
  state = 10;
  scenarios = record { id = record { value = text "a" }; intervention = 5 } ∷ [];
  metric = some (record { id = metric.id; version = metric.version });
  policy = none;
}

abbrev resolved : ResolvedCatalogRequirements
resolved = record { adapter = fixture; metric = some metric; policy = none }

new_catalog_run : new_catalog {E = ℕ} (fixture ∷ other ∷ []) (metric ∷ []) [] ≡ ok catalog
unfolding new_catalog reject_duplicate_adapters reject_duplicate_registry adapter_repeated
    entry_repeated sort_by_key insert_sorted adjacent_duplicate text_cmp
new_catalog_run = refl

new_catalog-ok_iff_example :
    (new_catalog {E = ℕ} (fixture ∷ other ∷ []) (metric ∷ []) [] ≡ ok catalog)
    ↔ IsCatalogOf (fixture ∷ other ∷ []) (metric ∷ []) [] catalog
new_catalog-ok_iff_example = new_catalog-ok_iff (fixture ∷ other ∷ []) (metric ∷ []) [] catalog

resolve_bundle-ok_iff_example :
    (resolve_bundle catalog bundle ≡ ok resolved)
    ↔ IsPreflighted (fixture ∷ other ∷ []) (metric ∷ []) [] bundle resolved
resolve_bundle-ok_iff_example =
    resolve_bundle-ok_iff (fixture ∷ other ∷ []) (metric ∷ []) [] catalog bundle resolved
      new_catalog_run

-- A library that writes the schema of a wire struct and reads every text as the sample.
abbrev by_schema : CatalogSerde ℕ
by_schema = record { to_string = λ w. ok w.schema; from_str = λ _. ok (to_wire catalog) }

catalog-IsWellFormed : IsWellFormed catalog
unfolding valid_namespaced_id valid_segment is_id_byte text_cmp
catalog-IsWellFormed = (
  (((refl, refl, tt), ((refl, refl, tt), tt)), ((refl, tt), (tt, tt))),
  (((refl, refl), tt), (tt, tt)),
  tt,
  tt,
)

from_canonical_json-canonical_catalog_example :
    catalog_from_canonical_json by_schema dispatch_catalog_schema_v1 ≡ ok catalog
unfolding catalog_canonical_json to_wire
from_canonical_json-canonical_catalog_example =
    from_canonical_json-canonical_catalog by_schema catalog dispatch_catalog_schema_v1 (λ _. refl)
      catalog-IsWellFormed refl
