-- ===== src/Bundle/Json.antt =====
-- crates/prospect-bundle/src/lib.rs: the canonical JSON text of a bundle and its reading. serde_json
-- is a parameter: how it writes scalars and keys, reads a text, and converts the wire struct.
use prospect_engine.Base.{List, [], ◌∷◌, ◌++◌, Result, ok, err, ◌>>=◌, map_err, if◌then◌else◌, not}
use prospect_engine.Base.Text.{Text}
use prospect_engine.Base.Key.{text_key, same}
use prospect_engine.Base.Sort.{sort_by_key}
use prospect_engine.Bundle.{
  ScenarioBundle, ScenarioBundleError, json, non_canonical_json, unsupported_schema,
}
use prospect_engine.Bundle.Wire.{BundleWire, wire_ref, from_wire, scenario_bundle_schema_v1}

-- `serde_json::Value`; a null, Boolean, number or string is a scalar `C` of the library
mutual
  pub data Value {ℓ} (C : Type ℓ) : Type ℓ where
    scalar : C → Value C
    array : Values C → Value C
    object : Entries C → Value C

  pub data Values {ℓ} (C : Type ℓ) : Type ℓ where
    end : Values C
    item : Value C → Values C → Values C

  pub data Entries {ℓ} (C : Type ℓ) : Type ℓ where
    stop : Entries C
    entry : Text → Value C → Entries C → Entries C

-- `serde_json`, as the crate calls it
pub record Serde {ℓ} (C State I E : Type ℓ) : Type ℓ where
  pub to_string : C → Result Text E
  pub key_to_string : Text → Result Text E
  pub to_value : BundleWire State I → Result (Value C) E
  pub from_value : Value C → Result (BundleWire State I) E
  pub from_str : Text → Result (Value C) E

-- parts of an array or object, separated by commas
abbrev pub comma_joined : List Text → Text
comma_joined [] = []
comma_joined (x ∷ []) = x
comma_joined (x ∷ y ∷ ys) = x ++ (44 ∷ comma_joined (y ∷ ys))

abbrev pub fields : List (Text × Text) → List Text
fields [] = []
fields ((key, field) ∷ es) = field ∷ fields es

-- `canonical_json`. The entries of an object are written and then put in key order; in the source
-- they are put in key order first. `serde_json::Map` keeps key order, so an error is the same one.
unfoldable mutual
  pub write_value {ℓ} : {C State I E : Type ℓ} → Serde C State I E → Value C → Result Text E
  write_value serde (scalar c) = serde.to_string c
  write_value serde (array values) =
      write_values serde values >>= λ parts. ok (91 ∷ (comma_joined parts ++ (93 ∷ [])))
  write_value serde (object map) = write_entries serde map >>= λ parts.
      ok (123 ∷ (comma_joined (fields (sort_by_key (λ e. e.0) parts)) ++ (125 ∷ [])))

  pub write_values {ℓ} :
      {C State I E : Type ℓ} → Serde C State I E → Values C → Result (List Text) E
  write_values serde end = ok []
  write_values serde (item v vs) =
      write_value serde v >>= λ part. write_values serde vs >>= λ parts. ok (part ∷ parts)

  pub write_entries {ℓ} :
      {C State I E : Type ℓ} → Serde C State I E → Entries C → Result (List (Text × Text)) E
  write_entries serde stop = ok []
  write_entries serde (entry key v map) = serde.key_to_string key >>= λ name.
      write_value serde v >>= λ part.
      write_entries serde map >>= λ parts. ok ((key, name ++ (58 ∷ part)) ∷ parts)

module _ {ℓ} {C State I E : Type ℓ} (serde : Serde C State I E) where
  -- `ScenarioBundle::canonical_json`
  unfoldable pub canonical_json : ScenarioBundle State I → Result Text (ScenarioBundleError E)
  canonical_json self = map_err json (serde.to_value (wire_ref self)) >>= λ value.
      map_err json (write_value serde value)

  -- `from_canonical_json` from `Self::new` on
  unfoldable pub recheck :
      Text → ScenarioBundle State I → Result (ScenarioBundle State I) (ScenarioBundleError E)
  recheck payload bundle = canonical_json bundle >>= λ canonical.
      if not (same canonical payload) then err non_canonical_json else ok bundle

  -- `from_canonical_json` after the decoding of the wire struct
  unfoldable pub decode :
      Text → BundleWire State I → Result (ScenarioBundle State I) (ScenarioBundleError E)
  decode payload wire =
      if not (same wire.schema scenario_bundle_schema_v1)
      then err unsupported_schema
      else (from_wire wire >>= recheck payload)

  -- `from_canonical_json` after the first reading
  unfoldable pub decode_canonical :
      Text → Value C → Text → Result (ScenarioBundle State I) (ScenarioBundleError E)
  decode_canonical payload value canonical =
      if not (same canonical payload)
      then err non_canonical_json
      else (map_err json (serde.from_value value) >>= decode payload)

  -- `ScenarioBundle::from_canonical_json`
  unfoldable pub from_canonical_json :
      Text → Result (ScenarioBundle State I) (ScenarioBundleError E)
  from_canonical_json payload = map_err json (serde.from_str payload) >>= λ value.
      map_err json (write_value serde value) >>= decode_canonical payload value
