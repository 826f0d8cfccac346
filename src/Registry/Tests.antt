-- ===== src/Registry/Tests.antt =====
-- The registry theorems at registries of numbers.
use prospect_engine.Base.{ℕ, ◌≡◌, refl, ◌↔◌, suc, [], ◌∷◌, if◌then◌else◌, ok, err}
use prospect_engine.Base.Text.{Text, text}
use prospect_engine.Base.Key.{text_key, same}
use prospect_engine.Base.TreeMap.{get, insert}
use prospect_engine.Adapter.{
  ContractVersion, is_id_byte, valid_segment, valid_namespaced_id, new_namespaced_id,
}
use prospect_engine.Registry.{
  Registry, new_registry, parse_id, register, register_parsed, register_looked_up, resolve,
  missing_id, len, invalid_id,
}
use prospect_engine.Registry.Laws.{
  made, answer, IsWellFormed, register-resolve, register-ok_iff, register-err,
  register-IsWellFormed,
}

abbrev one_two : ContractVersion
one_two = record { major = 1; minor = 2 }

abbrev name : Text
name = text "m.d"

abbrev empty : Registry ℕ
empty = new_registry

abbrev single : Registry ℕ
single = record {
  entries = (record { value = name }, made (record { value = name }) one_two 7) ∷ [];
}

registered : register empty name one_two 7 ≡ (ok tt, single)
unfolding register register_parsed register_looked_up parse_id new_namespaced_id valid_namespaced_id
    valid_segment is_id_byte get insert
registered = refl

refused : register single (text "m") one_two 7 ≡ (err (invalid_id (text "m")), single)
unfolding register register_parsed parse_id new_namespaced_id valid_namespaced_id
refused = refl

register-resolve_example :
    resolve single name one_two
    ≡ (if same name name then answer name one_two one_two 7 else resolve empty name one_two)
register-resolve_example = register-resolve empty single name one_two 7 registered name one_two

register-ok_iff_example :
    ((register empty name one_two 7).0 ≡ ok tt)
    ↔ (resolve empty name one_two ≡ err (missing_id name))
register-ok_iff_example = register-ok_iff empty name one_two one_two 7

register-err_example : single ≡ single
register-err_example =
    register-err single single (text "m") one_two 7 (invalid_id (text "m")) refused

register-IsWellFormed_example : IsWellFormed single × (len single ≡ suc (len empty))
register-IsWellFormed_example =
    register-IsWellFormed empty single name one_two 7 (tt, tt) registered
