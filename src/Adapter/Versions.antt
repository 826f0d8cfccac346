-- ===== src/Adapter/Versions.antt =====
-- crates/prospect-adapter/src/lib.rs: when a version supports another.
use prospect_engine.Base.{◌≤◌, ◌≡◌, ◌↔◌, true, arith}
use prospect_engine.Adapter.{ContractVersion, supports}

-- the same major version, and at least the minor version asked for
abbrev pub Supports : ContractVersion → ContractVersion → Type 0
Supports offered required = (offered.major ≡ required.major) × (required.minor ≤ offered.minor)

pub supports_iff :
    (offered required : ContractVersion)
    → (supports offered required ≡ true) ↔ Supports offered required
unfolding supports
supports_iff offered required = (λ h. ground (arith, h), λ h. ground (arith, h.0, h.1))
