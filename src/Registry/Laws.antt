-- ===== src/Registry/Laws.antt =====
-- A registry behaves as a partial map from ids to versioned implementations.
use prospect_engine.Base.{
  ◌≡◌, inl, inr, refl, sym, ap, ◌∙◌, ◌↔◌, true, none, some, suc, if◌then◌else◌, Result, ok, err,
  Option-cases, Result-cases, Bool-cases, arith, All,
}
use prospect_engine.Base.Text.{Text}
use prospect_engine.Base.Key.{text_key, same, same→eq, eq→same}
use prospect_engine.Base.TreeMap.{
  get, insert, IsAscending, insert-IsAscending, get-insert_self, get-insert_ne, length-insert,
  All-insert,
}
use prospect_engine.Adapter.{
  ContractVersion, NamespacedId, namespaced_id_key, new_namespaced_id, valid_namespaced_id,
  supports,
}
use prospect_engine.Registry.{
  Registry, Entry, parse_id, register, register_parsed, register_looked_up, resolve, len,
  RegistryLookupError, RegistryRegistrationError, missing_id, incompatible_version,
}

parse_id-ok : (name : Text) (id : NamespacedId) → parse_id name ≡ ok id → id.value ≡ name
unfolding parse_id new_namespaced_id
parse_id-ok name id h = ground arith

parse_id-valid :
    (name : Text) (id : NamespacedId) → parse_id name ≡ ok id → valid_namespaced_id id.value ≡ true
unfolding parse_id new_namespaced_id
parse_id-valid name id h = ground arith

module _ {ℓ} {I : Type ℓ} where
  -- the entry that `register` makes
  abbrev pub made : NamespacedId → ContractVersion → I → Entry I
  made id version i = record {
    metadata = record { id = id; version = version };
    implementation = i;
  }

  -- What a registration that succeeds found and did.
  abbrev pub Registered : Registry I → Text → ContractVersion → I → Registry I → Type ℓ
  Registered r name version i r' =
      (id : NamespacedId) × (parse_id name ≡ ok id)
      × (get id r.entries ≡ none)
      × (r' ≡ record { entries = insert id (made id version i) r.entries })

  pub register-ok :
      (r r' : Registry I) (name : Text) (version : ContractVersion) (i : I)
      → register r name version i ≡ (ok tt, r')
      → Registered r name version i r'
  unfolding register register_parsed register_looked_up
  register-ok r r' name version i h = elim (Result-cases (parse_id name)) [
    | inr (e, q) ↦ absurd (ground (arith, q, h))
    | inl (id, q) ↦ elim (Option-cases (get id r.entries)) [
      | inr (x, g) ↦ absurd (ground (arith, rw (q, register_parsed, g) at h))
      | inl g ↦ (id, q, g, ground (arith, rw (q, register_parsed, g) at h))
    ]
  ]

  -- what `resolve` answers about an entry
  abbrev pub answer : Text → ContractVersion → ContractVersion → I → Result I RegistryLookupError
  answer name offered required i =
      if supports offered required then ok i else err (incompatible_version name offered required)

  resolve-found :
      (r : Registry I) (name : Text) (required : ContractVersion) (id : NamespacedId) (e : Entry I)
      → parse_id name ≡ ok id
      → get id r.entries ≡ some e
      → resolve r name required ≡ answer name e.metadata.version required e.implementation
  unfolding resolve
  resolve-found r name required id e p g =
      rw (p, g, parse_id-ok name id p)
        (elim (Bool-cases (supports e.metadata.version required)) [
          | inl s ↦ rw s refl
          | inr s ↦ rw s refl
        ])

  resolve-same_get :
      (r r' : Registry I) (name : Text) (required : ContractVersion)
      → ((id : NamespacedId) → parse_id name ≡ ok id → get id r'.entries ≡ get id r.entries)
      → resolve r' name required ≡ resolve r name required
  unfolding resolve
  resolve-same_get r r' name required h = elim (Result-cases (parse_id name)) [
    | inr (e, p) ↦ rw p refl
    | inl (id, p) ↦ rw (p, h id p) refl
  ]

  -- After a successful registration its id resolves to the implementation given, if its version
  -- supports the required one, and every other id resolves as before.
  pub register-resolve :
      (r r' : Registry I) (name : Text) (version : ContractVersion) (i : I)
      → register r name version i ≡ (ok tt, r')
      → (query : Text) (required : ContractVersion)
      → resolve r' query required
        ≡ (if same query name then answer query version required i else resolve r query required)
  register-resolve r r' name version i h query required =
      let (id, p, g, shape) = register-ok r r' name version i h in
      elim (Bool-cases (same query name)) [
        | inl s ↦
            rw (s, shape)
              (resolve-found (record { entries = insert id (made id version i) r.entries }) query
                required id (made id version i) (ap parse_id (same→eq query name s) ∙ p)
                (get-insert_self id (made id version i) r.entries))
        | inr s ↦
            rw (s, shape)
              (resolve-same_get r (record { entries = insert id (made id version i) r.entries })
                query required
                (λ other q. get-insert_ne other id (made id version i) r.entries (λ e. ground (
                  arith,
                  s,
                  eq→same query name (
                      sym (parse_id-ok query other q)
                      ∙ ap (λ x. x.value) e
                      ∙ parse_id-ok name id p),
                ))))
      ]

  -- Registration succeeds exactly for the ids that `resolve` reports as missing.
  pub register-ok_iff :
      (r : Registry I) (name : Text) (version required : ContractVersion) (i : I)
      → ((register r name version i).0 ≡ ok tt) ↔ (resolve r name required ≡ err (missing_id name))
  unfolding register register_parsed register_looked_up resolve
  register-ok_iff r name version required i = elim (Result-cases (parse_id name)) [
    | inr (e, p) ↦ rw p ((λ h. ground (arith, h)), (λ h. ground (arith, h)))
    | inl (id, p) ↦ elim (Option-cases (get id r.entries)) [
      | inl g ↦
          rw (p, register_parsed, g)
            ((λ h. ap (λ x. err (missing_id x)) (parse_id-ok name id p)), (λ h. refl))
      | inr (e, g) ↦ (
        λ h. absurd (ground (arith, rw (p, register_parsed, g) at h)),
        λ h. elim (Bool-cases (supports e.metadata.version required)) [
          | inl s ↦ absurd (ground (arith, rw (p, g, s) at h))
          | inr s ↦ absurd (ground (arith, rw (p, g, s) at h))
        ],
      )
    ]
  ]

  -- A registration that fails leaves the registry as it was.
  pub register-err :
      (r r' : Registry I) (name : Text) (version : ContractVersion) (i : I)
      (e : RegistryRegistrationError)
      → register r name version i ≡ (err e, r')
      → r' ≡ r
  unfolding register register_parsed register_looked_up
  register-err r r' name version i e h = elim (Result-cases (parse_id name)) [
    | inr (x, p) ↦ ground (arith, rw p at h)
    | inl (id, p) ↦ elim (Option-cases (get id r.entries)) [
      | inl g ↦ absurd (ground (arith, rw (p, register_parsed, g) at h))
      | inr (x, g) ↦ ground (arith, rw (p, register_parsed, g) at h)
    ]
  ]

  -- an entry that stands under its own id, which is valid
  abbrev pub IsKeyed : NamespacedId × Entry I → Type 0
  IsKeyed (id, e) = (e.metadata.id ≡ id) × (valid_namespaced_id id.value ≡ true)

  -- the entries are in id order, no id twice, each under its own id
  abbrev pub IsWellFormed : Registry I → Type 0
  IsWellFormed r = IsAscending r.entries × All IsKeyed r.entries

  -- A registration that succeeds keeps the entries in id order, each under its own valid id, and
  -- makes the registry one entry longer.
  pub register-IsWellFormed :
      (r r' : Registry I) (name : Text) (version : ContractVersion) (i : I)
      → IsWellFormed r
      → register r name version i ≡ (ok tt, r')
      → IsWellFormed r' × (len r' ≡ suc (len r))
  unfolding len
  register-IsWellFormed r r' name version i wf h =
      let (id, p, g, shape) = register-ok r r' name version i h in
      rw shape (
        (
          insert-IsAscending id (made id version i) r.entries wf.0,
          All-insert IsKeyed id (made id version i) r.entries (refl, parse_id-valid name id p) wf.1,
        ),
        length-insert id (made id version i) r.entries g,
      )
