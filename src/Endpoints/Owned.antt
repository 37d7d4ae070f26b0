-- ===== src/Endpoints/Owned.antt =====
-- The handlers of a caller that is not the Master leave the endpoints of others alone.
use simply_ip_exporter.Prelude.{
  ℕ, ◌≡◌, ◌≢◌, refl, sym, ap, subst, ◌∙◌, true, false, not, Option, none, some, some-injective,
  is_empty, arith, inl, inr, Bool-cases, ◌==◌, ℕ_discrete, if_neg,
}
use simply_ip_exporter.Prelude.HashMap.{get, get-remove}
use simply_ip_exporter.Prelude.Int.{ℤ}
use simply_ip_exporter.Prelude.Net.{IpNets}
use simply_ip_exporter.Prelude.Result.{
  Result-cases, ok_or, ok_or-ok, refuse_if, ◌>>◌, Holds, Holds-of, Holds_of_eq-ok, >>=-Holds,
  >>-Holds, refuse_if-Holds,
}
use simply_ip_exporter.Prelude.Text.{Text, trim}
use simply_ip_exporter.Cache.{evict}
use simply_ip_exporter.Crypto.{Primitives}
use simply_ip_exporter.Endpoints.{
  ApiState, create_endpoint, check_payload, update_endpoint, delete_checked, delete_endpoint,
  rows_affected,
}
use simply_ip_exporter.Endpoints.Payload.{CreateEndpointPayload, UpdateEndpointPayload}
use simply_ip_exporter.Endpoints.Rules.{
  may_manage, find_endpoint, existing, managed, validate_groups, validate_group_access,
  validate_ttl, validate_max_age,
}
use simply_ip_exporter.Endpoints.Changes.{
  update_name, update_description, update_groups, update_ttl, update_max_age, update_bound_ips,
  update_filters, updated_endpoint,
}
use simply_ip_exporter.Endpoints.Isolation.{
  foreign, HasDistinctIds, find_endpoint-id, foreign-set_endpoint, foreign-delete_endpoint_row,
}
use simply_ip_exporter.Endpoints.Stored.{endpoints-write_and_audit}
use simply_ip_exporter.Entities.{Endpoint, Db}
use simply_ip_exporter.Error.{not_found}
use simply_ip_exporter.Support.{Call, Display, query, is_owned, check_bound_ips, create_audit_log}

-- An update changes neither the id nor the owner.
abbrev pub SameOwner : Endpoint → Endpoint → Type 0
SameOwner old ep = (ep.id ≡ old.id) × (ep.owner_key_id ≡ old.owner_key_id)

-- All its blocks but one leave the groups alone as well.
abbrev pub SameRow : Endpoint → Endpoint → Type 0
SameRow old ep =
    (ep.id ≡ old.id) × (ep.owner_key_id ≡ old.owner_key_id) × (ep.vault_groups ≡ old.vault_groups)

pub update_name-SameRow :
    (name : Option Text) (ep : Endpoint) → Holds (SameRow ep) (update_name name ep)
unfolding update_name
update_name-SameRow none ep = (refl, refl, refl)
update_name-SameRow (some name) ep =
    >>-Holds (SameRow ep) (refuse_if (is_empty (trim name)) _) _ λ u h. (refl, refl, refl)

pub update_description-SameRow :
    (description : Option Text) (ep : Endpoint) → SameRow ep (update_description description ep)
unfolding update_description
update_description-SameRow none ep = (refl, refl, refl)
update_description-SameRow (some description) ep = (refl, refl, refl)

pub update_groups-SameOwner :
    (c : Call) (groups : Option Text) (db : Db) (ep : Endpoint)
    → Holds (SameOwner ep) (update_groups c groups db ep)
unfolding update_groups
update_groups-SameOwner c none db ep = (refl, refl)
update_groups-SameOwner c (some groups) db ep =
    >>-Holds (SameOwner ep) (validate_groups groups >> validate_group_access c 1 groups db) _
      λ u h. (refl, refl)

pub update_ttl-SameRow : (ttl : Option ℤ) (ep : Endpoint) → Holds (SameRow ep) (update_ttl ttl ep)
unfolding update_ttl
update_ttl-SameRow none ep = (refl, refl, refl)
update_ttl-SameRow (some ttl) ep =
    >>-Holds (SameRow ep) (validate_ttl ttl) _ λ u h. (refl, refl, refl)

pub update_max_age-SameRow :
    (max_age : Option ℤ) (ep : Endpoint) → Holds (SameRow ep) (update_max_age max_age ep)
unfolding update_max_age
update_max_age-SameRow none ep = (refl, refl, refl)
update_max_age-SameRow (some max_age) ep =
    >>-Holds (SameRow ep) (validate_max_age max_age) _ λ u h. (refl, refl, refl)

module _ (nets : IpNets) where
  open nets use {IpNet}

  pub update_bound_ips-SameRow :
      (given : Option Text) (ep : Endpoint) → Holds (SameRow ep) (update_bound_ips nets given ep)
  unfolding update_bound_ips
  update_bound_ips-SameRow none ep = (refl, refl, refl)
  update_bound_ips-SameRow (some given) ep = elim (Bool-cases (is_empty (trim given))) [
    | inl p ↦ rw p (refl, refl, refl)
    | inr p ↦
        rw p (>>-Holds (SameRow ep) (check_bound_ips nets (trim given)) _ λ u h. (refl, refl, refl))
  ]

  pub written-SameRow :
      (payload : UpdateEndpointPayload) (now : ℕ) (ep : Endpoint)
      → SameRow ep (record (update_filters payload ep) { updated_at = now })
  unfolding update_filters
  written-SameRow payload now ep = (refl, refl, refl)

  module _ (c : Call) (daughter : c.caller.is_master ≡ false) (id : ℕ) where
    -- The row that the call may manage is the caller's own.
    abbrev pub Mine : Db → Endpoint → Type 0
    Mine db ep =
        (find_endpoint id db.endpoints ≡ some ep) × (is_owned c.caller.id ep.owner_key_id ≡ true)

    pub managed-Mine : (db : Db) → Holds (Mine db) (managed c id db)
    unfolding managed existing may_manage
    managed-Mine db =
        >>=-Holds (λ ep. find_endpoint id db.endpoints ≡ some ep) (Mine db) (existing c id db) _
          (>>-Holds (λ ep. find_endpoint id db.endpoints ≡ some ep) (query c 0) _
            λ u answered.
              Holds-of (λ ep. find_endpoint id db.endpoints ≡ some ep)
                (ok_or (find_endpoint id db.endpoints) not_found)
                λ ep e. ok_or-ok (find_endpoint id db.endpoints) not_found e)
          λ ep found.
            refuse_if-Holds (Mine db) (not (may_manage c.caller ep)) _ _
              λ allowed. (found, ground arith)

    -- What an update writes in its place is too.
    abbrev Rewrites : Db → Endpoint → Type 0
    Rewrites db ep = (old : Endpoint) × Mine db old × SameOwner old ep

    updated_endpoint-Rewrites :
        (payload : UpdateEndpointPayload) (db : Db)
        → Holds (Rewrites db) (updated_endpoint nets c id payload db)
    unfolding updated_endpoint
    updated_endpoint-Rewrites payload db =
        >>=-Holds (Mine db) (Rewrites db) (managed c id db) _ (managed-Mine db) λ ep mine.
          >>=-Holds (SameRow ep) (Rewrites db) (update_name payload.name ep) _
            (update_name-SameRow payload.name ep)
            λ named n.
              let d = update_description-SameRow payload.description named in
              let described = update_description payload.description named in
              >>=-Holds (SameOwner described) (Rewrites db)
                (update_groups c payload.vault_groups db described) _
                (update_groups-SameOwner c payload.vault_groups db described)
                λ grouped g.
                  >>=-Holds (SameRow grouped) (Rewrites db) (update_ttl payload.ttl_seconds grouped)
                    _ (update_ttl-SameRow payload.ttl_seconds grouped)
                    λ timed t.
                      >>=-Holds (SameRow timed) (Rewrites db)
                        (update_max_age payload.max_age_seconds timed) _
                        (update_max_age-SameRow payload.max_age_seconds timed)
                        λ aged a.
                          >>=-Holds (SameRow aged) (Rewrites db)
                            (update_bound_ips nets payload.bound_ips aged) _
                            (update_bound_ips-SameRow payload.bound_ips aged)
                            λ bound b. >>-Holds (Rewrites db) (query c 2) _ λ u answered.
                              let w = written-SameRow payload c.now bound in
                              (
                                ep,
                                mine,
                                (
                                  w.0 ∙ b.0 ∙ a.0 ∙ t.0 ∙ g.0 ∙ d.0 ∙ n.0,
                                  w.1 ∙ b.1 ∙ a.1 ∙ t.1 ∙ g.1 ∙ d.1 ∙ n.1,
                                ),
                              )

  module _ (prims : Primitives) (display : Display) (c : Call)
      (daughter : c.caller.is_master ≡ false) where
    pub create_endpoint-foreign :
        (payload : CreateEndpointPayload) (db : Db)
        → foreign c.caller (create_endpoint nets prims display c payload db).1.endpoints
          ≡ foreign c.caller db.endpoints
    unfolding create_endpoint is_owned
    create_endpoint-foreign payload db =
        elim (Result-cases (check_payload nets prims display c payload db)) [
          | inl (e, p) ↦ rw (p, create_endpoint)
          | inr (u, p) ↦
              rw (p, create_endpoint)
                (ap (foreign c.caller) (endpoints-write_and_audit nets prims display c 2 _ _ _ _)
                  ∙ ground arith)
        ]

    pub update_endpoint-foreign :
        (id : ℕ) (payload : UpdateEndpointPayload) (db : Db)
        → HasDistinctIds db.endpoints
        → foreign c.caller (update_endpoint nets prims display c id payload db).1.endpoints
          ≡ foreign c.caller db.endpoints
    unfolding update_endpoint
    update_endpoint-foreign id payload db d =
        elim (Result-cases (updated_endpoint nets c id payload db)) [
          | inl (e, p) ↦ rw (p, update_endpoint)
          | inr (ep, p) ↦
              let (old, (found, owned), (i, o)) =
                Holds_of_eq-ok (Rewrites c daughter id db) (updated_endpoint nets c id payload db)
                  (updated_endpoint-Rewrites c daughter id payload db) p in
              rw (p, update_endpoint)
                (ap (foreign c.caller) (endpoints-write_and_audit nets prims display c 3 _ _ _ _)
                  ∙ foreign-set_endpoint c.caller id old owned ep db.endpoints found d
                      (i ∙ find_endpoint-id id db.endpoints old found) (rw o owned))
        ]

    module _ (id : ℕ) (s : ApiState IpNet) where
      -- After the check, for a row of the caller.
      delete_checked-foreign :
          (ep old : Endpoint)
          → Mine c daughter id s.db old
          → HasDistinctIds s.db.endpoints
          → foreign c.caller (delete_checked nets prims display c id ep s).1.db.endpoints
            ≡ foreign c.caller s.db.endpoints
      unfolding delete_checked create_audit_log
      delete_checked-foreign ep old (found, owned) d =
          let gone = foreign-delete_endpoint_row c.caller id old owned s.db.endpoints found d in
          elim (Bool-cases (c.answers 1)) [
            | inr a ↦ rw a
            | inl a ↦ rw a (elim (Bool-cases (rows_affected id s.db.endpoints == 0)) [
              | inl b ↦ rw b
              | inr b ↦
                  rw b (elim (Bool-cases (c.answers 2)) [ inl e ↦ rw e gone | inr e ↦ rw e gone ])
            ])
          ]

      pub delete_endpoint-foreign :
          HasDistinctIds s.db.endpoints
          → foreign c.caller (delete_endpoint nets prims display c id (λ t. t) s).1.db.endpoints
            ≡ foreign c.caller s.db.endpoints
      unfolding delete_endpoint
      delete_endpoint-foreign d = elim (Result-cases (managed c id s.db)) [
        | inl (e, p) ↦ rw (p, delete_endpoint)
        | inr (ep, p) ↦
            rw (p, delete_endpoint)
              (delete_checked-foreign ep ep
                (Holds_of_eq-ok (Mine c daughter id s.db) (managed c id s.db)
                  (managed-Mine c daughter id s.db) p)
                d)
      ]

      delete_checked-cache :
          (ep : Endpoint) (other : ℕ)
          → id ≢ other
          → get ℕ_discrete other (delete_checked nets prims display c id ep s).1.ip_cache
            ≡ get ℕ_discrete other s.ip_cache
      unfolding delete_checked evict
      delete_checked-cache ep other ne =
          let kept =
            get-remove ℕ_discrete id other s.ip_cache ∙ if_neg (ℕ_discrete id other) ne _ _ in
          elim (Bool-cases (c.answers 1)) [
            | inr a ↦ rw a
            | inl a ↦ rw a (elim (Bool-cases (rows_affected id s.db.endpoints == 0)) [
              | inl b ↦ rw b
              | inr b ↦
                  rw b (elim (Bool-cases (c.answers 2)) [ inl e ↦ rw e kept | inr e ↦ rw e kept ])
            ])
          ]

      -- The records of an endpoint of another stay in the cache.
      pub delete_endpoint-cache :
          (other : ℕ) (ep : Endpoint)
          → find_endpoint other s.db.endpoints ≡ some ep
          → is_owned c.caller.id ep.owner_key_id ≡ false
          → get ℕ_discrete other (delete_endpoint nets prims display c id (λ t. t) s).1.ip_cache
            ≡ get ℕ_discrete other s.ip_cache
      unfolding delete_endpoint
      delete_endpoint-cache other ep found theirs = elim (Result-cases (managed c id s.db)) [
        | inl (e, p) ↦ rw (p, delete_endpoint)
        | inr (mine, p) ↦
            let (f, owned) =
              Holds_of_eq-ok (Mine c daughter id s.db) (managed c id s.db)
                (managed-Mine c daughter id s.db) p in
            rw (p, delete_endpoint)
              (delete_checked-cache mine other λ same.
                let g : find_endpoint other s.db.endpoints ≡ some mine =
                  subst (λ i. find_endpoint i s.db.endpoints ≡ some mine) same f in
                let q : mine ≡ ep = some-injective (sym g ∙ found) in
                let r : is_owned c.caller.id ep.owner_key_id ≡ true =
                  subst (λ (x : Endpoint). is_owned c.caller.id x.owner_key_id ≡ true) q owned in
                let z : true ≡ false = sym r ∙ theirs in cc)
      ]
