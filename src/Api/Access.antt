-- ===== src/Api/Access.antt =====
-- After a request of a key that is not the Master, the groups of every endpoint are old or granted.
use simply_ip_exporter.Prelude.{
  ℕ, ◌≡◌, refl, sym, subst, false, some, some-injective, List, [], ◌∷◌, All, All-map, All-mapped,
  Any, ◌⊎◌, inl, inr, Bool-cases, ◌==◌,
}
use simply_ip_exporter.Prelude.Int.{pos}
use simply_ip_exporter.Prelude.Net.{IpNets}
use simply_ip_exporter.Prelude.Result.{Result-cases, Holds_of_eq-ok, >>-eq-ok}
use simply_ip_exporter.Api.{
  Request, post_keys, put_key, remove_key, rotate, rotate_secret, post_endpoints, put_endpoint,
  remove_endpoint, put_owner, post_key_groups, delete_key_group, handle,
}
use simply_ip_exporter.Api.Isolation.{IsRestricted, handle_restricted}
use simply_ip_exporter.Crypto.{Primitives, SecretCipher}
use simply_ip_exporter.Endpoints.{ApiState, check_payload, create_endpoint, update_endpoint}
use simply_ip_exporter.Endpoints.Access.{
  AllGranted, access_granted, FairChange, updated_endpoint-Fair,
}
use simply_ip_exporter.Endpoints.Payload.{CreateEndpointPayload, UpdateEndpointPayload}
use simply_ip_exporter.Endpoints.Rules.{
  find_endpoint, set_endpoint, validate_group_access, validate_ttl, validate_max_age, unwrap_or,
}
use simply_ip_exporter.Endpoints.Changes.{updated_endpoint}
use simply_ip_exporter.Endpoints.Stored.{endpoints-write_and_audit, delete_endpoint-All}
use simply_ip_exporter.Entities.{ApiKey, Endpoint, Db}
use simply_ip_exporter.Support.{Call, Display, query, check_all, not_blank}

abbrev SameGroups : Endpoint → Endpoint → Type 0
SameGroups old e = (old.id ≡ e.id) × (old.vault_groups ≡ e.vault_groups)

-- The endpoint was there with these groups, or the caller was granted all of them.
abbrev pub Lawful : ApiKey → Db → Endpoint → Type 0
Lawful caller db e =
    Any (λ old. SameGroups old e) db.endpoints
    ⊎ AllGranted caller db.vault_group_permissions e.vault_groups

self : (es : List Endpoint) → All (λ e. Any (λ old. SameGroups old e) es) es
self [] = tt
self (e ∷ es) = (inl (refl, refl), All-map (λ x p. inr p) es (self es))

found_among :
    (id : ℕ) (es : List Endpoint) (old ep : Endpoint)
    → find_endpoint id es ≡ some old
    → SameGroups old ep
    → Any (λ x. SameGroups x ep) es
unfolding find_endpoint
found_among id [] old ep h s = absurd cc
found_among id (e ∷ es) old ep h s = elim (Bool-cases (e.id == id)) [
  | inl p ↦ inl (subst (λ x. SameGroups x ep) (sym (some-injective (rw p at h))) s)
  | inr p ↦ inr (found_among id es old ep (rw p at h) s)
]

module _ (caller : ApiKey) (db : Db) where
  unchanged : All (Lawful caller db) db.endpoints
  unchanged = All-map (λ e p. inl p) db.endpoints (self db.endpoints)

  set_endpoint-Lawful :
      (ep : Endpoint) → Lawful caller db ep → All (Lawful caller db) (set_endpoint ep db.endpoints)
  unfolding set_endpoint
  set_endpoint-Lawful ep l =
      All-mapped (Lawful caller db) (Lawful caller db) _
        (λ e p. elim (Bool-cases (e.id == ep.id)) [ inl q ↦ rw q l | inr q ↦ rw q p ]) db.endpoints
        unchanged

module _ (nets : IpNets) (prims : Primitives) (cipher : SecretCipher prims.Cipher)
    (display : Display) (c : Call) (daughter : c.caller.is_master ≡ false) where
  open nets use {IpNet}

  create_endpoint-Lawful :
      (payload : CreateEndpointPayload) (db : Db)
      → All (Lawful c.caller db) (create_endpoint nets prims display c payload db).1.endpoints
  unfolding create_endpoint check_payload
  create_endpoint-Lawful payload db =
      elim (Result-cases (check_payload nets prims display c payload db)) [
        | inl (e, p) ↦ rw (p, create_endpoint, All) (unchanged c.caller db)
        | inr (u, p) ↦
            let ((u₆, h₆), p₇) = >>-eq-ok _ (query c 1) p in
            let ((u₅, h₅), p₆) =
              >>-eq-ok _ (validate_max_age (unwrap_or payload.max_age_seconds (pos 0))) h₆ in
            let ((u₄, h₄), p₅) =
              >>-eq-ok _ (validate_ttl (unwrap_or payload.ttl_seconds (pos 3_600))) h₅ in
            let ((u₃, h₃), p₄) = >>-eq-ok _ (check_all nets (not_blank payload.bound_ips)) h₄ in
            let ((u₂, h₂), p₃) =
              >>-eq-ok _ (validate_group_access c 0 payload.vault_groups db) h₃ in
            rw (p, create_endpoint)
              (subst (All (Lawful c.caller db))
                (sym (endpoints-write_and_audit nets prims display c 2 _ _ _ _))
                (
                  inr (access_granted c daughter db 0 payload.vault_groups _ p₃),
                  unchanged c.caller db,
                ))
      ]

  update_endpoint-Lawful :
      (id : ℕ) (payload : UpdateEndpointPayload) (db : Db)
      → All (Lawful c.caller db) (update_endpoint nets prims display c id payload db).1.endpoints
  unfolding update_endpoint
  update_endpoint-Lawful id payload db =
      elim (Result-cases (updated_endpoint nets c id payload db)) [
        | inl (e, p) ↦ rw (p, update_endpoint) (unchanged c.caller db)
        | inr (ep, p) ↦
            let (old, (found, owned), (i, change)) =
              Holds_of_eq-ok (FairChange c daughter db nets id)
                (updated_endpoint nets c id payload db)
                (updated_endpoint-Fair c daughter db nets id payload) p in
            let lawful : Lawful c.caller db ep = elim change [
              | inl same ↦ inl (found_among id db.endpoints old ep found (sym i, sym same))
              | inr granted ↦ inr granted
            ] in
            rw (p, update_endpoint)
              (subst (All (Lawful c.caller db))
                (sym (endpoints-write_and_audit nets prims display c 3 _ _ _ _))
                (set_endpoint-Lawful c.caller db ep lawful))
      ]

  -- The other requests are refused.
  same :
      (r : Request) (s : ApiState IpNet)
      → IsRestricted r
      → All (Lawful c.caller s.db) (handle nets prims cipher display c r s).db.endpoints
  same r s h =
      subst (λ (db : Db). All (Lawful c.caller s.db) db.endpoints)
        (sym (handle_restricted nets prims cipher display c daughter r s h))
        (unchanged c.caller s.db)

  -- A request of a key that is not the Master leaves no endpoint with groups that it did not have
  -- before, under the same id, unless each of these groups is granted to the key.
  pub handle-Lawful :
      (r : Request) (s : ApiState IpNet)
      → All (Lawful c.caller s.db) (handle nets prims cipher display c r s).db.endpoints
  unfolding handle
  handle-Lawful (post_endpoints payload) s = create_endpoint-Lawful payload s.db
  handle-Lawful (put_endpoint id payload) s = update_endpoint-Lawful id payload s.db
  handle-Lawful (remove_endpoint id) s =
      delete_endpoint-All nets prims display (Lawful c.caller s.db) c id (λ t. t) s
        (unchanged c.caller s.db) (unchanged c.caller s.db)
  handle-Lawful (post_keys payload) s = same (post_keys payload) s tt
  handle-Lawful (put_key id payload) s = same (put_key id payload) s tt
  handle-Lawful (remove_key id reassign_to) s = same (remove_key id reassign_to) s tt
  handle-Lawful (rotate id) s = same (rotate id) s tt
  handle-Lawful (rotate_secret id) s = same (rotate_secret id) s tt
  handle-Lawful (put_owner id owner) s = same (put_owner id owner) s tt
  handle-Lawful (post_key_groups id group vault) s = same (post_key_groups id group vault) s tt
  handle-Lawful (delete_key_group id permission_id) s =
      same (delete_key_group id permission_id) s tt
