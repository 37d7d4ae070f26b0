-- ===== src/Api/Isolation.antt =====
-- A key that is not the Master has no reach beyond its own endpoints.
use simply_ip_exporter.Prelude.{ℕ, ◌≡◌, refl, ap, false, Option, none, some, [], arith, ℕ_discrete}
use simply_ip_exporter.Prelude.HashMap.{get}
use simply_ip_exporter.Prelude.Net.{IpNets}
use simply_ip_exporter.Api.{
  Request, post_keys, put_key, remove_key, rotate, rotate_secret, post_endpoints, put_endpoint,
  remove_endpoint, put_owner, post_key_groups, delete_key_group, handle,
}
use simply_ip_exporter.Crypto.{Primitives, SecretCipher}
use simply_ip_exporter.Endpoints.{ApiState, reassign_endpoint_owner, reassigned_endpoint}
use simply_ip_exporter.Endpoints.Isolation.{foreign, HasDistinctIds}
use simply_ip_exporter.Endpoints.Owned.{
  create_endpoint-foreign, update_endpoint-foreign, delete_endpoint-foreign, delete_endpoint-cache,
}
use simply_ip_exporter.Endpoints.Rows.{
  create_endpoint-OnlyEndpoints, update_endpoint-OnlyEndpoints, delete_endpoint-OnlyEndpoints,
}
use simply_ip_exporter.Endpoints.Rules.{find_endpoint}
use simply_ip_exporter.Entities.{ApiKey, Endpoint, Db}
use simply_ip_exporter.Groups.{Listing, grant_key_group, grantee, revoke_key_group, revocable}
use simply_ip_exporter.Keys.Guarded.{require_master_lem}
use simply_ip_exporter.Keys.{CreateKeyPayload, UpdateKeyPayload}
use simply_ip_exporter.Support.{Call, Display, is_owned, require_master}

-- What a request of the caller must leave of the state.
pub record Spared {IpNet : Type 0} (caller : ApiKey) (s t : ApiState IpNet) : Type 0 where
  pub keys : t.db.api_keys ≡ s.db.api_keys
  pub grants : t.db.vault_group_permissions ≡ s.db.vault_group_permissions
  pub others : foreign caller t.db.endpoints ≡ foreign caller s.db.endpoints
  pub records :
      (id : ℕ) (ep : Endpoint)
      → find_endpoint id s.db.endpoints ≡ some ep
      → is_owned caller.id ep.owner_key_id ≡ false
      → get ℕ_discrete id t.ip_cache ≡ get ℕ_discrete id s.ip_cache

-- The requests that only the Master may make.
abbrev pub IsRestricted : Request → Type 0
IsRestricted (post_endpoints payload) = ⊥
IsRestricted (put_endpoint id payload) = ⊥
IsRestricted (remove_endpoint id) = ⊥
IsRestricted (post_keys payload) = Unit
IsRestricted (put_key id payload) = Unit
IsRestricted (remove_key id reassign_to) = Unit
IsRestricted (rotate id) = Unit
IsRestricted (rotate_secret id) = Unit
IsRestricted (put_owner id owner) = Unit
IsRestricted (post_key_groups id group vault) = Unit
IsRestricted (delete_key_group id permission_id) = Unit

abbrev no_key : CreateKeyPayload
no_key = record { name = []; bound_ips = none; can_manage_keys = false }

abbrev no_change : UpdateKeyPayload
no_change = record { name = none; bound_ips = none; can_manage_keys = none }

-- A request that is refused with the rows as they were.
pub Spared_refl : {IpNet : Type 0} (caller : ApiKey) (s : ApiState IpNet) → Spared caller s s
Spared_refl caller s = record {
  keys = refl;
  grants = refl;
  others = refl;
  records = λ id ep found theirs. refl;
}

pub refused :
    {IpNet : Type 0} (caller : ApiKey) (s : ApiState IpNet) (db : Db)
    → db ≡ s.db
    → Spared caller s (record s { db = db })
refused caller s db e = record {
  keys = ap (λ (d : Db). d.api_keys) e;
  grants = ap (λ (d : Db). d.vault_group_permissions) e;
  others = ap (λ (d : Db). foreign caller d.endpoints) e;
  records = λ id ep found theirs. refl;
}

module _ (nets : IpNets) (prims : Primitives) (cipher : SecretCipher prims.Cipher)
    (display : Display) (c : Call) (daughter : c.caller.is_master ≡ false) where
  open nets use {IpNet}

  reassign_refused :
      (id : ℕ) (owner : Option ℕ) (db : Db)
      → (reassign_endpoint_owner nets prims display c id owner db).1 ≡ db
  unfolding reassign_endpoint_owner reassigned_endpoint
  reassign_refused id owner db = ground arith

  grant_refused :
      (id group : ℕ) (vault : Listing) (db : Db)
      → (grant_key_group display c id group vault db).1 ≡ db
  unfolding grant_key_group grantee require_master
  grant_refused id group vault db = ground arith

  revoke_refused :
      (id permission_id : ℕ) (db : Db) → (revoke_key_group display c id permission_id db).1 ≡ db
  unfolding revoke_key_group revocable require_master
  revoke_refused id permission_id db = ground arith

  -- The requests of the Master are refused.
  pub handle_restricted :
      (r : Request) (s : ApiState IpNet)
      → IsRestricted r
      → (handle nets prims cipher display c r s).db ≡ s.db
  unfolding handle
  handle_restricted (post_keys payload) s h =
      ap (λ p. p.1)
        (require_master_lem nets prims cipher display c 0 payload no_change none s.db daughter).0
  handle_restricted (put_key id payload) s h =
      ap (λ p. p.1)
        (require_master_lem nets prims cipher display c id no_key payload none s.db daughter).1
  handle_restricted (remove_key id reassign_to) s h =
      ap (λ p. p.1)
        (require_master_lem nets prims cipher display c id no_key no_change reassign_to s.db
          daughter).4
  handle_restricted (rotate id) s h =
      ap (λ p. p.1)
        (require_master_lem nets prims cipher display c id no_key no_change none s.db daughter).2
  handle_restricted (rotate_secret id) s h =
      ap (λ p. p.1)
        (require_master_lem nets prims cipher display c id no_key no_change none s.db daughter).3
  handle_restricted (put_owner id owner) s h = reassign_refused id owner s.db
  handle_restricted (post_key_groups id group vault) s h = grant_refused id group vault s.db
  handle_restricted (delete_key_group id permission_id) s h = revoke_refused id permission_id s.db
  handle_restricted (post_endpoints payload) s h = absurd h
  handle_restricted (put_endpoint id payload) s h = absurd h
  handle_restricted (remove_endpoint id) s h = absurd h

  -- A request of a key that is not the Master leaves every key, every grant, every endpoint that is not
  -- its own and the cached records of those endpoints as they are, where the ids of the endpoints are
  -- distinct.
  pub handle-Spared :
      (r : Request) (s : ApiState IpNet)
      → HasDistinctIds s.db.endpoints
      → Spared c.caller s (handle nets prims cipher display c r s)
  unfolding handle
  handle-Spared (post_endpoints payload) s d =
      let o = create_endpoint-OnlyEndpoints nets prims display c s.db payload in
      record {
        keys = o.0;
        grants = o.1;
        others = create_endpoint-foreign nets prims display c daughter payload s.db;
        records = λ id ep found theirs. refl;
      }
  handle-Spared (put_endpoint id payload) s d =
      let o = update_endpoint-OnlyEndpoints nets prims display c s.db id payload in
      record {
        keys = o.0;
        grants = o.1;
        others = update_endpoint-foreign nets prims display c daughter id payload s.db d;
        records = λ other ep found theirs. refl;
      }
  handle-Spared (remove_endpoint id) s d =
      let o = delete_endpoint-OnlyEndpoints nets prims display c id s in
      record {
        keys = o.0;
        grants = o.1;
        others = delete_endpoint-foreign nets prims display c daughter id s d;
        records = delete_endpoint-cache nets prims display c daughter id s;
      }
  handle-Spared (post_keys payload) s d =
      refused c.caller s _ (handle_restricted (post_keys payload) s tt)
  handle-Spared (put_key id payload) s d =
      refused c.caller s _ (handle_restricted (put_key id payload) s tt)
  handle-Spared (remove_key id reassign_to) s d =
      refused c.caller s _ (handle_restricted (remove_key id reassign_to) s tt)
  handle-Spared (rotate id) s d = refused c.caller s _ (handle_restricted (rotate id) s tt)
  handle-Spared (rotate_secret id) s d =
      refused c.caller s _ (handle_restricted (rotate_secret id) s tt)
  handle-Spared (put_owner id owner) s d =
      refused c.caller s _ (handle_restricted (put_owner id owner) s tt)
  handle-Spared (post_key_groups id group vault) s d =
      refused c.caller s _ (handle_restricted (post_key_groups id group vault) s tt)
  handle-Spared (delete_key_group id permission_id) s d =
      refused c.caller s _ (handle_restricted (delete_key_group id permission_id) s tt)
