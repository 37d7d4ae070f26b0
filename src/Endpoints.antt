-- ===== src/Endpoints.antt =====
-- src/api/endpoints.rs: the management of endpoints, over the rows of the database and the cache.
-- What a handler returns stands beside the state that it leaves.
pub mod Payload
pub mod Rules
pub mod Changes
pub mod Validity
pub mod Stored
pub mod Rows
pub mod Isolation
pub mod Owned
pub mod Access
use simply_ip_exporter.Prelude.{
  ℕ, Bool, true, false, not, ◌&&◌, ◌||◌, ◌==◌, Option, none, some, List, [], ◌∷◌, ◌++◌, map, filter,
  length, all, any, is_empty, is_some, is_yes, if◌then◌else◌,
}
use simply_ip_exporter.Prelude.Int.{ℤ, pos, is_nonpositive, is_negative}
use simply_ip_exporter.Prelude.Net.{IpNets}
use simply_ip_exporter.Prelude.Result.{Result, ok, err, ◌>>=◌, ◌>>◌, ok_or, refuse_if}
use simply_ip_exporter.Prelude.Text.{Text, Text-discrete, codes, trim, trim_all, split, entries_of}
use simply_ip_exporter.Cache
use simply_ip_exporter.Cache.{IpCache}
use simply_ip_exporter.Crypto.{Primitives}
use simply_ip_exporter.Endpoints.Payload.{
  EndpointResponse, from_model, CreateEndpointPayload, UpdateEndpointPayload, changed_fields,
}
use simply_ip_exporter.Entities.{ApiKey, Endpoint, VaultGroupPermission, Db}
use simply_ip_exporter.Error.{
  AppError, forbidden, not_found, invalid_input, db_error, name_empty, groups_empty,
  groups_not_granted, ttl_not_positive, max_age_negative, owner_missing, no_management_rights,
  only_master_reassigns,
}
use simply_ip_exporter.Support.{
  Call, Display, query, find_by_id, is_owned, not_blank, check_all, check_bound_ips,
  create_audit_log, describe_resource, changed_details,
}
use simply_ip_exporter.Endpoints.Rules.{
  may_manage, find_endpoint, set_endpoint, validate_groups, validate_max_age, validate_ttl,
  granted_group_names, contains_name, validate_group_access, unwrap_or, existing, managed,
}
use simply_ip_exporter.Endpoints.Changes.{
  update_name, update_description, update_groups, update_ttl, update_max_age, set_if,
  update_filters, update_bound_ips, updated_endpoint,
}

-- What the handlers of the API read and write: the rows and the cache.
pub record ApiState (IpNet : Type 0) : Type 0 where
  pub db : Db
  pub ip_cache : IpCache IpNet

-- `Endpoint::delete_by_id`.
pub delete_endpoint_row : ℕ → List Endpoint → List Endpoint
delete_endpoint_row id es = filter (λ e. not (e.id == id)) es

pub rows_affected : ℕ → List Endpoint → ℕ
rows_affected id es = length (filter (λ e. e.id == id) es)

module _ (nets : IpNets) (prims : Primitives) (display : Display) where
  open prims use {hex_encode}
  open nets use {IpNet}

  -- A write, and then its entry: a failed entry is an error, but the write stays.
  unfoldable pub write_and_audit :
      Call → ℕ → Text → Text → Endpoint → Db → Result AppError EndpointResponse × Db
  write_and_audit c n action details ep written =
      if c.answers n
      then (
        ok (from_model ep),
        create_audit_log c action
            (some (describe_resource display (codes "endpoint") ep.id ep.name)) (some details)
            written,
      )
      else (err db_error, written)

  -- Up to the insertion.
  unfoldable pub check_payload : Call → CreateEndpointPayload → Db → Result AppError (Unit {0})
  check_payload c payload db =
      refuse_if (is_empty (trim payload.name)) (invalid_input name_empty)
      >> validate_groups payload.vault_groups
      >> validate_group_access c 0 payload.vault_groups db
      >> check_all nets (not_blank payload.bound_ips)
      >> validate_ttl (unwrap_or payload.ttl_seconds (pos 3_600))
      >> validate_max_age (unwrap_or payload.max_age_seconds (pos 0))
      >> query c 1

  -- The row that is inserted; the token is 16 random bytes.
  abbrev pub endpoint_row : Call → CreateEndpointPayload → Endpoint
  endpoint_row c payload = record {
    id = c.fresh_id;
    owner_key_id = some c.caller.id;
    name = payload.name;
    description = payload.description;
    token_secret = hex_encode c.token_bytes;
    vault_groups = payload.vault_groups;
    ttl_seconds = unwrap_or payload.ttl_seconds (pos 3_600);
    max_age_seconds = unwrap_or payload.max_age_seconds (pos 0);
    bound_ips = not_blank payload.bound_ips;
    filter_rfc1918 = payload.filter_rfc1918;
    filter_bogons = payload.filter_bogons;
    filter_loopback = payload.filter_loopback;
    last_synced_at = none;
    created_at = c.now;
    updated_at = c.now;
  }

  unfoldable pub create_endpoint :
      Call → CreateEndpointPayload → Db → Result AppError EndpointResponse × Db
  create_endpoint c payload db = elim (check_payload c payload db) [
    | err e ↦ (err e, db)
    | ok u ↦
        write_and_audit c 2 (codes "ENDPOINT_CREATE")
          (codes "vault_groups=" ++ payload.vault_groups) (endpoint_row c payload)
          (record db { endpoints = endpoint_row c payload ∷ db.endpoints })
  ]

  pub list_endpoints : Call → Db → Result AppError (List EndpointResponse)
  list_endpoints c db =
      query c 0
      >> ok (
          map from_model (
            if c.caller.is_master
            then db.endpoints
            else filter (λ e. is_owned c.caller.id e.owner_key_id) db.endpoints))

  unfoldable pub update_endpoint :
      Call → ℕ → UpdateEndpointPayload → Db → Result AppError EndpointResponse × Db
  update_endpoint c id payload db = elim (updated_endpoint nets c id payload db) [
    | err e ↦ (err e, db)
    | ok ep ↦
        write_and_audit c 3 (codes "ENDPOINT_UPDATE") (changed_details (changed_fields payload)) ep
          (record db { endpoints = set_endpoint ep db.endpoints })
  ]

  -- After the check: the deletion, the eviction and the entry, on the state that is there by then.
  pub delete_checked :
      Call → ℕ → Endpoint → ApiState IpNet → Result AppError (Unit {0}) × ApiState IpNet
  delete_checked c id ep s =
      if not (c.answers 1)
      then (err db_error, s)
      else if rows_affected id s.db.endpoints == 0
      then (err not_found, s)
      else (let deleted : Db = record s.db { endpoints = delete_endpoint_row id s.db.endpoints } in
          let evicted = Cache.evict id s.ip_cache in
          if c.answers 2
          then (
            ok tt,
            record {
              db =
                  create_audit_log c (codes "ENDPOINT_DELETE")
                    (some (describe_resource display (codes "endpoint") ep.id ep.name)) none
                    deleted;
              ip_cache = evicted;
            },
          )
          else (err db_error, record { db = deleted; ip_cache = evicted }))

  -- `between` is what other requests do between the check and the deletion.
  pub delete_endpoint :
      Call
      → ℕ
      → (ApiState IpNet → ApiState IpNet)
      → ApiState IpNet
      → Result AppError (Unit {0}) × ApiState IpNet
  delete_endpoint c id between s = elim (managed c id s.db) [
    | err e ↦ (err e, s)
    | ok ep ↦ delete_checked c id ep (between s)
  ]

  pub new_owner : Call → Option ℕ → Db → Result AppError (Unit {0})
  new_owner c none db = ok tt
  new_owner c (some owner) db =
      query c 1
      >> (ok_or (find_by_id owner db.api_keys) (invalid_input owner_missing) >>= λ key. ok tt)

  unfoldable pub reassigned_endpoint : Call → ℕ → Option ℕ → Db → Result AppError Endpoint
  reassigned_endpoint c id owner_key_id db =
      refuse_if (not c.caller.is_master) (forbidden only_master_reassigns)
      >> (existing c id db >>= λ ep.
          new_owner c owner_key_id db
          >> query c 2
          >> ok (record ep { owner_key_id = owner_key_id; updated_at = c.now }))

  pub owner_text : Option ℕ → Text
  owner_text none = codes "(none)"
  owner_text (some id) = display.uuid id

  unfoldable pub reassign_endpoint_owner :
      Call → ℕ → Option ℕ → Db → Result AppError EndpointResponse × Db
  reassign_endpoint_owner c id owner_key_id db = elim (reassigned_endpoint c id owner_key_id db) [
    | err e ↦ (err e, db)
    | ok ep ↦
        write_and_audit c 3 (codes "ENDPOINT_OWNER_REASSIGN")
          (codes "owner_key_id -> " ++ owner_text owner_key_id) ep
          (record db { endpoints = set_endpoint ep db.endpoints })
  ]
