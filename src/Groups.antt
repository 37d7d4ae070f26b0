-- ===== src/Groups.antt =====
-- src/api/groups.rs: the grants by which a key may name a Vault group; src/groups.rs: the cleanup of
-- grants of groups that Vault no longer has. Vault is outside: `vault` is what `list_groups`
-- comes back with, and `none` says that no client is configured.
pub mod Rows
pub mod Cleanup
use simply_ip_exporter.Prelude.{
  ℕ, Bool, true, false, not, ◌&&◌, ◌==◌, Option, none, some, List, [], ◌∷◌, ◌++◌, map, filter, any,
  is_empty, if◌then◌else◌,
}
use simply_ip_exporter.Prelude.Result.{Result, ok, err, ◌>>=◌, ◌>>◌, ok_or, refuse_if}
use simply_ip_exporter.Prelude.Text.{Text, codes}
use simply_ip_exporter.Entities.{ApiKey, VaultGroupPermission, Db}
use simply_ip_exporter.Error.{
  AppError, forbidden, not_found, invalid_input, db_error, vault_not_configured, vault_unreachable,
  own_grants_only, no_such_group,
}
use simply_ip_exporter.Support.{
  Call, Display, require_master, query, find_by_id, create_audit_log, describe_resource,
}
use simply_ip_exporter.VaultClient.{VaultGroup, VaultError, not_configured, request, status}

abbrev pub Listing : Type 0
Listing = Option (Result VaultError (List VaultGroup))

-- The `match` on `client.list_groups().await`: a 403 reads as an empty listing.
pub readable_groups : Result VaultError (List VaultGroup) → Result AppError (List VaultGroup)
readable_groups (ok groups) = ok groups
readable_groups (err (status code)) = if code == 403 then ok [] else err vault_unreachable
readable_groups (err not_configured) = err vault_unreachable
readable_groups (err request) = err vault_unreachable

pub list_vault_groups : Call → Listing → Result AppError (List VaultGroup)
list_vault_groups c vault =
    require_master c.caller
    >> (ok_or vault vault_not_configured >>= λ listing. readable_groups listing)

pub list_key_groups : Call → ℕ → Db → Result AppError (List VaultGroupPermission)
list_key_groups c id db =
    refuse_if (not c.caller.is_master && not (c.caller.id == id)) (forbidden own_grants_only)
    >> query c 0
    >> ok (filter (λ g. g.api_key_id == id) db.vault_group_permissions)

-- `into_iter().find(|g| g.id == …)`.
pub find_group : ℕ → List VaultGroup → Option VaultGroup
find_group id [] = none
find_group id (g ∷ gs) = let rest = find_group id gs in if g.id == id then some g else rest

-- `filter(ApiKeyId.eq(id)).filter(VaultGroupId.eq(group))`.
pub find_grant : ℕ → ℕ → List VaultGroupPermission → Option VaultGroupPermission
find_grant key group [] = none
find_grant key group (g ∷ gs) =
    let rest = find_grant key group gs in
    if g.api_key_id == key && g.vault_group_id == group then some g else rest

pub find_grant_by_id : ℕ → List VaultGroupPermission → Option VaultGroupPermission
find_grant_by_id id [] = none
find_grant_by_id id (g ∷ gs) =
    let rest = find_grant_by_id id gs in if g.id == id then some g else rest

-- The key and the group of a grant, up to the look for an older grant.
unfoldable pub grantee : Call → ℕ → ℕ → Listing → Db → Result AppError (ApiKey × VaultGroup)
grantee c id vault_group_id vault db =
    require_master c.caller
    >> query c 0
    >> (ok_or (find_by_id id db.api_keys) not_found >>= λ target.
        ok_or vault vault_not_configured >>= λ listing. readable_groups listing >>= λ groups.
        ok_or (find_group vault_group_id groups) (invalid_input no_such_group) >>= λ group.
        query c 1 >> ok (target, group))

abbrev pub grant_row : Call → ℕ → VaultGroup → VaultGroupPermission
grant_row c id group = record {
  id = c.fresh_id;
  api_key_id = id;
  vault_group_id = group.id;
  vault_group_name = group.name;
  created_at = c.now;
}

module _ (display : Display) where
  abbrev pub group_text : Text → ℕ → Text
  group_text name id = name ++ (codes " (" ++ (display.uuid id ++ codes ")"))

  -- The insertion and its entry.
  pub add_grant : Call → ℕ → ApiKey → VaultGroup → Db → Result AppError VaultGroupPermission × Db
  add_grant c id target group db =
      if not (c.answers 2)
      then (err db_error, db)
      else (let written : Db = record db {
        vault_group_permissions = grant_row c id group ∷ db.vault_group_permissions;
      } in
          if c.answers 3
          then (
            ok (grant_row c id group),
            create_audit_log c (codes "KEY_GROUP_GRANT")
                (some (describe_resource display (codes "api_key") target.id target.name))
                (some (codes "granted read on Vault group " ++ group_text group.name group.id))
                written,
          )
          else (err db_error, written))

  unfoldable pub grant_key_group :
      Call → ℕ → ℕ → Listing → Db → Result AppError VaultGroupPermission × Db
  grant_key_group c id vault_group_id vault db = elim (grantee c id vault_group_id vault db) [
    | err e ↦ (err e, db)
    | ok (target, group) ↦ elim (find_grant id group.id db.vault_group_permissions) [
      | some existing ↦ (ok existing, db)
      | none ↦ add_grant c id target group db
    ]
  ]

  -- The key and the grant of a revocation.
  unfoldable pub revocable : Call → ℕ → ℕ → Db → Result AppError (ApiKey × VaultGroupPermission)
  revocable c id permission_id db =
      require_master c.caller
      >> query c 0
      >> (ok_or (find_by_id id db.api_keys) not_found >>= λ target.
          query c 1
          >> (ok_or (find_grant_by_id permission_id db.vault_group_permissions) not_found
              >>= λ grant.
                  refuse_if (not (grant.api_key_id == id)) not_found
                  >> query c 2
                  >> ok (target, grant)))

  unfoldable pub revoke_key_group : Call → ℕ → ℕ → Db → Result AppError (Unit {0}) × Db
  revoke_key_group c id permission_id db = elim (revocable c id permission_id db) [
    | err e ↦ (err e, db)
    | ok (target, grant) ↦
        let written : Db = record db {
          vault_group_permissions =
              filter (λ g. not (g.id == permission_id)) db.vault_group_permissions;
        } in
        if c.answers 3
        then (
          ok tt,
          create_audit_log c (codes "KEY_GROUP_REVOKE")
              (some (describe_resource display (codes "api_key") target.id target.name))
              (some (
                codes "revoked read on Vault group "
                ++ group_text grant.vault_group_name grant.vault_group_id))
              written,
        )
        else (err db_error, written)
  ]

-- `live_ids.contains(&g.vault_group_id)`.
abbrev pub is_live : List VaultGroup → VaultGroupPermission → Bool
is_live groups g = any (λ l. l.id == g.vault_group_id) groups

-- `listed` and `deleted` say whether the queries for the grants and for the deletion succeed.
pub cleanup_stale_group_permissions : Listing → Bool → Bool → Db → Db
cleanup_stale_group_permissions none listed deleted db = db
cleanup_stale_group_permissions (some (err e)) listed deleted db = db
cleanup_stale_group_permissions (some (ok live_groups)) listed deleted db =
    let all_grants = db.vault_group_permissions in
    let stale_ids = map (λ g. g.id) (filter (λ g. not (is_live live_groups g)) all_grants) in
    if not listed
    then db
    else if is_empty stale_ids
    then db
    else if deleted
    then record db {
      vault_group_permissions = filter (λ g. not (any (λ id. id == g.id) stale_ids)) all_grants;
    }
    else db
