-- ===== src/Keys.antt =====
-- src/api/keys.rs: the management of keys, over the rows of the database.
pub mod Guarded
pub mod Ownership
pub mod Rows
pub mod Immutable
pub mod MasterRow
pub mod Removal
use simply_ip_exporter.Prelude.{
  ℕ, Bool, true, false, not, ◌&&◌, ◌||◌, ◌==◌, Option, none, some, List, [], ◌∷◌, ◌++◌, map, filter,
  take, length, is_empty, is_some, if◌then◌else◌,
}
use simply_ip_exporter.Prelude.Result.{Result, ok, err, ◌>>=◌, ◌>>◌, ok_or, refuse_if, map_err}
use simply_ip_exporter.Prelude.Net.{IpAddr, IpNets}
use simply_ip_exporter.Prelude.Text.{Text, codes, trim}
use simply_ip_exporter.BoundIps.{validate_bound_ips}
use simply_ip_exporter.Crypto.{Primitives, SecretCipher, seal}
use simply_ip_exporter.Support.{
  Display, describe_resource, push_if, changed_details, Call, require_master,
  guard_master_delete_or_rotate, guard_master_update, query, find_by_id, is_owned, create_audit_log,
  not_blank, check_bound_ips, check_all,
}
use simply_ip_exporter.Entities.{ApiKey, Endpoint, VaultGroupPermission, AuditLog, Db}
use simply_ip_exporter.Error.{
  AppError, forbidden, not_found, invalid_input, db_error, internal, conflict_with_details,
  only_master_manages_keys, master_not_deleted, master_not_rotated, master_immutable, name_empty,
  bad_bound_ips, reassign_to_self, reassign_to_missing, Message,
}

pub record CreateKeyPayload : Type 0 where
  pub name : Text
  pub bound_ips : Option Text
  pub can_manage_keys : Bool

pub record UpdateKeyPayload : Type 0 where
  pub name : Option Text
  pub bound_ips : Option Text
  pub can_manage_keys : Option Bool

-- `active.update`: the row with the id of `key`.
pub set_key : ApiKey → List ApiKey → List ApiKey
set_key key ks = map (λ k. if k.id == key.id then key else k) ks

-- What a deleted key leaves in the rows that name it: `ON DELETE SET NULL`.
pub set_null : ℕ → Option ℕ → Option ℕ
set_null id none = none
set_null id (some owner) = if owner == id then none else some owner

abbrev unown_endpoint : ℕ → Endpoint → Endpoint
unown_endpoint id e = record e { owner_key_id = set_null id e.owner_key_id }

abbrev unname_log : ℕ → AuditLog → AuditLog
unname_log id l = record l { api_key_id = set_null id l.api_key_id }

-- `delete_by_id`, with what the foreign keys of the tables do.
pub delete_key : ℕ → Db → Db
delete_key id db = record {
  api_keys = filter (λ k. not (k.id == id)) db.api_keys;
  endpoints = map (unown_endpoint id) db.endpoints;
  vault_group_permissions = filter (λ g. not (g.api_key_id == id)) db.vault_group_permissions;
  audit_logs = map (unname_log id) db.audit_logs;
}

abbrev reassign_endpoint : ℕ → ℕ → ℕ → Endpoint → Endpoint
reassign_endpoint id target now e =
    if is_owned id e.owner_key_id
    then record e { owner_key_id = some target; updated_at = now }
    else e

-- `Endpoint::update_many()` with the filter on the owner.
pub reassign : ℕ → ℕ → ℕ → List Endpoint → List Endpoint
reassign id target now es = map (reassign_endpoint id target now) es

pub bool_text : Bool → Text
bool_text true = codes "true"
bool_text false = codes "false"

-- The fields that an update names, in the order of the handler.
pub changed_fields : UpdateKeyPayload → List Text
changed_fields payload = push_if (is_some payload.name) (codes "name") (
    push_if (is_some payload.bound_ips) (codes "bound_ips")
      (push_if (is_some payload.can_manage_keys) (codes "can_manage_keys") []))

module _ (nets : IpNets) (prims : Primitives) (cipher : SecretCipher prims.Cipher)
    (display : Display) where
  open prims use {sha256, hex_encode}

  -- A write, and then its entry: a failed entry is an error, but the write stays.
  pub write_and_audit : Call → Text → Text → ApiKey → Db → Result AppError ApiKey × Db
  write_and_audit c action details key written =
      if c.answers 2
      then (
        ok key,
        create_audit_log c action
            (some (describe_resource display (codes "api_key") key.id key.name)) (some details)
            written,
      )
      else (err db_error, written)

  -- Up to the row that is inserted.
  pub new_key : Call → CreateKeyPayload → Result AppError ApiKey
  new_key c payload =
      require_master c.caller
      >> refuse_if (is_empty (trim payload.name)) (invalid_input name_empty)
      >> (let bound_ips = not_blank payload.bound_ips in
          check_all nets bound_ips
          >> (map_err (λ e. internal) (seal prims cipher c.nonce c.signing_secret) >>= λ sealed.
              query c 1
              >> ok (record {
                id = c.fresh_id;
                name = payload.name;
                prefix = take 8 c.plaintext_key;
                key_hash = hex_encode (sha256 c.plaintext_key);
                signing_secret = some sealed;
                bound_ips = bound_ips;
                is_master = false;
                can_manage_keys = payload.can_manage_keys;
                parent_key_id = some c.caller.id;
                owner_key_id = some c.caller.id;
                created_at = c.now;
                updated_at = c.now;
              })))

  pub create_api_key : Call → CreateKeyPayload → Db → Result AppError ApiKey × Db
  create_api_key c payload db = elim (new_key c payload) [
    | err e ↦ (err e, db)
    | ok key ↦
        write_and_audit c (codes "KEY_CREATE")
          (codes "can_manage_keys=" ++ bool_text key.can_manage_keys) key
          (record db { api_keys = key ∷ db.api_keys })
  ]

  -- The key that a call names.
  unfoldable pub existing : Call → ℕ → Db → Result AppError ApiKey
  existing c id db =
      require_master c.caller >> query c 0 >> ok_or (find_by_id id db.api_keys) not_found

  pub update_name : Option Text → ApiKey → Result AppError ApiKey
  update_name none key = ok key
  update_name (some name) key =
      refuse_if (is_empty (trim name)) (invalid_input name_empty) >> ok (record key { name = name })

  pub update_bound_ips : Option Text → ApiKey → Result AppError ApiKey
  update_bound_ips none key = ok key
  update_bound_ips (some bound_ips) key =
      if is_empty (trim bound_ips)
      then ok (record key { bound_ips = none })
      else (check_bound_ips nets (trim bound_ips)
          >> ok (record key { bound_ips = some (trim bound_ips) }))

  pub update_can_manage : Option Bool → ApiKey → ApiKey
  update_can_manage none key = key
  update_can_manage (some b) key = record key { can_manage_keys = b }

  -- Up to the row that is written.
  pub updated_key : Call → ℕ → UpdateKeyPayload → Db → Result AppError ApiKey
  updated_key c id payload db = existing c id db >>= λ key.
      guard_master_update key (is_some payload.name) (is_some payload.can_manage_keys)
      >> (update_name payload.name key >>= λ named.
          update_bound_ips payload.bound_ips named >>= λ bound.
          query c 1
          >> ok (record (update_can_manage payload.can_manage_keys bound) { updated_at = c.now }))

  pub update_api_key : Call → ℕ → UpdateKeyPayload → Db → Result AppError ApiKey × Db
  update_api_key c id payload db = elim (updated_key c id payload db) [
    | err e ↦ (err e, db)
    | ok key ↦
        write_and_audit c (codes "KEY_UPDATE") (changed_details (changed_fields payload)) key
          (record db { api_keys = set_key key db.api_keys })
  ]

  pub rotated_key : Call → ℕ → Db → Result AppError ApiKey
  rotated_key c id db = existing c id db >>= λ key.
      guard_master_delete_or_rotate key master_not_rotated
      >> (map_err (λ e. internal) (seal prims cipher c.nonce c.signing_secret) >>= λ sealed.
          query c 1
          >> ok (record key {
            key_hash = hex_encode (sha256 c.plaintext_key);
            prefix = take 8 c.plaintext_key;
            signing_secret = some sealed;
            updated_at = c.now;
          }))

  pub rotate_api_key : Call → ℕ → Db → Result AppError ApiKey × Db
  rotate_api_key c id db = elim (rotated_key c id db) [
    | err e ↦ (err e, db)
    | ok key ↦
        write_and_audit c (codes "KEY_ROTATE") (codes "credentials rotated") key
          (record db { api_keys = set_key key db.api_keys })
  ]

  pub resigned_key : Call → ℕ → Db → Result AppError ApiKey
  resigned_key c id db = existing c id db >>= λ key.
      guard_master_delete_or_rotate key master_not_rotated
      >> (map_err (λ e. internal) (seal prims cipher c.nonce c.signing_secret) >>= λ sealed.
          query c 1 >> ok (record key { signing_secret = some sealed; updated_at = c.now }))

  pub rotate_signing_secret : Call → ℕ → Db → Result AppError ApiKey × Db
  rotate_signing_secret c id db = elim (resigned_key c id db) [
    | err e ↦ (err e, db)
    | ok key ↦
        write_and_audit c (codes "KEY_SECRET_ROTATE") (codes "signing secret rotated") key
          (record db { api_keys = set_key key db.api_keys })
  ]

  -- The target of a reassignment; without one, a key that owns endpoints is refused.
  unfoldable pub reassign_target : Call → ℕ → Option ℕ → Db → Result AppError (Option ApiKey)
  reassign_target c id (some target_id) db =
      query c 3
      >> (ok_or (find_by_id target_id db.api_keys) (invalid_input reassign_to_missing) >>= λ target.
          ok (some target))
  reassign_target c id none db =
      let owned = filter (λ e. is_owned id e.owner_key_id) db.endpoints in
      refuse_if (not (is_empty owned)) (conflict_with_details (map (λ e. (e.id, e.name)) owned))
      >> ok none

  unfoldable pub reassign_endpoints : Call → ℕ → Option ApiKey → Db → Result AppError Db
  reassign_endpoints c id none db = ok db
  reassign_endpoints c id (some target) db =
      query c 4 >> ok (record db { endpoints = reassign id target.id c.now db.endpoints })

  -- `count` is the number of the endpoints that the key owned.
  pub reassign_details : Option ApiKey → ℕ → Option Text
  reassign_details none count = none
  reassign_details (some target) count = some (
      codes "reassigned "
      ++ (display.usize count
          ++ (codes " endpoint(s) to "
              ++ (target.name
                  ++ (codes " (" ++ (display.uuid target.id ++ codes "); key deleted"))))))

  -- The guards in front of the transaction, its begin and the query for the owned endpoints.
  unfoldable pub deletable : Call → ℕ → Option ℕ → ApiKey → Result AppError (Unit {0})
  deletable c id reassign_to key =
      guard_master_delete_or_rotate key master_not_deleted
      >> refuse_if (is_owned id reassign_to) (invalid_input reassign_to_self)
      >> query c 1
      >> query c 2

  -- The deletion, its entry and the commit; `count` is the number of the endpoints that it owned.
  unfoldable pub commit_deletion : Call → ℕ → ApiKey → Option ApiKey → ℕ → Db → Result AppError Db
  commit_deletion c id key target count db =
      query c 5
      >> refuse_if (is_empty (filter (λ k. k.id == id) db.api_keys)) not_found
      >> query c 6
      >> query c 7
      >> ok (
          create_audit_log c (codes "KEY_DELETE")
            (some (describe_resource display (codes "api_key") key.id key.name))
            (reassign_details target count) (delete_key id db))

  -- An error leaves the database as it was.
  unfoldable pub delete_transaction : Call → ℕ → Option ℕ → Db → Result AppError Db
  delete_transaction c id reassign_to db = existing c id db >>= λ key.
      deletable c id reassign_to key
      >> (reassign_target c id reassign_to db >>= λ target.
          reassign_endpoints c id target db >>= λ reassigned.
          commit_deletion c id key target
            (length (filter (λ e. is_owned id e.owner_key_id) db.endpoints)) reassigned)

  unfoldable pub delete_api_key : Call → ℕ → Option ℕ → Db → Result AppError (Unit {0}) × Db
  delete_api_key c id reassign_to db = elim (delete_transaction c id reassign_to db) [
    | err e ↦ (err e, db)
    | ok db' ↦ (ok tt, db')
  ]
