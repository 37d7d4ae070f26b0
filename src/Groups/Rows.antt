-- ===== src/Groups/Rows.antt =====
-- What the handlers for grants, and the cleanup, leave of the other tables.
use simply_ip_exporter.Prelude.{ℕ, ◌≡◌, Bool, none, some, arith}
use simply_ip_exporter.Prelude.Result.{ok, err}
use simply_ip_exporter.Entities.{Db}
use simply_ip_exporter.Groups.{
  Listing, add_grant, grant_key_group, revoke_key_group, cleanup_stale_group_permissions,
}
use simply_ip_exporter.Support.{Call, Display, create_audit_log}

-- Keys and endpoints as they were.
abbrev pub OnlyGrants : Db → Db → Type 0
OnlyGrants db db' = (db'.api_keys ≡ db.api_keys) × (db'.endpoints ≡ db.endpoints)

pub grant_key_group-OnlyGrants :
    (display : Display) (c : Call) (id group : ℕ) (vault : Listing) (db : Db)
    → OnlyGrants db (grant_key_group display c id group vault db).1
unfolding grant_key_group add_grant create_audit_log
grant_key_group-OnlyGrants display c id group vault db = ground arith

pub revoke_key_group-OnlyGrants :
    (display : Display) (c : Call) (id permission_id : ℕ) (db : Db)
    → OnlyGrants db (revoke_key_group display c id permission_id db).1
unfolding revoke_key_group create_audit_log
revoke_key_group-OnlyGrants display c id permission_id db = ground arith

pub cleanup-OnlyGrants :
    (vault : Listing) (listed deleted : Bool) (db : Db)
    → OnlyGrants db (cleanup_stale_group_permissions vault listed deleted db)
unfolding cleanup_stale_group_permissions
cleanup-OnlyGrants none listed deleted db = ground arith
cleanup-OnlyGrants (some (err e)) listed deleted db = ground arith
cleanup-OnlyGrants (some (ok live_groups)) listed deleted db = ground arith
