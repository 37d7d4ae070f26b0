-- ===== src/Entities.antt =====
-- src/entities/: the rows of the four tables, and the database as lists of rows. Ids are numbers
-- and dates are moments.
use simply_ip_exporter.Prelude.{ℕ, Bool, Option, List}
use simply_ip_exporter.Prelude.Int.{ℤ}
use simply_ip_exporter.Prelude.Text.{Text}

pub record ApiKey : Type 0 where
  pub id : ℕ
  pub name : Text
  pub prefix : Text
  pub key_hash : Text
  pub signing_secret : Option Text
  pub bound_ips : Option Text
  pub is_master : Bool
  pub can_manage_keys : Bool
  pub parent_key_id : Option ℕ
  pub owner_key_id : Option ℕ
  pub created_at : ℕ
  pub updated_at : ℕ

pub record Endpoint : Type 0 where
  pub id : ℕ
  pub owner_key_id : Option ℕ
  pub name : Text
  pub description : Option Text
  pub token_secret : Text
  pub vault_groups : Text
  pub ttl_seconds : ℤ
  pub max_age_seconds : ℤ
  pub bound_ips : Option Text
  pub filter_rfc1918 : Bool
  pub filter_bogons : Bool
  pub filter_loopback : Bool
  pub last_synced_at : Option ℕ
  pub created_at : ℕ
  pub updated_at : ℕ

pub record VaultGroupPermission : Type 0 where
  pub id : ℕ
  pub api_key_id : ℕ
  pub vault_group_id : ℕ
  pub vault_group_name : Text
  pub created_at : ℕ

pub record AuditLog : Type 0 where
  pub id : ℕ
  pub api_key_id : Option ℕ
  pub api_key_name : Text
  pub api_key_prefix : Text
  pub client_ip : Text
  pub action : Text
  pub target_resource : Option Text
  pub details : Option Text
  pub timestamp : ℕ

pub record Db : Type 0 where
  pub api_keys : List ApiKey
  pub endpoints : List Endpoint
  pub vault_group_permissions : List VaultGroupPermission
  pub audit_logs : List AuditLog
