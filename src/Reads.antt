-- ===== src/Reads.antt =====
-- The handlers that only read: the listing of keys (src/api/keys.rs), of the audit log
-- (src/api/audit.rs), the caller's own key (src/api/auth.rs) and the readiness probe
-- (src/api/health.rs). `latest` is the order of the database, most recent first.
use simply_ip_exporter.Prelude.{
  ℕ, min, Bool, not, ◌&&◌, ◌≡◌, refl, sym, ap, ◌∙◌, Option, none, some, List, [], ◌∷◌, map, filter,
  take, drop, is_empty, is_yes, is_some, if◌then◌else◌,
}
use simply_ip_exporter.Prelude.Result.{Result, ok, ◌>>◌, refuse_if}
use simply_ip_exporter.Prelude.Text.{Text, Text-discrete}
use simply_ip_exporter.Entities.{ApiKey, AuditLog, Db}
use simply_ip_exporter.Error.{AppError, forbidden, only_master_reads_audit}
use simply_ip_exporter.Master.{MasterPin}
use simply_ip_exporter.Support.{Call, require_master, query}

pub record KeyResponse : Type 0 where
  pub id : ℕ
  pub name : Text
  pub prefix : Text
  pub bound_ips : Option Text
  pub is_master : Bool
  pub can_manage_keys : Bool
  pub parent_key_id : Option ℕ
  pub owner_key_id : Option ℕ
  pub created_at : ℕ
  pub updated_at : ℕ

-- `KeyResponse::from`.
abbrev pub key_response : ApiKey → KeyResponse
key_response m = record {
  id = m.id;
  name = m.name;
  prefix = m.prefix;
  bound_ips = m.bound_ips;
  is_master = m.is_master;
  can_manage_keys = m.can_manage_keys;
  parent_key_id = m.parent_key_id;
  owner_key_id = m.owner_key_id;
  created_at = m.created_at;
  updated_at = m.updated_at;
}

unfoldable pub list_api_keys : Call → Db → Result AppError (List KeyResponse)
list_api_keys c db = require_master c.caller >> query c 0 >> ok (map key_response db.api_keys)

pub record AuditLogQuery : Type 0 where
  pub action : Option Text
  pub limit : Option ℕ
  pub offset : Option ℕ

abbrev pub unwrap_or : Option ℕ → ℕ → ℕ
unwrap_or none default = default
unwrap_or (some n) default = n

-- An empty action filters nothing.
pub with_action : Option Text → List AuditLog → List AuditLog
with_action none logs = logs
with_action (some action) logs =
    if is_empty action then logs else filter (λ l. is_yes (Text-discrete l.action action)) logs

pub list_audit_logs :
    (List AuditLog → List AuditLog) → Call → AuditLogQuery → Db → Result AppError (List AuditLog)
list_audit_logs latest c q db =
    refuse_if (not c.caller.is_master) (forbidden only_master_reads_audit)
    >> query c 0
    >> ok (
        take (min (unwrap_or q.limit 50) 500)
          (drop (unwrap_or q.offset 0) (with_action q.action (latest db.audit_logs))))

pub record MeResponse : Type 0 where
  pub id : ℕ
  pub name : Text
  pub prefix : Text
  pub is_master : Bool
  pub can_manage_keys : Bool
  pub bound_ips : Option Text

pub get_me : ApiKey → MeResponse
get_me key = record {
  id = key.id;
  name = key.name;
  prefix = key.prefix;
  is_master = key.is_master;
  can_manage_keys = key.can_manage_keys;
  bound_ips = key.bound_ips;
}

pub data Readiness : Type 0 where
  ready : Readiness
  not_ready : Bool → Bool → Readiness

-- 200 for `ready`, else 503 with what is missing; `counted` says whether the count query succeeds.
pub readiness_check : Bool → MasterPin → Readiness
readiness_check counted pin =
    let master_pinned = is_some pin.cell in
    if counted && master_pinned then ready else not_ready counted master_pinned

-- The key without its hash and its secret.
abbrev disclosed : ApiKey → ApiKey
disclosed k = record k { key_hash = []; signing_secret = none }

responses-disclosed : (ks : List ApiKey) → map key_response (map disclosed ks) ≡ map key_response ks
responses-disclosed [] = refl
responses-disclosed (k ∷ ks) = ap (◌∷◌ (key_response k)) (responses-disclosed ks)

-- Two tables whose keys differ at most in their hashes and secrets are listed alike.
pub list_api_keys-disclosed :
    (c : Call) (db db' : Db)
    → map disclosed db.api_keys ≡ map disclosed db'.api_keys
    → list_api_keys c db ≡ list_api_keys c db'
unfolding list_api_keys
list_api_keys-disclosed c db db' h =
    ap (λ responses. require_master c.caller >> query c 0 >> ok responses)
      (sym (responses-disclosed db.api_keys)
        ∙ ap (map key_response) h
        ∙ responses-disclosed db'.api_keys)
