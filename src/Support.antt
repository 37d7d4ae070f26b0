-- ===== src/Support.antt =====
-- src/api/support.rs and src/api/guards.rs: what the handlers share. `answers n` says whether the
-- n-th query of the call succeeds; fresh ids, secrets and the time are arguments.
use simply_ip_exporter.Prelude.{
  ℕ, Bool, false, not, ◌&&◌, ◌||◌, ◌==◌, Option, none, some, List, [], ◌∷◌, ◌++◌, is_empty,
  if◌then◌else◌,
}
use simply_ip_exporter.Prelude.Result.{Result, ok, refuse_if, map_err}
use simply_ip_exporter.Prelude.Net.{IpNets}
use simply_ip_exporter.Prelude.Text.{Text, codes, trim}
use simply_ip_exporter.BoundIps.{validate_bound_ips}
use simply_ip_exporter.Entities.{ApiKey, Db}
use simply_ip_exporter.Error.{
  AppError, forbidden, invalid_input, db_error, only_master_manages_keys, master_immutable,
  bad_bound_ips, Message,
}

unfoldable pub require_master : ApiKey → Result AppError (Unit {0})
require_master caller = refuse_if (not caller.is_master) (forbidden only_master_manages_keys)

-- The operation is in the message.
unfoldable pub guard_master_delete_or_rotate : ApiKey → Message → Result AppError (Unit {0})
guard_master_delete_or_rotate target operation = refuse_if target.is_master (forbidden operation)

unfoldable pub guard_master_update : ApiKey → Bool → Bool → Result AppError (Unit {0})
guard_master_update target name_present can_manage_keys_present =
    refuse_if (target.is_master && (name_present || can_manage_keys_present))
      (forbidden master_immutable)

-- What a call has from outside: the time, the fresh values, how the queries go, and the caller.
pub record Call : Type 0 where
  pub caller : ApiKey
  pub client_ip : Text
  pub now : ℕ
  pub fresh_id : ℕ
  pub audit_id : ℕ
  pub token_bytes : Text
  pub plaintext_key : Text
  pub signing_secret : Text
  pub nonce : Text
  pub answers : ℕ → Bool

-- The `?` after the n-th query.
unfoldable pub query : Call → ℕ → Result AppError (Unit {0})
query c n = refuse_if (not (c.answers n)) db_error

unfoldable pub find_by_id : ℕ → List ApiKey → Option ApiKey
find_by_id id [] = none
find_by_id id (k ∷ ks) = let rest = find_by_id id ks in if k.id == id then some k else rest

unfoldable pub is_owned : ℕ → Option ℕ → Bool
is_owned id none = false
is_owned id (some owner) = owner == id

-- One entry; its id and the time come from the call.
unfoldable pub create_audit_log : Call → Text → Option Text → Option Text → Db → Db
create_audit_log c action target_resource details db = record db {
  audit_logs =
      record {
        id = c.audit_id;
        api_key_id = some c.caller.id;
        api_key_name = c.caller.name;
        api_key_prefix = c.caller.prefix;
        client_ip = c.client_ip;
        action = action;
        target_resource = target_resource;
        details = details;
        timestamp = c.now;
      }
      ∷ db.audit_logs;
}

-- `filter(|s| !s.trim().is_empty())`.
abbrev pub not_blank : Option Text → Option Text
not_blank none = none
not_blank (some raw) = if is_empty (trim raw) then none else some raw

-- The `Display` of a `Uuid` and of a `usize`.
pub record Display : Type 0 where
  pub uuid : ℕ → Text
  pub usize : ℕ → Text

-- `format!("{kind}:{id} ({name})")`.
pub describe_resource : Display → Text → ℕ → Text → Text
describe_resource display kind id name =
    kind ++ (codes ":" ++ (display.uuid id ++ (codes " (" ++ (name ++ codes ")"))))

-- `[T]::join(", ")`.
pub join : List Text → Text
join [] = []
join (s ∷ []) = s
join (s ∷ t ∷ ss) = s ++ (codes ", " ++ join (t ∷ ss))

-- `format!("changed: {}", …)` with the names of the fields.
pub changed_details : List Text → Text
changed_details changed =
    codes "changed: " ++ (if is_empty changed then codes "(none)" else join changed)

-- A `changed.push(…)` under `if let Some(…)`.
abbrev pub push_if : Bool → Text → List Text → List Text
push_if present field changed = if present then field ∷ changed else changed

-- `validate_bound_ips(raw).map_err(AppError::InvalidInput)?`.
module _ (nets : IpNets) where
  unfoldable pub check_bound_ips : Text → Result AppError (Unit {0})
  check_bound_ips raw = map_err (λ e. invalid_input bad_bound_ips) (validate_bound_ips nets raw)

  -- The same under `if let Some(raw)`.
  unfoldable pub check_all : Option Text → Result AppError (Unit {0})
  check_all none = ok tt
  check_all (some raw) = check_bound_ips raw
