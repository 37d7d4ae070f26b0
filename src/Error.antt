-- ===== src/Error.antt =====
-- src/error.rs: the error type of every handler. A message is one constructor for each text of the
-- source, with what the source formats into it left out; the database's own error text is dropped.
use simply_ip_exporter.Prelude.{ℕ, List}
use simply_ip_exporter.Prelude.Text.{Text}

pub data Message : Type 0 where
  missing_api_key missing_timestamp bad_timestamp stale_timestamp missing_signature : Message
  invalid_api_key no_signing_secret signature_format signature_hex signature_mismatch : Message
  signature_reused client_ip_not_allowed body_too_large : Message
  only_master_manages_keys master_not_deleted master_not_rotated master_immutable : Message
  only_master_reads_audit only_master_reassigns no_management_rights own_grants_only : Message
  name_empty bad_bound_ips reassign_to_self reassign_to_missing no_such_group bad_path : Message
  groups_empty groups_not_granted ttl_not_positive max_age_negative owner_missing : Message
  rate_limited : Message

pub data AppError : Type 0 where
  db_error : AppError
  invalid_input : Message → AppError
  unauthorized : Message → AppError
  forbidden : Message → AppError
  not_found : AppError
  conflict : Message → AppError
  -- The inventory: id and name of each owned endpoint.
  conflict_with_details : List (ℕ × Text) → AppError
  too_many_requests : Message → AppError
  body_rejected : ℕ → Message → AppError
  internal : AppError
  vault_not_configured : AppError
  vault_unreachable : AppError

-- The HTTP status of `into_response`.
pub status : AppError → ℕ
status db_error = 500
status (invalid_input m) = 400
status (unauthorized m) = 401
status (forbidden m) = 403
status not_found = 404
status (conflict m) = 409
status (conflict_with_details d) = 409
status (too_many_requests m) = 429
status (body_rejected code m) = code
status internal = 500
status vault_not_configured = 503
status vault_unreachable = 502
