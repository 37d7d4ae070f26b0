-- ===== src/Endpoints/Rules.antt =====
-- src/api/endpoints.rs: who may manage an endpoint, and the validation of its fields; and
-- `granted_group_names` of src/api/groups.rs.
use simply_ip_exporter.Prelude.{
  ℕ, Bool, not, ◌||◌, ◌==◌, Option, none, some, List, [], ◌∷◌, map, filter, all, any, is_empty,
  is_yes, if◌then◌else◌,
}
use simply_ip_exporter.Prelude.Int.{ℤ, is_nonpositive, is_negative}
use simply_ip_exporter.Prelude.Result.{Result, ok, ◌>>=◌, ◌>>◌, ok_or, refuse_if}
use simply_ip_exporter.Prelude.Text.{Text, Text-discrete, trim_all, split, entries_of}
use simply_ip_exporter.Entities.{ApiKey, Endpoint, VaultGroupPermission, Db}
use simply_ip_exporter.Error.{
  AppError, forbidden, not_found, invalid_input, groups_empty, groups_not_granted, ttl_not_positive,
  max_age_negative, no_management_rights,
}
use simply_ip_exporter.Support.{Call, query, is_owned}

unfoldable pub may_manage : ApiKey → Endpoint → Bool
may_manage caller ep = caller.is_master || is_owned caller.id ep.owner_key_id

unfoldable pub find_endpoint : ℕ → List Endpoint → Option Endpoint
find_endpoint id [] = none
find_endpoint id (e ∷ es) = let rest = find_endpoint id es in if e.id == id then some e else rest

-- `active.update`: the row with the id of `ep`.
unfoldable pub set_endpoint : Endpoint → List Endpoint → List Endpoint
set_endpoint ep es = map (λ e. if e.id == ep.id then ep else e) es

unfoldable pub validate_groups : Text → Result AppError (Unit {0})
validate_groups raw =
    refuse_if (all is_empty (trim_all (split b',' raw))) (invalid_input groups_empty)

unfoldable pub validate_max_age : ℤ → Result AppError (Unit {0})
validate_max_age max_age_seconds =
    refuse_if (is_negative max_age_seconds) (invalid_input max_age_negative)

unfoldable pub validate_ttl : ℤ → Result AppError (Unit {0})
validate_ttl ttl_seconds = refuse_if (is_nonpositive ttl_seconds) (invalid_input ttl_not_positive)

-- src/api/groups.rs: `granted_group_names`, the names without the set's order.
unfoldable pub granted_group_names : ℕ → List VaultGroupPermission → List Text
granted_group_names api_key_id grants =
    map (λ g. g.vault_group_name) (filter (λ g. g.api_key_id == api_key_id) grants)

-- `HashSet::contains`.
unfoldable pub contains_name : List Text → Text → Bool
contains_name names name = any (λ n. is_yes (Text-discrete n name)) names

-- The grants are read by the n-th query of the call.
unfoldable pub validate_group_access : Call → ℕ → Text → Db → Result AppError (Unit {0})
validate_group_access c n vault_groups db =
    if c.caller.is_master
    then ok tt
    else (query c n
        >> (let granted = granted_group_names c.caller.id db.vault_group_permissions in
            let ungranted = filter (λ g. not (contains_name granted g)) (entries_of vault_groups) in
            refuse_if (not (is_empty ungranted)) (forbidden groups_not_granted)))

-- `Option::unwrap_or`.
abbrev pub unwrap_or : Option ℤ → ℤ → ℤ
unwrap_or none default = default
unwrap_or (some n) default = n

unfoldable pub existing : Call → ℕ → Db → Result AppError Endpoint
existing c id db = query c 0 >> ok_or (find_endpoint id db.endpoints) not_found

-- The check before an update or a deletion.
unfoldable pub managed : Call → ℕ → Db → Result AppError Endpoint
managed c id db = existing c id db >>= λ ep.
    refuse_if (not (may_manage c.caller ep)) (forbidden no_management_rights) >> ok ep
