-- ===== src/Endpoints/Changes.antt =====
-- src/api/endpoints.rs: what an update makes of the row of an endpoint.
use simply_ip_exporter.Prelude.{ℕ, Bool, Option, none, some, is_empty, if◌then◌else◌}
use simply_ip_exporter.Prelude.Int.{ℤ}
use simply_ip_exporter.Prelude.Net.{IpNets}
use simply_ip_exporter.Prelude.Result.{Result, ok, ◌>>=◌, ◌>>◌, refuse_if}
use simply_ip_exporter.Prelude.Text.{Text, trim}
use simply_ip_exporter.Endpoints.Payload.{UpdateEndpointPayload}
use simply_ip_exporter.Entities.{Endpoint, Db}
use simply_ip_exporter.Error.{AppError, invalid_input, name_empty}
use simply_ip_exporter.Support.{Call, query, check_bound_ips}
use simply_ip_exporter.Endpoints.Rules.{
  validate_groups, validate_max_age, validate_ttl, validate_group_access, managed,
}

-- The blocks of `update_endpoint`, one for each field of the payload.
unfoldable pub update_name : Option Text → Endpoint → Result AppError Endpoint
update_name none ep = ok ep
update_name (some name) ep =
    refuse_if (is_empty (trim name)) (invalid_input name_empty) >> ok (record ep { name = name })

unfoldable pub update_description : Option Text → Endpoint → Endpoint
update_description none ep = ep
update_description (some description) ep = record ep {
  description = if is_empty (trim description) then none else some description;
}

unfoldable pub update_groups : Call → Option Text → Db → Endpoint → Result AppError Endpoint
update_groups c none db ep = ok ep
update_groups c (some vault_groups) db ep =
    validate_groups vault_groups
    >> validate_group_access c 1 vault_groups db
    >> ok (record ep { vault_groups = vault_groups })

unfoldable pub update_ttl : Option ℤ → Endpoint → Result AppError Endpoint
update_ttl none ep = ok ep
update_ttl (some ttl_seconds) ep =
    validate_ttl ttl_seconds >> ok (record ep { ttl_seconds = ttl_seconds })

unfoldable pub update_max_age : Option ℤ → Endpoint → Result AppError Endpoint
update_max_age none ep = ok ep
update_max_age (some max_age_seconds) ep =
    validate_max_age max_age_seconds >> ok (record ep { max_age_seconds = max_age_seconds })

abbrev pub set_if : Option Bool → Bool → Bool
set_if none old = old
set_if (some v) old = v

unfoldable pub update_filters : UpdateEndpointPayload → Endpoint → Endpoint
update_filters payload ep = record ep {
  filter_rfc1918 = set_if payload.filter_rfc1918 ep.filter_rfc1918;
  filter_bogons = set_if payload.filter_bogons ep.filter_bogons;
  filter_loopback = set_if payload.filter_loopback ep.filter_loopback;
}

module _ (nets : IpNets) where
  unfoldable pub update_bound_ips : Option Text → Endpoint → Result AppError Endpoint
  update_bound_ips none ep = ok ep
  update_bound_ips (some bound_ips) ep =
      if is_empty (trim bound_ips)
      then ok (record ep { bound_ips = none })
      else (check_bound_ips nets (trim bound_ips)
          >> ok (record ep { bound_ips = some (trim bound_ips) }))

  -- Up to the row that is written.
  unfoldable pub updated_endpoint : Call → ℕ → UpdateEndpointPayload → Db → Result AppError Endpoint
  updated_endpoint c id payload db = managed c id db >>= λ ep.
      update_name payload.name ep >>= λ named.
      update_groups c payload.vault_groups db (update_description payload.description named)
      >>= λ grouped. update_ttl payload.ttl_seconds grouped >>= λ timed.
          update_max_age payload.max_age_seconds timed >>= λ aged.
          update_bound_ips payload.bound_ips aged >>= λ bound.
          query c 2 >> ok (record (update_filters payload bound) { updated_at = c.now })
