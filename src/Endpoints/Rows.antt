-- ===== src/Endpoints/Rows.antt =====
-- What the handlers for endpoints leave of the other tables.
use simply_ip_exporter.Prelude.{ℕ, ◌≡◌, Option, arith}
use simply_ip_exporter.Prelude.Net.{IpNets}
use simply_ip_exporter.Crypto.{Primitives}
use simply_ip_exporter.Entities.{Db}
use simply_ip_exporter.Endpoints.{
  ApiState, write_and_audit, create_endpoint, update_endpoint, delete_checked, delete_endpoint,
  reassign_endpoint_owner,
}
use simply_ip_exporter.Endpoints.Payload.{CreateEndpointPayload, UpdateEndpointPayload}
use simply_ip_exporter.Support.{Call, Display, create_audit_log}

-- Keys and grants as they were.
abbrev pub OnlyEndpoints : Db → Db → Type 0
OnlyEndpoints db db' =
    (db'.api_keys ≡ db.api_keys) × (db'.vault_group_permissions ≡ db.vault_group_permissions)

module _ (nets : IpNets) (prims : Primitives) (display : Display) where
  open nets use {IpNet}

  module _ (c : Call) (db : Db) where
    pub create_endpoint-OnlyEndpoints :
        (payload : CreateEndpointPayload)
        → OnlyEndpoints db (create_endpoint nets prims display c payload db).1
    unfolding create_endpoint write_and_audit create_audit_log
    create_endpoint-OnlyEndpoints payload = ground arith

    pub update_endpoint-OnlyEndpoints :
        (id : ℕ) (payload : UpdateEndpointPayload)
        → OnlyEndpoints db (update_endpoint nets prims display c id payload db).1
    unfolding update_endpoint write_and_audit create_audit_log
    update_endpoint-OnlyEndpoints id payload = ground arith

    pub reassign_endpoint_owner-OnlyEndpoints :
        (id : ℕ) (owner : Option ℕ)
        → OnlyEndpoints db (reassign_endpoint_owner nets prims display c id owner db).1
    unfolding reassign_endpoint_owner write_and_audit create_audit_log
    reassign_endpoint_owner-OnlyEndpoints id owner = ground arith

  pub delete_endpoint-OnlyEndpoints :
      (c : Call) (id : ℕ) (s : ApiState IpNet)
      → OnlyEndpoints s.db (delete_endpoint nets prims display c id (λ t. t) s).1.db
  unfolding delete_endpoint delete_checked create_audit_log
  delete_endpoint-OnlyEndpoints c id s = ground arith
