-- ===== src/Endpoints/Payload.antt =====
-- src/api/endpoints.rs: what the requests and the answers on endpoints carry.
use simply_ip_exporter.Prelude.{ℕ, Bool, Option, List, [], ◌++◌, is_some}
use simply_ip_exporter.Prelude.Int.{ℤ}
use simply_ip_exporter.Prelude.Text.{Text, codes}
use simply_ip_exporter.Entities.{Endpoint}
use simply_ip_exporter.Support.{push_if}

pub record EndpointResponse : Type 0 where
  pub id : ℕ
  pub owner_key_id : Option ℕ
  pub name : Text
  pub description : Option Text
  pub token_secret : Text
  pub feed_path : Text
  pub vault_groups : Text
  pub ttl_seconds : ℤ
  pub max_age_seconds : ℤ
  pub bound_ips : Option Text
  pub filter_rfc1918 : Bool
  pub filter_bogons : Bool
  pub filter_loopback : Bool
  pub last_synced_at : Option ℕ
  pub created_at : ℕ
  pub updated_at : ℕ

pub from_model : Endpoint → EndpointResponse
from_model m = record {
  id = m.id;
  owner_key_id = m.owner_key_id;
  name = m.name;
  description = m.description;
  token_secret = m.token_secret;
  feed_path = codes "/feed/v1/" ++ (m.token_secret ++ codes "/list.txt");
  vault_groups = m.vault_groups;
  ttl_seconds = m.ttl_seconds;
  max_age_seconds = m.max_age_seconds;
  bound_ips = m.bound_ips;
  filter_rfc1918 = m.filter_rfc1918;
  filter_bogons = m.filter_bogons;
  filter_loopback = m.filter_loopback;
  last_synced_at = m.last_synced_at;
  created_at = m.created_at;
  updated_at = m.updated_at;
}

pub record CreateEndpointPayload : Type 0 where
  pub name : Text
  pub description : Option Text
  pub vault_groups : Text
  pub ttl_seconds : Option ℤ
  pub max_age_seconds : Option ℤ
  pub bound_ips : Option Text
  pub filter_rfc1918 : Bool
  pub filter_bogons : Bool
  pub filter_loopback : Bool

pub record UpdateEndpointPayload : Type 0 where
  pub name : Option Text
  pub description : Option Text
  pub vault_groups : Option Text
  pub ttl_seconds : Option ℤ
  pub max_age_seconds : Option ℤ
  pub bound_ips : Option Text
  pub filter_rfc1918 : Option Bool
  pub filter_bogons : Option Bool
  pub filter_loopback : Option Bool

-- The fields that an update names, in the order of the handler.
pub changed_fields : UpdateEndpointPayload → List Text
changed_fields payload = push_if (is_some payload.name) (codes "name") (
    push_if (is_some payload.description) (codes "description") (
      push_if (is_some payload.vault_groups) (codes "vault_groups") (
        push_if (is_some payload.ttl_seconds) (codes "ttl_seconds") (
          push_if (is_some payload.max_age_seconds) (codes "max_age_seconds") (
            push_if (is_some payload.bound_ips) (codes "bound_ips") (
              push_if (is_some payload.filter_rfc1918) (codes "filter_rfc1918") (
                push_if (is_some payload.filter_bogons) (codes "filter_bogons")
                  (push_if (is_some payload.filter_loopback) (codes "filter_loopback") []))))))))
