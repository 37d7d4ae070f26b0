-- ===== src/Api.antt =====
-- src/lib.rs: the routes that change the state, one constructor for each; and the daemon as a
-- sequence of requests, cleanups of grants and sync passes, each run to its end. The other routes
-- read. `Call` is what the middleware hands to a handler, with the answers of the database.
pub mod Validity
pub mod Master
pub mod Isolation
pub mod Access
use simply_ip_exporter.Prelude.{ℕ, Bool, Option, List, [], ◌∷◌}
use simply_ip_exporter.Prelude.Net.{IpNets}
use simply_ip_exporter.Cache.{IpCache}
use simply_ip_exporter.Crypto.{Primitives, SecretCipher}
use simply_ip_exporter.Endpoints.{
  ApiState, create_endpoint, update_endpoint, delete_endpoint, reassign_endpoint_owner,
}
use simply_ip_exporter.Endpoints.Payload.{CreateEndpointPayload, UpdateEndpointPayload}
use simply_ip_exporter.Entities.{Db}
use simply_ip_exporter.Groups.{
  Listing, grant_key_group, revoke_key_group, cleanup_stale_group_permissions,
}
use simply_ip_exporter.Keys.{
  CreateKeyPayload, UpdateKeyPayload, create_api_key, update_api_key, delete_api_key,
  rotate_api_key, rotate_signing_secret,
}
use simply_ip_exporter.Support.{Call, Display}
use simply_ip_exporter.Sync.{Clock, Fetch, SyncState, sync_all_endpoints}

pub data Request : Type 0 where
  post_keys : CreateKeyPayload → Request
  put_key : ℕ → UpdateKeyPayload → Request
  remove_key : ℕ → Option ℕ → Request
  rotate : ℕ → Request
  rotate_secret : ℕ → Request
  post_endpoints : CreateEndpointPayload → Request
  put_endpoint : ℕ → UpdateEndpointPayload → Request
  remove_endpoint : ℕ → Request
  put_owner : ℕ → Option ℕ → Request
  post_key_groups : ℕ → ℕ → Listing → Request
  delete_key_group : ℕ → ℕ → Request

pub data Event : Type 0 where
  request : Call → Request → Event
  cleanup : Listing → Bool → Bool → Event
  sync : Clock → Fetch → (ℕ → Bool) → Bool → Bool → Event

module _ (nets : IpNets) (prims : Primitives) (cipher : SecretCipher prims.Cipher)
    (display : Display) where
  open nets use {IpNet}

  abbrev with_db : ApiState IpNet → Db → ApiState IpNet
  with_db s db = record s { db = db }

  -- The state that a request leaves.
  pub handle : Call → Request → ApiState IpNet → ApiState IpNet
  handle c (post_keys payload) s =
      with_db s (create_api_key nets prims cipher display c payload s.db).1
  handle c (put_key id payload) s =
      with_db s (update_api_key nets prims cipher display c id payload s.db).1
  handle c (remove_key id reassign_to) s =
      with_db s (delete_api_key nets prims cipher display c id reassign_to s.db).1
  handle c (rotate id) s = with_db s (rotate_api_key nets prims cipher display c id s.db).1
  handle c (rotate_secret id) s =
      with_db s (rotate_signing_secret nets prims cipher display c id s.db).1
  handle c (post_endpoints payload) s =
      with_db s (create_endpoint nets prims display c payload s.db).1
  handle c (put_endpoint id payload) s =
      with_db s (update_endpoint nets prims display c id payload s.db).1
  handle c (remove_endpoint id) s = (delete_endpoint nets prims display c id (λ t. t) s).1
  handle c (put_owner id owner_key_id) s =
      with_db s (reassign_endpoint_owner nets prims display c id owner_key_id s.db).1
  handle c (post_key_groups id vault_group_id vault) s =
      with_db s (grant_key_group display c id vault_group_id vault s.db).1
  handle c (delete_key_group id permission_id) s =
      with_db s (revoke_key_group display c id permission_id s.db).1

  -- A sync pass works on the rows of the endpoints and the cache.
  pub step : Event → ApiState IpNet → ApiState IpNet
  step (request c r) s = handle c r s
  step (cleanup vault listed deleted) s =
      with_db s (cleanup_stale_group_permissions vault listed deleted s.db)
  step (sync clock fetch refused configured listed) s =
      let synced : SyncState IpNet =
        sync_all_endpoints nets clock fetch refused configured listed
          (record { endpoints = s.db.endpoints; ip_cache = s.ip_cache }) in
      record { db = record s.db { endpoints = synced.endpoints }; ip_cache = synced.ip_cache }

  pub run : List Event → ApiState IpNet → ApiState IpNet
  run [] s = s
  run (e ∷ es) s = run es (step e s)
