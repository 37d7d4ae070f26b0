-- ===== src/Api/Master.antt =====
-- Whatever the daemon does, the Master stays the Master, with its credentials.
use simply_ip_exporter.Prelude.{ℕ, ◌≡◌, ◌≢◌, sym, subst, true, List, [], ◌∷◌, All}
use simply_ip_exporter.Prelude.Net.{IpNets}
use simply_ip_exporter.Api.{
  Request, post_keys, put_key, remove_key, rotate, rotate_secret, post_endpoints, put_endpoint,
  remove_endpoint, put_owner, post_key_groups, delete_key_group, Event, request, cleanup, sync,
  handle, step, run,
}
use simply_ip_exporter.Crypto.{Primitives, SecretCipher}
use simply_ip_exporter.Endpoints.{ApiState}
use simply_ip_exporter.Endpoints.Rows.{
  create_endpoint-OnlyEndpoints, update_endpoint-OnlyEndpoints, delete_endpoint-OnlyEndpoints,
  reassign_endpoint_owner-OnlyEndpoints,
}
use simply_ip_exporter.Entities.{ApiKey}
use simply_ip_exporter.Groups.Rows.{
  grant_key_group-OnlyGrants, revoke_key_group-OnlyGrants, cleanup-OnlyGrants,
}
use simply_ip_exporter.Keys.Immutable.{IsKept}
use simply_ip_exporter.Keys.MasterRow.{
  create_api_key-IsKept, update_api_key-IsKept, rotate_api_key-IsKept, rotate_signing_secret-IsKept,
}
use simply_ip_exporter.Keys.Removal.{delete_api_key-IsKept}
use simply_ip_exporter.Support.{Call, Display}

-- The id that a request mints is not `id`.
abbrev pub MintsOther : ℕ → Event → Type 0
MintsOther id (request c r) = c.fresh_id ≢ id
MintsOther id (cleanup vault listed deleted) = Unit
MintsOther id (sync clock fetch refused configured listed) = Unit

module _ (nets : IpNets) (prims : Primitives) (cipher : SecretCipher prims.Cipher)
    (display : Display) where
  open nets use {IpNet}

  module _ (m : ApiKey) (master : m.is_master ≡ true) where
    same : {ks ks' : List ApiKey} → ks' ≡ ks → IsKept m ks → IsKept m ks'
    same e h = subst (IsKept m) (sym e) h

    handle-IsKept :
        (c : Call) (r : Request) (s : ApiState IpNet)
        → c.fresh_id ≢ m.id
        → IsKept m s.db.api_keys
        → IsKept m (handle nets prims cipher display c r s).db.api_keys
    unfolding handle
    handle-IsKept c (post_keys payload) s fresh h =
        create_api_key-IsKept nets prims cipher display m master s.db h c payload fresh
    handle-IsKept c (put_key id payload) s fresh h =
        update_api_key-IsKept nets prims cipher display m master s.db h c id payload
    handle-IsKept c (remove_key id reassign_to) s fresh h =
        delete_api_key-IsKept nets prims cipher display m master s.db h c id reassign_to
    handle-IsKept c (rotate id) s fresh h =
        rotate_api_key-IsKept nets prims cipher display m master s.db h c id
    handle-IsKept c (rotate_secret id) s fresh h =
        rotate_signing_secret-IsKept nets prims cipher display m master s.db h c id
    handle-IsKept c (post_endpoints payload) s fresh h =
        same (create_endpoint-OnlyEndpoints nets prims display c s.db payload).0 h
    handle-IsKept c (put_endpoint id payload) s fresh h =
        same (update_endpoint-OnlyEndpoints nets prims display c s.db id payload).0 h
    handle-IsKept c (remove_endpoint id) s fresh h =
        same (delete_endpoint-OnlyEndpoints nets prims display c id s).0 h
    handle-IsKept c (put_owner id owner) s fresh h =
        same (reassign_endpoint_owner-OnlyEndpoints nets prims display c s.db id owner).0 h
    handle-IsKept c (post_key_groups id group vault) s fresh h =
        same (grant_key_group-OnlyGrants display c id group vault s.db).0 h
    handle-IsKept c (delete_key_group id permission_id) s fresh h =
        same (revoke_key_group-OnlyGrants display c id permission_id s.db).0 h

    step-IsKept :
        (e : Event) (s : ApiState IpNet)
        → MintsOther m.id e
        → IsKept m s.db.api_keys
        → IsKept m (step nets prims cipher display e s).db.api_keys
    unfolding step
    step-IsKept (request c r) s fresh h = handle-IsKept c r s fresh h
    step-IsKept (cleanup vault listed deleted) s fresh h =
        same (cleanup-OnlyGrants vault listed deleted s.db).0 h
    step-IsKept (sync clock fetch refused configured listed) s fresh h = h

    -- Whatever requests, cleanups and sync passes come, by whatever callers, the row of the Master stays
    -- in the table, equal to what it was but for its bound_ips and updated_at, and no other key is a
    -- Master, if no request mints the id of the Master again.
    pub run-IsKept :
        (es : List Event) (s : ApiState IpNet)
        → All (MintsOther m.id) es
        → IsKept m s.db.api_keys
        → IsKept m (run nets prims cipher display es s).db.api_keys
    unfolding run
    run-IsKept [] s fresh h = h
    run-IsKept (e ∷ es) s fresh h =
        run-IsKept es (step nets prims cipher display e s) fresh.1 (step-IsKept e s fresh.0 h)
