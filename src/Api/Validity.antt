-- ===== src/Api/Validity.antt =====
-- Whatever the daemon does, every stored endpoint can be synced and served.
use simply_ip_exporter.Prelude.{◌≡◌, sym, subst, List, [], ◌∷◌, All}
use simply_ip_exporter.Prelude.Net.{IpNets}
use simply_ip_exporter.Api.{
  Request, post_keys, put_key, remove_key, rotate, rotate_secret, post_endpoints, put_endpoint,
  remove_endpoint, put_owner, post_key_groups, delete_key_group, Event, request, cleanup, sync,
  handle, step, run,
}
use simply_ip_exporter.Crypto.{Primitives, SecretCipher}
use simply_ip_exporter.Endpoints.{ApiState}
use simply_ip_exporter.Endpoints.Stored.{
  create_endpoint-Stored, update_endpoint-Stored, delete_endpoint-All,
  reassign_endpoint_owner-Stored,
}
use simply_ip_exporter.Endpoints.Validity.{IsValid, reowned-IsValid, synced-IsValid}
use simply_ip_exporter.Entities.{Endpoint}
use simply_ip_exporter.Groups.Rows.{
  grant_key_group-OnlyGrants, revoke_key_group-OnlyGrants, cleanup-OnlyGrants,
}
use simply_ip_exporter.Keys.Rows.{
  create_api_key-Untouched, update_api_key-Untouched, rotate_api_key-Untouched,
  rotate_signing_secret-Untouched, delete_api_key-All,
}
use simply_ip_exporter.Support.{Call, Display}
use simply_ip_exporter.Sync.Rows.{sync_all_endpoints-All}

module _ (nets : IpNets) (prims : Primitives) (cipher : SecretCipher prims.Cipher)
    (display : Display) where
  open nets use {IpNet}

  -- Every row of `endpoints` is valid.
  abbrev pub Stored : ApiState IpNet → Type 0
  Stored s = All (IsValid nets) s.db.endpoints

  same : {es es' : List Endpoint} → es' ≡ es → All (IsValid nets) es → All (IsValid nets) es'
  same e h = subst (All (IsValid nets)) (sym e) h

  handle-Stored :
      (c : Call) (r : Request) (s : ApiState IpNet)
      → Stored s
      → Stored (handle nets prims cipher display c r s)
  unfolding handle
  handle-Stored c (post_keys payload) s h =
      same (create_api_key-Untouched nets prims cipher display c s.db payload).0 h
  handle-Stored c (put_key id payload) s h =
      same (update_api_key-Untouched nets prims cipher display c s.db id payload).0 h
  handle-Stored c (remove_key id reassign_to) s h =
      delete_api_key-All nets prims cipher display (IsValid nets) (reowned-IsValid nets) c id
        reassign_to s.db h
  handle-Stored c (rotate id) s h =
      same (rotate_api_key-Untouched nets prims cipher display c s.db id).0 h
  handle-Stored c (rotate_secret id) s h =
      same (rotate_signing_secret-Untouched nets prims cipher display c s.db id).0 h
  handle-Stored c (post_endpoints payload) s h =
      create_endpoint-Stored nets prims display c payload s.db h
  handle-Stored c (put_endpoint id payload) s h =
      update_endpoint-Stored nets prims display c id payload s.db h
  handle-Stored c (remove_endpoint id) s h =
      delete_endpoint-All nets prims display (IsValid nets) c id (λ t. t) s h h
  handle-Stored c (put_owner id owner) s h =
      reassign_endpoint_owner-Stored nets prims display c id owner s.db h
  handle-Stored c (post_key_groups id group vault) s h =
      same (grant_key_group-OnlyGrants display c id group vault s.db).1 h
  handle-Stored c (delete_key_group id permission_id) s h =
      same (revoke_key_group-OnlyGrants display c id permission_id s.db).1 h

  step-Stored :
      (e : Event) (s : ApiState IpNet) → Stored s → Stored (step nets prims cipher display e s)
  unfolding step
  step-Stored (request c r) s h = handle-Stored c r s h
  step-Stored (cleanup vault listed deleted) s h =
      same (cleanup-OnlyGrants vault listed deleted s.db).1 h
  step-Stored (sync clock fetch refused configured listed) s h =
      sync_all_endpoints-All (IsValid nets) (synced-IsValid nets) nets clock fetch refused
        configured listed _ h

  -- From valid rows, and so from an empty table, every sequence of requests, cleanups and sync passes
  -- leaves each endpoint with a name that is not blank, at least one group, a positive time between
  -- syncs, a retention window that is not negative and, if it is bound, a list that parses.
  pub run-Stored :
      (es : List Event) (s : ApiState IpNet)
      → Stored s
      → Stored (run nets prims cipher display es s)
  unfolding run
  run-Stored [] s h = h
  run-Stored (e ∷ es) s h = run-Stored es (step nets prims cipher display e s) (step-Stored e s h)
