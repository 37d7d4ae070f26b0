-- ===== src/Tests/Daemon.antt =====
-- The daemon as a whole: requests, cleanups, sync passes and the start.
use simply_ip_exporter.Prelude.{
  ℕ, ◌≡◌, ◌≢◌, refl, true, false, none, some, List, [], ◌∷◌, All, arith,
}
use simply_ip_exporter.Prelude.Int.{pos, negsuc}
use simply_ip_exporter.Prelude.Result.{ok}
use simply_ip_exporter.Prelude.Text.{codes}
use simply_ip_exporter.Api.{
  Event, request, cleanup, put_key, remove_key, post_endpoints, put_endpoint, remove_endpoint,
  handle, run,
}
use simply_ip_exporter.Api.Access.{Lawful, handle-Lawful}
use simply_ip_exporter.Api.Isolation.{Spared, handle-Spared}
use simply_ip_exporter.Api.Master.{MintsOther, run-IsKept}
use simply_ip_exporter.Api.Validity.{Stored, run-Stored}
use simply_ip_exporter.Crypto.{plaintext}
use simply_ip_exporter.Endpoints.{ApiState}
use simply_ip_exporter.Endpoints.Isolation.{HasDistinctIds}
use simply_ip_exporter.Endpoints.Payload.{CreateEndpointPayload, UpdateEndpointPayload}
use simply_ip_exporter.Endpoints.Rules.{find_endpoint}
use simply_ip_exporter.Entities.{VaultGroupPermission, Db}
use simply_ip_exporter.Groups.{Listing, cleanup_stale_group_permissions}
use simply_ip_exporter.Groups.Cleanup.{
  HasDistinctGrants, survivors, cleanup_stale_group_permissions_lem,
}
use simply_ip_exporter.Keys.{UpdateKeyPayload}
use simply_ip_exporter.Keys.Immutable.{IsKept}
use simply_ip_exporter.Support.{find_by_id}
use simply_ip_exporter.Tests.Fixtures.{blocks, toys}
use simply_ip_exporter.Tests.KeyRows.{daughter, display, call_by}
use simply_ip_exporter.Tests.Records.{feed}
use simply_ip_exporter.Tests.Requests.{master}

-- The daughter may read spam; another grant is of a group that Vault has no more.
abbrev spam_grant : VaultGroupPermission
spam_grant = record {
  id = 7;
  api_key_id = 2;
  vault_group_id = 50;
  vault_group_name = codes "spam";
  created_at = 0;
}

abbrev old_grant : VaultGroupPermission
old_grant = record spam_grant { id = 8; vault_group_id = 51; vault_group_name = codes "old" }

abbrev rows : Db
rows = record {
  api_keys = master ∷ daughter ∷ [];
  endpoints = feed ∷ [];
  vault_group_permissions = spam_grant ∷ old_grant ∷ [];
  audit_logs = [];
}

abbrev world : ApiState ℕ
world = record { db = rows; ip_cache = [] }

abbrev spam_listed : Listing
spam_listed = some (ok (record { id = 50; name = codes "spam" } ∷ []))

abbrev new_feed : CreateEndpointPayload
new_feed = record {
  name = codes "mine";
  description = none;
  vault_groups = codes "spam";
  ttl_seconds = none;
  max_age_seconds = some (pos 60);
  bound_ips = none;
  filter_rfc1918 = true;
  filter_bogons = false;
  filter_loopback = false;
}

abbrev other_group : UpdateEndpointPayload
other_group = record {
  name = none;
  description = none;
  vault_groups = some (codes "ham");
  ttl_seconds = some (negsuc 0);
  max_age_seconds = none;
  bound_ips = none;
  filter_rfc1918 = none;
  filter_bogons = none;
  filter_loopback = none;
}

abbrev rename : UpdateKeyPayload
rename = record { name = some (codes "mine"); bound_ips = none; can_manage_keys = none }

abbrev day : List Event
day =
    request (call_by daughter) (post_endpoints new_feed)
    ∷ request (call_by daughter) (put_endpoint 1 other_group)
    ∷ request (call_by master) (put_key 1 rename)
    ∷ request (call_by master) (remove_key 1 none)
    ∷ cleanup spam_listed true true
    ∷ request (call_by daughter) (remove_endpoint 3)
    ∷ []

run-Stored_example : Stored blocks toys plaintext display (
    run blocks toys plaintext display day
      (record { db = record rows { endpoints = [] }; ip_cache = [] }))
run-Stored_example =
    run-Stored blocks toys plaintext display day
      (record { db = record rows { endpoints = [] }; ip_cache = [] }) tt

master-IsKept : IsKept master rows.api_keys
unfolding find_by_id
master-IsKept = record {
  stored = master;
  found = refl;
  unchanged = refl;
  sole = (λ h. refl, (λ h. absurd cc, tt));
}

day-MintsOther : All (MintsOther 1) day
day-MintsOther = let new : 3 ≢ 1 = ground arith in (new, (new, (new, (new, (tt, (new, tt))))))

run-IsKept_example : IsKept master (run blocks toys plaintext display day world).db.api_keys
run-IsKept_example =
    run-IsKept blocks toys plaintext display master refl day world day-MintsOther master-IsKept

rows-HasDistinctIds : HasDistinctIds rows.endpoints
unfolding find_endpoint
rows-HasDistinctIds = (refl, tt)

handle-Spared_example :
    Spared daughter world
      (handle blocks toys plaintext display (call_by daughter) (remove_endpoint 1) world)
handle-Spared_example =
    handle-Spared blocks toys plaintext display (call_by daughter) refl (remove_endpoint 1) world
      rows-HasDistinctIds

handle-Lawful_example :
    All
      (Lawful daughter rows)
      (handle blocks toys plaintext display
        (call_by daughter)
        (post_endpoints new_feed)
        world).db.endpoints
handle-Lawful_example =
    handle-Lawful blocks toys plaintext display (call_by daughter) refl (post_endpoints new_feed)
      world

grants-HasDistinctGrants : HasDistinctGrants rows.vault_group_permissions
grants-HasDistinctGrants = ((refl, tt), (tt, tt))

cleanup_stale_group_permissions_lem_example :
    cleanup_stale_group_permissions spam_listed true true rows ≡ record rows {
      vault_group_permissions = survivors spam_listed true true rows.vault_group_permissions;
    }
cleanup_stale_group_permissions_lem_example =
    cleanup_stale_group_permissions_lem spam_listed true true rows grants-HasDistinctGrants
