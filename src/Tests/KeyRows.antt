-- ===== src/Tests/KeyRows.antt =====
-- The management of keys.
use simply_ip_exporter.Prelude.{◌≡◌, refl, true, false, none, some, [], ◌∷◌}
use simply_ip_exporter.Prelude.Result.{ok}
use simply_ip_exporter.Prelude.Text.{codes}
use simply_ip_exporter.Crypto.{plaintext}
use simply_ip_exporter.Entities.{ApiKey, Db}
use simply_ip_exporter.Keys.{
  CreateKeyPayload, UpdateKeyPayload, delete_api_key, delete_transaction, deletable,
  commit_deletion, existing, reassign_target, reassign_endpoints,
}
use simply_ip_exporter.Support.{
  Display, Call, require_master, query, find_by_id, guard_master_delete_or_rotate, is_owned,
}
use simply_ip_exporter.Keys.Ownership.{owners, handed_over, delete_api_key_lem}
use simply_ip_exporter.Tests.Fixtures.{blocks, toys}
use simply_ip_exporter.Tests.Records.{feed}
use simply_ip_exporter.Tests.Requests.{master}

-- An ordinary key that owns the feed.
abbrev pub daughter : ApiKey
daughter = record master { id = 2; is_master = false; can_manage_keys = false }

abbrev rows : Db
rows = record {
  api_keys = master ∷ daughter ∷ [];
  endpoints = record feed { owner_key_id = some 2 } ∷ [];
  vault_group_permissions = [];
  audit_logs = [];
}

abbrev pub call_by : ApiKey → Call
call_by caller = record {
  caller = caller;
  client_ip = codes "8.8.8.8";
  now = 5;
  fresh_id = 3;
  audit_id = 4;
  token_bytes = codes "t";
  plaintext_key = codes "abcdefghij";
  signing_secret = codes "s";
  nonce = [];
  answers = λ n. true;
}

abbrev pub display : Display
display = record { uuid = λ id. id ∷ []; usize = λ n. n ∷ [] }

abbrev new_one : CreateKeyPayload
new_one = record { name = codes "new"; bound_ips = none; can_manage_keys = false }

abbrev no_change : UpdateKeyPayload
no_change = record { name = none; bound_ips = none; can_manage_keys = none }

gone : (delete_api_key blocks toys plaintext display (call_by master) 2 (some 1) rows).0 ≡ ok tt
unfolding delete_api_key delete_transaction deletable commit_deletion existing require_master query
    find_by_id guard_master_delete_or_rotate is_owned reassign_target reassign_endpoints
gone = refl

delete_api_key_lem_example :
    (find_by_id 2
        (delete_api_key blocks toys plaintext display (call_by master) 2 (some 1) rows).1.api_keys
      ≡ none)
    × (owners
          (delete_api_key blocks toys plaintext display
            (call_by master)
            2
            (some 1)
            rows).1.endpoints
        ≡ handed_over 2 (some 1) (owners rows.endpoints))
delete_api_key_lem_example =
    delete_api_key_lem blocks toys plaintext display (call_by master) 2 (some 1) rows gone
