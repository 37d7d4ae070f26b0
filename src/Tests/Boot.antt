-- ===== src/Tests/Boot.antt =====
-- The first start, and a client of the feed that waits.
use simply_ip_exporter.Prelude.{◌≡◌, ◌≢◌, refl, true, false, none, some, [], ◌∷◌, arith}
use simply_ip_exporter.Prelude.HashMap.{get}
use simply_ip_exporter.Prelude.Net.{IpAddr-discrete, v4}
use simply_ip_exporter.Prelude.Result.{ok, err}
use simply_ip_exporter.Prelude.Text.{Text, codes}
use simply_ip_exporter.Auth.{find_by_hash}
use simply_ip_exporter.Crypto.{plaintext, seal, open_secret}
use simply_ip_exporter.Entities.{Db}
use simply_ip_exporter.RateLimit
use simply_ip_exporter.RateLimit.{RateLimiter}
use simply_ip_exporter.RateLimit.Recovery.{served_after_wait}
use simply_ip_exporter.Startup.{
  Environment, Fresh, find_master, validate_initial_master_key, master_row, start,
}
use simply_ip_exporter.Startup.FirstBoot.{restarted, start_lem}
use simply_ip_exporter.Tests.Fixtures.{toys, toys-IsHex, toys-Decrypts}
use simply_ip_exporter.Tests.Requests.{nonce}

abbrev env : Environment
env = record {
  initial_master_key = none;
  bootstrap_subnet = none;
  initial_master_signing_secret = some [];
}

abbrev fresh : Fresh
fresh = record {
  id = 4;
  random_key = codes "k";
  signing_secret = 1 ∷ 2 ∷ [];
  nonce = nonce;
  now = 0;
}

abbrev no_rows : Db
no_rows = record { api_keys = []; endpoints = []; vault_group_permissions = []; audit_logs = [] }

abbrev stored : Text
stored = codes "v1.plain.10110"

stored_lem : seal toys plaintext nonce (1 ∷ 2 ∷ []) ≡ ok stored
unfolding seal
stored_lem = refl

nothing_yet : find_master no_rows.api_keys ≡ none
unfolding find_master
nothing_yet = refl

no_key : validate_initial_master_key none ≡ ok none
unfolding validate_initial_master_key
no_key = refl

abbrev booted : Db
booted = record no_rows { api_keys = master_row toys plaintext env none fresh stored ∷ [] }

start_lem_example :
    (start toys plaintext env fresh (λ n. true) (some true) no_rows
      ≡ (ok (record { cell = some 4 }), booted))
    × (start toys plaintext env fresh (λ n. true) (some true) booted ≡ (
      restarted 4 (validate_initial_master_key none) (open_secret toys plaintext stored),
      booted,
    ))
    × (find_by_hash (toys.hex_encode (toys.sha256 (codes "k"))) booted.api_keys
        ≡ some (master_row toys plaintext env none fresh stored))
    × (open_secret toys plaintext stored ≡ ok (1 ∷ 2 ∷ []))
start_lem_example =
    start_lem toys toys-IsHex toys-Decrypts plaintext env env plaintext none fresh fresh (λ n. true)
      (λ n. true) stored no_rows nothing_yet (λ n. refl) (λ n. refl) no_key refl refl stored_lem

-- One client, served at the instant 7.
abbrev asked : RateLimiter
asked = record {
  state = record { next_allowed = (v4 1, 120_000_000_007) ∷ []; order = v4 1 ∷ [] };
  poisoned = false;
}

asked_again : (RateLimit.check_and_record (v4 1) 9 asked).0 ≡ err 119_999_999_998
unfolding RateLimit.check_and_record get IpAddr-discrete
asked_again = refl

v4-ne : v4 2 ≢ v4 1
v4-ne = ground arith

served_after_wait_example :
    (RateLimit.check_and_record
      (v4 1)
      120_000_000_007
      (RateLimit.run (RateLimit.check_and_record (v4 1) 9 asked).1 ((v4 2, 11) ∷ []))).0
    ≡ ok tt
served_after_wait_example =
    served_after_wait (v4 1) 9 120_000_000_007 119_999_999_998 asked ((v4 2, 11) ∷ []) refl
      asked_again (v4-ne, tt) (omega arith)
