-- ===== src/Tests/Requests.antt =====
-- Signed requests, and the identity of the Master.
use simply_ip_exporter.Prelude.{
  ℕ, ◌+◌, ◌-◌, ◌^◌, ◌<◌, ◌≤◌, ◌≡◌, ◌≢◌, refl, ◌↔◌, ◌⊎◌, inl, inr, Bool, true, false, Option, none,
  some, List, [], ◌∷◌, ◌++◌, arith, All, if◌then◌else◌, is_yes,
}
use simply_ip_exporter.Prelude.Int.{ℤ, pos}
use simply_ip_exporter.Prelude.Result.{ok}
use simply_ip_exporter.Prelude.Text.{Text, Text-discrete, codes, trim, entries_of, strip_prefix}
use simply_ip_exporter.BoundIps.{parse_bound_ips, parse_entries}
use simply_ip_exporter.Config.{resolve_client_ip, resolved, is_trusted}
use simply_ip_exporter.Dns.{normalize_ip}
use simply_ip_exporter.Auth.{
  Request, Moment, AuthState, Environment, Authenticated, validate_timestamp, auth_middleware,
  serve,
}
use simply_ip_exporter.Auth.SingleUse.{auth_middleware-replayed}
use simply_ip_exporter.Auth.Timestamp.{off_by, wrapping_time, validate_timestamp_iff}
use simply_ip_exporter.Config
use simply_ip_exporter.Crypto.{
  plaintext, sealed, canonical_v1_payload, compute_signature, verify_signature, seal, open_secret,
}
use simply_ip_exporter.Crypto.AtRest.{open_secret-seal}
use simply_ip_exporter.Crypto.Signing.{
  canonical_v1_payload-injective, verify_signature-compute_signature,
}
use simply_ip_exporter.Entities.{ApiKey}
use simply_ip_exporter.Master
use simply_ip_exporter.Master.Pinned.{run-pinned}
use simply_ip_exporter.Replay
use simply_ip_exporter.Tests.Fixtures.{host, blocks, toys, toys-IsHex, toys-Decrypts}

canonical_v1_payload-injective_example :
    (codes "GET" ≡ codes "GET")
    × (codes "/a" ≡ codes "/a")
    × (codes "1000" ≡ codes "1000")
    × (codes "x" ≡ codes "x")
canonical_v1_payload-injective_example =
    canonical_v1_payload-injective (codes "GET") (codes "/a") (codes "1000") (codes "x")
      (codes "GET") (codes "/a") (codes "1000") (codes "x") refl refl refl refl refl refl refl

signed : compute_signature toys (7 ∷ []) (8 ∷ 9 ∷ []) ≡ some (codes "sha256=11010")
unfolding compute_signature
signed = refl

verify_signature-compute_signature_example :
    verify_signature toys (7 ∷ []) (8 ∷ 9 ∷ []) (codes "sha256=11010") ≡ ok (2 ∷ 1 ∷ [])
verify_signature-compute_signature_example =
    verify_signature-compute_signature toys toys-IsHex (7 ∷ []) (8 ∷ 9 ∷ []) (2 ∷ 1 ∷ [])
      (codes "sha256=11010") refl signed

abbrev pub nonce : Text
nonce =
    0 ∷ 0 ∷ 0 ∷ 0 ∷ 0 ∷ 0 ∷ 0 ∷ 0 ∷ 0 ∷ 0 ∷ 0 ∷ 0 ∷ 0 ∷ 0 ∷ 0 ∷ 0 ∷ 0 ∷ 0 ∷ 0 ∷ 0 ∷ 0 ∷ 0 ∷ 0 ∷ 0
    ∷ []

stored :
    seal toys (sealed 3) nonce (7 ∷ [])
    ≡ ok (codes "v1.xchacha20poly1305.000000000000000000000000.111011111110")
unfolding seal
stored = refl

open_secret-seal_example :
    open_secret toys (sealed 3) (codes "v1.xchacha20poly1305.000000000000000000000000.111011111110")
    ≡ ok (7 ∷ [])
open_secret-seal_example =
    open_secret-seal toys toys-IsHex toys-Decrypts (sealed 3) (sealed 3) nonce (7 ∷ [])
      (codes "v1.xchacha20poly1305.000000000000000000000000.111011111110") (inr refl) refl refl
      stored

-- One time parses.
abbrev parse_i64 : Text → Option ℤ
parse_i64 s = if is_yes (Text-discrete s (codes "1000")) then some (pos 1_000) else none

parsed : parse_i64 (trim (codes "1000")) ≡ some (pos 1_000)
unfolding Text-discrete trim
parsed = refl

validate_timestamp_iff_example :
    (validate_timestamp parse_i64 1_200 (codes "1000") (pos 300) ≡ ok tt)
    ↔ ((off_by 1_200 (pos 1_000) ≤ 300) ⊎ (pos 1_000 ≡ wrapping_time 1_200))
validate_timestamp_iff_example =
    validate_timestamp_iff parse_i64 1_200 300 (codes "1000") (pos 1_000) (omega arith)
      (omega arith) (omega arith) parsed

-- The key `1`, with the secret of one byte 7.
abbrev pub master : ApiKey
master = record {
  id = 1;
  name = codes "master";
  prefix = codes "1";
  key_hash = codes "10";
  signing_secret = some (codes "v1.plain.11111110");
  bound_ips = none;
  is_master = true;
  can_manage_keys = true;
  parent_key_id = none;
  owner_key_id = none;
  created_at = 0;
  updated_at = 0;
}

-- Another row that claims to be the Master later on.
abbrev intruder : ApiKey
intruder = record master { id = 2 }

run-pinned_example :
    All
      (λ k.
        k.is_master ≡ true
        → (Master.run Master.new
            ((true, master ∷ [], master) ∷ (true, master ∷ intruder ∷ [], intruder) ∷ [])).1.cell
          ≡ some k.id)
      (Master.run Master.new
        ((true, master ∷ [], master) ∷ (true, master ∷ intruder ∷ [], intruder) ∷ [])).0
run-pinned_example =
    run-pinned ((true, master ∷ [], master) ∷ (true, master ∷ intruder ∷ [], intruder) ∷ [])
      Master.new

abbrev world : Environment
world = record {
  nets = blocks;
  prims = toys;
  lookup_host = λ name. none;
  parse_i64 = parse_i64;
  cipher = plaintext;
  signature_max_age_seconds = pos 300;
}

abbrev start : AuthState ℕ
start = record {
  trusted_proxies = Config.new [];
  master_pin = Master.new;
  replay_guard = Replay.new (pos 300) 0;
}

abbrev moment : ℕ → Moment
moment now = record {
  now = now;
  now_seconds = 1_200;
  api_keys = master ∷ [];
  lookup_answers = true;
  master_answers = true;
}

-- `G`, `/`, `1000` and an empty body make nine bytes.
abbrev get_root : Request
get_root = record {
  peer = host 8 1;
  forwarding = record { x_forwarded_for = []; x_real_ip = [] };
  x_api_key = some (1 ∷ []);
  x_timestamp = some (codes "1000");
  x_signature = some (codes "sha256=111111111010");
  content_length = none;
  body = some [];
  method = codes "G";
  path_and_query = codes "/";
}

abbrev granted : Authenticated
granted = record { client_ip = host 8 1; key_record = master }

accepted : (auth_middleware world (moment 5) get_root start).0 ≡ ok granted
unfolding auth_middleware simply_ip_exporter.Auth.credentials validate_timestamp Text-discrete trim
    simply_ip_exporter.Auth.find_key simply_ip_exporter.Auth.find_by_hash
    simply_ip_exporter.Auth.authenticate_request simply_ip_exporter.Auth.verify_request
    simply_ip_exporter.Auth.recover_signing_secret Master.authenticate Master.resolve
    Master.resolve_inner simply_ip_exporter.Auth.read_body simply_ip_exporter.Auth.admit
    simply_ip_exporter.Auth.check_bound_ips open_secret verify_signature canonical_v1_payload
    Replay.check_and_record Replay.new simply_ip_exporter.Prelude.HashMap.get parse_bound_ips
    parse_entries entries_of resolve_client_ip resolved is_trusted normalize_ip Config.new
    Config.hostnames_of Config.networks_of strip_prefix
accepted = refl

auth_middleware-replayed_example :
    (auth_middleware world (moment 9) get_root (
      serve world
        ((moment 7, get_root) ∷ [])
        (auth_middleware world (moment 5) get_root start).1)).0
    ≢ ok granted
unfolding Replay.new
auth_middleware-replayed_example =
    auth_middleware-replayed world (moment 5) (moment 9) get_root start granted granted
      ((moment 7, get_root) ∷ []) accepted (omega arith, tt) (omega arith) refl
