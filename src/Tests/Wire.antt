-- ===== src/Tests/Wire.antt =====
-- The client's requests to Vault.
use simply_ip_exporter.Prelude.{
  ◌+◌, ◌<◌, ◌≤◌, ◌≢◌, ◌⊎◌, ◌≡◌, refl, true, some, [], ◌∷◌, ◌++◌, length, arith,
}
use simply_ip_exporter.Prelude.Decimal.{to_string, read}
use simply_ip_exporter.Prelude.Result.{ok}
use simply_ip_exporter.Prelude.Text.{Text, codes}
use simply_ip_exporter.Crypto.{canonical_v1_payload, verify_signature}
use simply_ip_exporter.VaultClient.{PageRequest, next_timestamp}
use simply_ip_exporter.VaultClient.Query.{query_of, parameters, query_of-path_and_query}
use simply_ip_exporter.VaultClient.Signed.{received, signed_request_lem}
use simply_ip_exporter.VaultClient.Wire.{VaultClient, SignedRequest, path_and_query, signed_request}
use simply_ip_exporter.Tests.Fixtures.{toys, toys-IsHex}

-- A group whose name is a forged parameter.
abbrev page : PageRequest
page = record {
  groups = codes "a&b=%";
  since = some 1_700_000_000_000_000_000;
  include_total = true;
  limit = 1_000;
  offset = 2_000;
}

query_of-path_and_query_example :
    (query_of (path_and_query page) ≡ some (parameters page))
    × (read (to_string 1_000) ≡ 1_000)
    × (read (to_string 2_000) ≡ 2_000)
query_of-path_and_query_example =
    query_of-path_and_query page
      (omega arith, (omega arith, (omega arith, (omega arith, (omega arith, tt)))))

abbrev client : VaultClient
client = record {
  base_url = codes "http://vault:3000";
  api_key = codes "key";
  signing_secret = codes "secret";
  last_timestamp = 1_700_000_000;
  page_size = 1_000;
}

abbrev groups : Text
groups = codes "/api/groups"

abbrev digest : Text
digest =
    length (
      canonical_v1_payload (codes "GET") groups
        (to_string (next_timestamp 1_700_000_000 1_700_000_000)) [])
    ∷ 6
    ∷ []

signed_request_lem_example :
    (request : SignedRequest) × ((signed_request toys client 1_700_000_000 groups).0 ≡ ok request)
    × (verify_signature toys client.signing_secret
          (received toys toys-IsHex request groups)
          request.x_signature_256
        ≡ ok digest)
    × (request.url ≡ client.base_url ++ groups)
    × (request.x_api_key ≡ client.api_key)
    × (read request.x_timestamp
        ≡ (signed_request toys client 1_700_000_000 groups).1.last_timestamp)
    × ((1_700_000_000 < (signed_request toys client 1_700_000_000 groups).1.last_timestamp)
        ⊎ (1_700_000_000 + 5 ≤ 1_700_000_000))
    × ((signed_request toys client 1_700_000_000 groups).1.last_timestamp ≢ 1_700_000_000)
signed_request_lem_example =
    signed_request_lem toys toys-IsHex client 1_700_000_000 groups digest refl
