-- ===== src/VaultClient/Wire.antt =====
-- src/vault_client.rs: the client, its signed GET and the target of a request for a page of records.
-- The HTTP crate is outside: `send` gives what a request comes back with.
use simply_ip_exporter.Prelude.{
  ℕ, ◌+◌, ◌-◌, ◌/◌, ◌%◌, ◌||◌, ◌==◌, Bool, Option, none, some, [], ◌∷◌, ◌++◌, ltb, if◌then◌else◌,
}
use simply_ip_exporter.Prelude.Decimal.{to_string}
use simply_ip_exporter.Prelude.Net.{as_secs}
use simply_ip_exporter.Prelude.Result.{Result, ok, err, ◌>>=◌}
use simply_ip_exporter.Prelude.Text.{Text, codes, is_ascii_alphanumeric}
use simply_ip_exporter.Crypto.{Primitives, canonical_v1_payload, compute_signature}
use simply_ip_exporter.VaultClient.{PageRequest, VaultError, status, page_size, next_timestamp}

-- The bytes that `urlencode` keeps.
abbrev pub is_kept : ℕ → Bool
is_kept c = is_ascii_alphanumeric c || c == b'-' || c == b'_' || c == b'.' || c == b'~' || c == b','

-- A digit of `{byte:02X}`.
abbrev pub upper_hex : ℕ → ℕ
upper_hex d = if ltb d 10 then b'0' + d else b'A' + (d - 10)

unfoldable pub urlencode : Text → Text
urlencode [] = []
urlencode (byte ∷ raw) =
    let rest = urlencode raw in
    if is_kept byte
    then byte ∷ rest
    else b'%' ∷ upper_hex (byte / 16) ∷ upper_hex (byte % 16) ∷ rest

-- What `fetch_ips` appends for a differential query.
unfoldable pub since_part : Option ℕ → Text
since_part none = []
since_part (some since) =
    codes "&since=" ++ (urlencode (to_string (as_secs since)) ++ codes "&include_deleted=true")

-- `base`.
unfoldable pub base : Text → Option ℕ → Text
base groups since = codes "/api/ips?groups=" ++ (urlencode groups ++ since_part since)

-- The three `format!`s over `base`.
unfoldable pub path_and_query : PageRequest → Text
path_and_query r =
    base r.groups r.since
    ++ ((if r.include_total then codes "&include_total=true" else [])
        ++ (codes "&limit=" ++ (to_string r.limit ++ (codes "&offset=" ++ to_string r.offset))))

pub record VaultClient : Type 0 where
  pub base_url : Text
  pub api_key : Text
  pub signing_secret : Text
  pub last_timestamp : ℕ
  pub page_size : ℕ

-- The request, with the headers X-API-Key, X-Timestamp and X-Signature-256.
pub record SignedRequest : Type 0 where
  pub url : Text
  pub x_api_key : Text
  pub x_timestamp : Text
  pub x_signature_256 : Text

-- What `from_config` reads of the configuration; `http_built` says whether the HTTP client is built.
pub from_config : Option Text → Option Text → Option Text → Bool → Option VaultClient
from_config (some base_url) (some api_key) (some signing_secret) http_built =
    if http_built
    then some (record {
      base_url = base_url;
      api_key = api_key;
      signing_secret = signing_secret;
      last_timestamp = 0;
      page_size = page_size;
    })
    else none
from_config (some base_url) (some api_key) none http_built = none
from_config (some base_url) none signing_secret http_built = none
from_config none api_key signing_secret http_built = none

module _ (prims : Primitives) where
  -- The request of a GET, and the client with the timestamp that it used.
  unfoldable pub signed_request :
      VaultClient → ℕ → Text → Result VaultError SignedRequest × VaultClient
  signed_request c now path_and_query =
      let ts = next_timestamp now c.last_timestamp in
      let timestamp = to_string ts in
      (
        elim (compute_signature prims c.signing_secret
            (canonical_v1_payload (codes "GET") path_and_query timestamp [])) [
              | none ↦ err (status 500)
              | some signature ↦ ok (record {
                url = c.base_url ++ path_and_query;
                x_api_key = c.api_key;
                x_timestamp = timestamp;
                x_signature_256 = signature;
              })
            ],
        record c { last_timestamp = ts },
      )

  pub signed_get :
      {A : Type 0}
      → (SignedRequest → Result VaultError A)
      → VaultClient
      → ℕ
      → Text
      → Result VaultError A × VaultClient
  signed_get send c now path_and_query =
      let r = signed_request c now path_and_query in (r.0 >>= send, r.1)
