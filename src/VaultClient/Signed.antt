-- ===== src/VaultClient/Signed.antt =====
-- The requests that the client signs, against the verifier of src/crypto.rs.
use simply_ip_exporter.Prelude.{ℕ, ◌+◌, ◌<◌, ◌≤◌, ◌≢◌, ◌⊎◌, ◌≡◌, refl, some, [], ◌++◌}
use simply_ip_exporter.Prelude.Decimal.{to_string, read, read-to_string}
use simply_ip_exporter.Prelude.Result.{ok}
use simply_ip_exporter.Prelude.Text.{Text, codes}
use simply_ip_exporter.Crypto.{
  Primitives, signature_prefix, canonical_v1_payload, compute_signature, verify_signature,
}
use simply_ip_exporter.Crypto.Signing.{IsHex, verify_signature-compute_signature}
use simply_ip_exporter.VaultClient.{next_timestamp}
use simply_ip_exporter.VaultClient.Timestamps.{next_timestamp_lem}
use simply_ip_exporter.VaultClient.Wire.{VaultClient, SignedRequest, signed_request}

module _ (prims : Primitives) (hex : IsHex prims) where
  open prims use {hmac}

  -- The text that a server computes from what it receives.
  abbrev pub received : SignedRequest → Text → Text
  received request target = canonical_v1_payload (codes "GET") target request.x_timestamp []

  computed :
      (secret payload digest : Text)
      → hmac secret payload ≡ some digest
      → (signature : Text) × (compute_signature prims secret payload ≡ some signature)
  unfolding compute_signature
  computed secret payload digest h =
      (signature_prefix ++ prims.hex_encode digest, rw (h, compute_signature))

  module _ (c : VaultClient) (now : ℕ) (target : Text) where
    abbrev used : Text
    used = to_string (next_timestamp now c.last_timestamp)

    -- With a secret that is key material, a GET is signed whatever the clock says: a server that shares
    -- the secret accepts its signature for the target that it is sent to; the API key is sent with it,
    -- the timestamp reads as the one that the client keeps, and that one is larger than the one
    -- before, unless the clock has gone back by five seconds or more, and never equal to it.
    pub signed_request_lem :
        (digest : Text)
        → hmac c.signing_secret (canonical_v1_payload (codes "GET") target used []) ≡ some digest
        → (request : SignedRequest) × ((signed_request prims c now target).0 ≡ ok request)
          × (verify_signature prims c.signing_secret
                (received request target)
                request.x_signature_256
              ≡ ok digest)
          × (request.url ≡ c.base_url ++ target)
          × (request.x_api_key ≡ c.api_key)
          × (read request.x_timestamp ≡ (signed_request prims c now target).1.last_timestamp)
          × ((c.last_timestamp < (signed_request prims c now target).1.last_timestamp)
              ⊎ (now + 5 ≤ c.last_timestamp))
          × ((signed_request prims c now target).1.last_timestamp ≢ c.last_timestamp)
    unfolding signed_request
    signed_request_lem digest h =
        let (signature, s) = computed c.signing_secret _ digest h in
        let (fresh, other, _, _) = next_timestamp_lem now c.last_timestamp in
        (
          record {
            url = c.base_url ++ target;
            x_api_key = c.api_key;
            x_timestamp = used;
            x_signature_256 = signature;
          },
          rw (s, signed_request),
          verify_signature-compute_signature prims hex c.signing_secret _ digest signature h s,
          refl,
          refl,
          read-to_string (next_timestamp now c.last_timestamp),
          fresh,
          other,
        )
