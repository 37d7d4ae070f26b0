-- ===== src/Auth.antt =====
-- src/middleware.rs: the authentication of every `/api/*` request, and the parts of src/state.rs that
-- it uses. A header is here as far as it is text (`h.to_str().ok()`).
pub mod Timestamp
pub mod Authentic
pub mod SingleUse
use simply_ip_exporter.Prelude.{
  ℕ, ◌*◌, Bool, true, false, not, ◌&&◌, ◌||◌, Option, none, some, List, [], ◌∷◌, ltb, is_empty,
  is_yes, if◌then◌else◌,
}
use simply_ip_exporter.Prelude.Result.{Result, ok, err, ◌>>=◌, ◌>>◌, ok_or, refuse_if, map_err}
use simply_ip_exporter.Prelude.Net.{IpAddr, IpNets}
use simply_ip_exporter.Prelude.Int.{ℤ, pos, sub_from, wrap_i64, wrapping_abs, gtb}
use simply_ip_exporter.Prelude.Text.{Text, Text-discrete, trim}
use simply_ip_exporter.Error.{
  AppError, unauthorized, forbidden, body_rejected, internal, db_error, missing_api_key,
  missing_timestamp, bad_timestamp, stale_timestamp, missing_signature, invalid_api_key,
  no_signing_secret, signature_format, signature_hex, signature_mismatch, signature_reused,
  client_ip_not_allowed, body_too_large,
}
use simply_ip_exporter.Entities.{ApiKey}
use simply_ip_exporter.Crypto.{
  Primitives, SecretCipher, SignatureRejection, missing_prefix, malformed_hex, mismatch,
  key_unusable, canonical_v1_payload, verify_signature, open_secret,
}
use simply_ip_exporter.BoundIps.{BoundIpEntry, parse_bound_ips, is_allowed}
use simply_ip_exporter.Config.{HeaderMap, TrustedProxies, resolved, resolve_client_ip}
use simply_ip_exporter.Master.{MasterPin, authenticate}
use simply_ip_exporter.Replay.{ReplayGuard, check_and_record}

abbrev pub max_signed_body_bytes : ℕ
max_signed_body_bytes = 3 * 1024 * 1024

-- `parse_i64` is `str::parse`; `now_seconds` is the Unix time.
unfoldable pub validate_timestamp : (Text → Option ℤ) → ℕ → Text → ℤ → Result AppError (Unit {0})
validate_timestamp parse_i64 now_seconds raw max_age_seconds =
    ok_or (parse_i64 (trim raw)) (unauthorized bad_timestamp) >>= λ presented.
    let skew = wrapping_abs (wrap_i64 (sub_from now_seconds presented)) in
    refuse_if (gtb skew max_age_seconds) (unauthorized stale_timestamp)

abbrev pub reject_signature : SignatureRejection → AppError
reject_signature missing_prefix = unauthorized signature_format
reject_signature malformed_hex = unauthorized signature_hex
reject_signature mismatch = unauthorized signature_mismatch
reject_signature key_unusable = internal

-- What a request brings. `content_length` is the header's number; `body` is absent when it is longer
-- than the limit or cannot be read.
pub record Request : Type 0 where
  pub peer : IpAddr
  pub forwarding : HeaderMap
  pub x_api_key : Option Text
  pub x_timestamp : Option Text
  pub x_signature : Option Text
  pub content_length : Option ℕ
  pub body : Option Text
  pub method : Text
  pub path_and_query : Text

-- What it finds: the instant and the Unix time, the rows of `api_keys`, and whether the database
-- answers the lookup of the key and the query for the Master.
pub record Moment : Type 0 where
  pub now : ℕ
  pub now_seconds : ℕ
  pub api_keys : List ApiKey
  pub lookup_answers : Bool
  pub master_answers : Bool

-- The fields of `AppState` that change: the one resolver cache stands in `trusted_proxies`, since
-- `dns_resolver` is a clone of its handle.
pub record AuthState (IpNet : Type 0) : Type 0 where
  pub trusted_proxies : TrustedProxies IpNet
  pub master_pin : MasterPin
  pub replay_guard : ReplayGuard

-- The configuration, and what the code calls outside the repository.
pub record Environment : Type 1 where
  pub nets : IpNets
  pub prims : Primitives
  pub lookup_host : Text → Option (List IpAddr)
  pub parse_i64 : Text → Option ℤ
  pub cipher : SecretCipher prims.Cipher
  pub signature_max_age_seconds : ℤ

-- The three headers, when all are there.
pub record Credentials : Type 0 where
  pub presented_key : Text
  pub timestamp_header : Text
  pub signature : Text

-- The extensions that the handlers read.
pub record Authenticated : Type 0 where
  pub client_ip : IpAddr
  pub key_record : ApiKey

-- `filter(KeyHash.eq(key_hash)).one(…)`; the column is unique.
unfoldable pub find_by_hash : Text → List ApiKey → Option ApiKey
find_by_hash key_hash [] = none
find_by_hash key_hash (k ∷ ks) =
    let rest = find_by_hash key_hash ks in
    if is_yes (Text-discrete k.key_hash key_hash) then some k else rest

-- A declared length over the limit, and then the body itself.
unfoldable pub read_body : Request → Result AppError Text
read_body req =
    refuse_if
      (elim req.content_length [
        | none ↦ false
        | some declared ↦ ltb max_signed_body_bytes declared
      ])
      (body_rejected 413 body_too_large)
    >> ok_or req.body (body_rejected 413 body_too_large)

module _ (env : Environment) where
  open env use {nets, prims, lookup_host, parse_i64, cipher, signature_max_age_seconds}
  open nets use {IpNet}
  open prims use {sha256, hex_encode}

  -- The headers, up to the lookup of the key.
  unfoldable pub credentials : Moment → Request → Result AppError Credentials
  credentials m req = ok_or req.x_api_key (unauthorized missing_api_key) >>= λ presented_key.
      ok_or req.x_timestamp (unauthorized missing_timestamp) >>= λ timestamp_header.
      validate_timestamp parse_i64 m.now_seconds timestamp_header signature_max_age_seconds
      >> (ok_or req.x_signature (unauthorized missing_signature) >>= λ signature. ok (record {
        presented_key = presented_key;
        timestamp_header = timestamp_header;
        signature = signature;
      }))

  unfoldable pub find_key : Moment → Text → Result AppError ApiKey
  find_key m presented_key =
      refuse_if (not m.lookup_answers) db_error
      >> ok_or (find_by_hash (hex_encode (sha256 presented_key)) m.api_keys)
          (unauthorized invalid_api_key)

  unfoldable pub recover_signing_secret : ApiKey → Result AppError Text
  recover_signing_secret key_record =
      ok_or key_record.signing_secret (unauthorized no_signing_secret) >>= λ stored.
      map_err (λ e. internal) (open_secret prims cipher stored)

  -- From the secret to the digest of a verified signature.
  unfoldable pub verify_request : Request → Credentials → ApiKey → Result AppError Text
  verify_request req c key_record = recover_signing_secret key_record >>= λ secret.
      read_body req >>= λ bytes. map_err reject_signature (
        verify_signature prims secret
          (canonical_v1_payload req.method req.path_and_query c.timestamp_header bytes) c.signature)

  -- `bound_ips`, at the end; no entry means no restriction.
  unfoldable pub check_bound_ips :
      ℕ → IpAddr → ApiKey → AuthState IpNet → Result AppError Authenticated × AuthState IpNet
  check_bound_ips now client_ip key_record s =
      let granted = ok (record { client_ip = client_ip; key_record = key_record }) in
      elim (parse_bound_ips nets (elim key_record.bound_ips [ none ↦ [] | some raw ↦ raw ])) [
        | err e ↦ (err internal, s)
        | ok [] ↦ (granted, s)
        | ok (e ∷ es) ↦
            let r = is_allowed nets lookup_host now (e ∷ es) client_ip s.trusted_proxies.dns in
            let s' = record s { trusted_proxies = record s.trusted_proxies { dns = r.1 } } in
            elim r.0 [ true ↦ (granted, s') | false ↦ (err (forbidden client_ip_not_allowed), s') ]
      ]

  -- From a verified signature on.
  unfoldable pub admit :
      Moment
      → IpAddr
      → ApiKey
      → Text
      → AuthState IpNet
      → Result AppError Authenticated × AuthState IpNet
  admit m client_ip key_record digest s =
      let r =
        check_and_record (record { key_id = key_record.id; digest = digest }) m.now
          s.replay_guard in
      let s' = record s { replay_guard = r.1 } in
      elim r.0 [
        | false ↦ (err (unauthorized signature_reused), s')
        | true ↦ check_bound_ips m.now client_ip key_record s'
      ]

  -- From the key that was found on: the pin of the Master, and the signature.
  unfoldable pub authenticate_request :
      Moment
      → Request
      → IpAddr
      → Credentials
      → ApiKey
      → AuthState IpNet
      → Result AppError Authenticated × AuthState IpNet
  authenticate_request m req client_ip c found s =
      let a = authenticate m.master_answers m.api_keys found s.master_pin in
      let s' = record s { master_pin = a.1 } in
      elim (verify_request req c a.0) [
        | err e ↦ (err e, s')
        | ok digest ↦ admit m client_ip a.0 digest s'
      ]

  unfoldable pub auth_middleware :
      Moment → Request → AuthState IpNet → Result AppError Authenticated × AuthState IpNet
  auth_middleware m req s =
      let t = resolved nets lookup_host m.now s.trusted_proxies in
      let client_ip = resolve_client_ip nets req.peer req.forwarding t.0 in
      let s' = record s { trusted_proxies = t.1 } in
      elim (credentials m req) [
        | err e ↦ (err e, s')
        | ok c ↦ elim (find_key m c.presented_key) [
          | err e ↦ (err e, s')
          | ok found ↦ authenticate_request m req client_ip c found s'
        ]
      ]

  -- Requests one after the other; the state after them.
  pub serve : List (Moment × Request) → AuthState IpNet → AuthState IpNet
  serve [] s = s
  serve ((m, req) ∷ reqs) s = serve reqs (auth_middleware m req s).1
