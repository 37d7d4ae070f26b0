-- ===== src/Auth/Authentic.antt =====
-- What an accepted request has shown.
use simply_ip_exporter.Prelude.{
  ℕ, ◌≡◌, refl, sym, subst, ◌⊎◌, inl, inr, true, none, some, List, [], ◌∷◌, Bool-cases, arith,
}
use simply_ip_exporter.Prelude.Result.{
  Result, ok, err, >>=-eq-ok, ok_or, ◌>>=◌, ok_or-ok, map_err, map_err-ok, Result-cases,
}
use simply_ip_exporter.Prelude.Net.{IpAddr}
use simply_ip_exporter.Prelude.Text.{Text}
use simply_ip_exporter.Entities.{ApiKey}
use simply_ip_exporter.Error.{
  unauthorized, signature_reused, no_signing_secret, internal, forbidden, client_ip_not_allowed,
}
use simply_ip_exporter.Crypto.{canonical_v1_payload, verify_signature, open_secret}
use simply_ip_exporter.Crypto.Signing.{verify_signature-ok}
use simply_ip_exporter.BoundIps.{BoundIpEntry, parse_bound_ips, is_allowed}
use simply_ip_exporter.BoundIps.Enforcement.{Matches, is_allowed_iff}
use simply_ip_exporter.Dns.{DnsResolver}
use simply_ip_exporter.Config.{resolved, resolve_client_ip}
use simply_ip_exporter.Master.{authenticate}
use simply_ip_exporter.Replay.{ReplayGuard, check_and_record}
use simply_ip_exporter.Auth.{
  validate_timestamp, reject_signature, Request, Moment, AuthState, Environment, Credentials,
  Authenticated, find_by_hash, read_body, credentials, find_key, recover_signing_secret,
  verify_request, check_bound_ips, admit, authenticate_request, auth_middleware,
}

module _ (env : Environment) where
  open env use {nets, prims, lookup_host, cipher}
  open nets use {IpNet}
  open prims use {hmac, sha256, hex_encode}

  -- The networks of the key admit the client: there are none, or one of them matches, with the host
  -- names resolved from the cache `dns` on.
  pub data IsBound (now : ℕ) (dns : DnsResolver IpNet) (client_ip : IpAddr) (key : ApiKey)
      : Type 0 where
    unrestricted :
        parse_bound_ips nets (elim key.bound_ips [ none ↦ [] | some raw ↦ raw ]) ≡ ok []
        → IsBound now dns client_ip key
    matching :
        (es : List (BoundIpEntry IpNet))
        → parse_bound_ips nets (elim key.bound_ips [ none ↦ [] | some raw ↦ raw ]) ≡ ok es
        → Matches nets lookup_host now client_ip es dns
        → IsBound now dns client_ip key

  -- `s` and `s'` are the states before and after. The request is signed with the secret of a known key, over all of itself, its signature is fresh and
  -- recorded, and the client lies in the key's networks.
  pub record IsAuthentic (m : Moment) (req : Request) (s s' : AuthState IpNet) (a : Authenticated)
      : Type 0 where
    pub presented_key : Text
    pub timestamp_header : Text
    pub found : ApiKey
    pub stored : Text
    pub secret : Text
    pub bytes : Text
    pub digest : Text
    pub has_key : req.x_api_key ≡ some presented_key
    pub has_timestamp : req.x_timestamp ≡ some timestamp_header
    pub is_timely :
        validate_timestamp env.parse_i64 m.now_seconds timestamp_header
          env.signature_max_age_seconds
        ≡ ok tt
    pub has_body : req.body ≡ some bytes
    pub is_known : find_by_hash (hex_encode (sha256 presented_key)) m.api_keys ≡ some found
    pub is_pinned : a.key_record ≡ (authenticate m.master_answers m.api_keys found s.master_pin).0
    pub has_secret : a.key_record.signing_secret ≡ some stored
    pub opens : open_secret prims cipher stored ≡ ok secret
    pub is_signed :
        hmac secret (canonical_v1_payload req.method req.path_and_query timestamp_header bytes)
        ≡ some digest
    pub is_fresh :
        (check_and_record
          (record { key_id = a.key_record.id; digest = digest })
          m.now
          s.replay_guard).0
        ≡ true
    pub is_recorded :
        s'.replay_guard
        ≡ (check_and_record
            (record { key_id = a.key_record.id; digest = digest })
            m.now
            s.replay_guard).1
    pub is_client :
        a.client_ip
        ≡ resolve_client_ip nets req.peer req.forwarding
            (resolved nets lookup_host m.now s.trusted_proxies).0
    pub is_bound :
        IsBound m.now
          (resolved nets lookup_host m.now s.trusted_proxies).1.dns
          a.client_ip
          a.key_record

  abbrev list_of : ApiKey → Text
  list_of key = elim key.bound_ips [ none ↦ [] | some raw ↦ raw ]

  parsed :
      {E A : Type 0} (r : Result E (List A))
      → ((e : E) × (r ≡ err e)) ⊎ ((r ≡ ok []) ⊎ ((x : A) × (xs : List A) × (r ≡ ok (x ∷ xs))))
  parsed (err e) = inl (e, refl)
  parsed (ok []) = inr (inl refl)
  parsed (ok (x ∷ xs)) = inr (inr (x, xs, refl))

  check_bound_ips-ok :
      (now : ℕ) (client_ip : IpAddr) (key : ApiKey) (s : AuthState IpNet) (a : Authenticated)
      → (check_bound_ips env now client_ip key s).0 ≡ ok a
      → (a ≡ record { client_ip = client_ip; key_record = key })
        × IsBound now s.trusted_proxies.dns client_ip key
  unfolding check_bound_ips
  check_bound_ips-ok now client_ip key s a h = elim (parsed (parse_bound_ips nets (list_of key))) [
    | inl (e, p) ↦ absurd (let h' : err internal ≡ ok a = rw (p, check_bound_ips) at h in cc)
    | inr (inl p) ↦
        let h' : ok (record { client_ip = client_ip; key_record = key }) ≡ ok a =
          rw (p, check_bound_ips) at h in
        (cc, unrestricted p)
    | inr (inr (e, es, p)) ↦
        let allowed = is_allowed nets lookup_host now (e ∷ es) client_ip s.trusted_proxies.dns in
        elim (Bool-cases allowed.0) [
          | inl q ↦
              let h' : ok (record { client_ip = client_ip; key_record = key }) ≡ ok a =
                rw q at (rw (p, check_bound_ips) at h) in
              (
                cc,
                matching (e ∷ es) p (
                    (is_allowed_iff nets lookup_host now client_ip (e ∷ es) s.trusted_proxies.dns).0
                      q),
              )
          | inr q ↦ absurd (
              let h' : err (forbidden client_ip_not_allowed) ≡ ok a =
                rw q at (rw (p, check_bound_ips) at h) in
              cc)
        ]
  ]

  -- The three headers are those of the request.
  credentials-ok :
      (m : Moment) (req : Request) (c : Credentials)
      → credentials env m req ≡ ok c
      → (req.x_api_key ≡ some c.presented_key)
        × (req.x_timestamp ≡ some c.timestamp_header)
        × (validate_timestamp env.parse_i64 m.now_seconds c.timestamp_header
              env.signature_max_age_seconds
            ≡ ok tt)
  unfolding credentials
  credentials-ok m req c h = ground arith

  find_key-ok :
      (m : Moment) (presented_key : Text) (found : ApiKey)
      → find_key env m presented_key ≡ ok found
      → find_by_hash (hex_encode (sha256 presented_key)) m.api_keys ≡ some found
  unfolding find_key
  find_key-ok m presented_key found h = ground arith

  recover_signing_secret-ok :
      (key : ApiKey) (secret : Text)
      → recover_signing_secret env key ≡ ok secret
      → (stored : Text) × (key.signing_secret ≡ some stored)
        × (open_secret prims cipher stored ≡ ok secret)
  unfolding recover_signing_secret
  recover_signing_secret-ok key secret h =
      let (stored, p, h') =
        >>=-eq-ok (ok_or key.signing_secret (unauthorized no_signing_secret))
          (λ stored. map_err (λ e. internal) (open_secret prims cipher stored)) h in
      (
        stored,
        ok_or-ok key.signing_secret (unauthorized no_signing_secret) p,
        map_err-ok (λ e. internal) (open_secret prims cipher stored) h',
      )

  read_body-ok : (req : Request) (bytes : Text) → read_body req ≡ ok bytes → req.body ≡ some bytes
  unfolding read_body
  read_body-ok req bytes h = ground arith

  verify_request-ok :
      (req : Request) (c : Credentials) (key : ApiKey) (digest : Text)
      → verify_request env req c key ≡ ok digest
      → (secret : Text) × (bytes : Text) × (recover_signing_secret env key ≡ ok secret)
        × (req.body ≡ some bytes)
        × (hmac secret (canonical_v1_payload req.method req.path_and_query c.timestamp_header bytes)
            ≡ some digest)
  unfolding verify_request
  verify_request-ok req c key digest h =
      let (secret, p, h₁) =
        >>=-eq-ok (recover_signing_secret env key)
          (λ secret. read_body req >>= λ bytes. map_err reject_signature (
            verify_signature prims secret
              (canonical_v1_payload req.method req.path_and_query c.timestamp_header bytes)
              c.signature))
          h in
      let (bytes, q, h₂) =
        >>=-eq-ok (read_body req)
          (λ bytes. map_err reject_signature (
            verify_signature prims secret
              (canonical_v1_payload req.method req.path_and_query c.timestamp_header bytes)
              c.signature))
          h₁ in
      let payload = canonical_v1_payload req.method req.path_and_query c.timestamp_header bytes in
      (
        secret,
        bytes,
        p,
        read_body-ok req bytes q,
        verify_signature-ok prims secret payload c.signature digest
            (map_err-ok reject_signature (verify_signature prims secret payload c.signature) h₂),
      )

  admit-ok :
      (m : Moment) (client_ip : IpAddr) (key : ApiKey) (digest : Text) (s : AuthState IpNet)
      (a : Authenticated)
      → (admit env m client_ip key digest s).0 ≡ ok a
      → ((check_and_record (record { key_id = key.id; digest = digest }) m.now s.replay_guard).0
          ≡ true)
        × (a ≡ record { client_ip = client_ip; key_record = key })
        × IsBound m.now s.trusted_proxies.dns client_ip key
  unfolding admit
  admit-ok m client_ip key digest s a h =
      let r = check_and_record (record { key_id = key.id; digest = digest }) m.now s.replay_guard in
      elim (Bool-cases r.0) [
        | inr p ↦
            absurd (let h' : err (unauthorized signature_reused) ≡ ok a = rw (p, admit) at h in cc)
        | inl p ↦
            let bound =
              check_bound_ips-ok m.now client_ip key (record s { replay_guard = r.1 }) a
                (rw (p, admit) at h) in
            (p, bound.0, bound.1)
      ]

  -- What the part from the key on shows.
  abbrev Shown :
      Moment
      → Request
      → Credentials
      → ApiKey
      → AuthState IpNet
      → ReplayGuard
      → IpAddr
      → Authenticated
      → Type 0
  Shown m req c found s g' client_ip a =
      let key = (authenticate m.master_answers m.api_keys found s.master_pin).0 in
      (digest : Text) × (verify_request env req c key ≡ ok digest)
      × ((check_and_record (record { key_id = key.id; digest = digest }) m.now s.replay_guard).0
          ≡ true)
      × (g'
          ≡ (check_and_record (record { key_id = key.id; digest = digest }) m.now s.replay_guard).1)
      × (a ≡ record { client_ip = client_ip; key_record = key })
      × IsBound m.now s.trusted_proxies.dns client_ip key

  check_bound_ips-guard :
      (now : ℕ) (client_ip : IpAddr) (key : ApiKey) (s : AuthState IpNet)
      → (check_bound_ips env now client_ip key s).1.replay_guard ≡ s.replay_guard
  unfolding check_bound_ips
  check_bound_ips-guard now client_ip key s = elim (parsed (parse_bound_ips nets (list_of key))) [
    | inl (e, p) ↦ rw (p, check_bound_ips)
    | inr (inl p) ↦ rw (p, check_bound_ips)
    | inr (inr (e, es, p)) ↦
        elim (Bool-cases
          (is_allowed nets lookup_host now (e ∷ es) client_ip s.trusted_proxies.dns).0) [
            | inl q ↦ rw (p, check_bound_ips) (rw q)
            | inr q ↦ rw (p, check_bound_ips) (rw q)
          ]
  ]

  -- A verified signature is recorded, whatever its client's networks.
  pub admit-guard :
      (m : Moment) (client_ip : IpAddr) (key : ApiKey) (digest : Text) (s : AuthState IpNet)
      → (admit env m client_ip key digest s).1.replay_guard
        ≡ (check_and_record (record { key_id = key.id; digest = digest }) m.now s.replay_guard).1
  unfolding admit
  admit-guard m client_ip key digest s =
      let r = check_and_record (record { key_id = key.id; digest = digest }) m.now s.replay_guard in
      elim (Bool-cases r.0) [
        | inl p ↦
            rw (p, admit)
              (check_bound_ips-guard m.now client_ip key (record s { replay_guard = r.1 }))
        | inr p ↦ rw (p, admit)
      ]

  authenticate_request-ok :
      (m : Moment) (req : Request) (client_ip : IpAddr) (c : Credentials) (found : ApiKey)
      (s : AuthState IpNet) (a : Authenticated)
      → (authenticate_request env m req client_ip c found s).0 ≡ ok a
      → Shown m req c found s
          (authenticate_request env m req client_ip c found s).1.replay_guard
          client_ip
          a
  unfolding authenticate_request
  authenticate_request-ok m req client_ip c found s a h =
      let p = authenticate m.master_answers m.api_keys found s.master_pin in
      elim (Result-cases (verify_request env req c p.0)) [
        | inl (e, q) ↦ absurd (let h' : err e ≡ ok a = rw (q, authenticate_request) at h in cc)
        | inr (digest, q) ↦
            let (fresh, same, bound) =
              admit-ok m client_ip p.0 digest (record s { master_pin = p.1 }) a
                (rw (q, authenticate_request) at h) in
            (
              digest,
              q,
              fresh,
              rw (q, authenticate_request)
                  (admit-guard m client_ip p.0 digest (record s { master_pin = p.1 })),
              same,
              bound,
            )
      ]

  IsAuthentic-Shown :
      (m : Moment) (req : Request) (c : Credentials) (found : ApiKey) (s s' : AuthState IpNet)
      (a : Authenticated)
      → credentials env m req ≡ ok c
      → find_key env m c.presented_key ≡ ok found
      → Shown m req c found
          (record s { trusted_proxies = (resolved nets lookup_host m.now s.trusted_proxies).1 })
          s'.replay_guard
          (resolve_client_ip nets req.peer req.forwarding
            (resolved nets lookup_host m.now s.trusted_proxies).0)
          a
      → IsAuthentic m req s s' a
  IsAuthentic-Shown m req c found s s' a p q (digest, verified, fresh, recorded, same, bound) =
      let key = (authenticate m.master_answers m.api_keys found s.master_pin).0 in
      let (x_api_key, x_timestamp, timely) = credentials-ok m req c p in
      let (secret, bytes, recovered, body, signed) = verify_request-ok req c key digest verified in
      let (stored, has, opens) = recover_signing_secret-ok key secret recovered in
      subst (IsAuthentic m req s s') (sym same) (record {
        presented_key = c.presented_key;
        timestamp_header = c.timestamp_header;
        found = found;
        stored = stored;
        secret = secret;
        bytes = bytes;
        digest = digest;
        has_key = x_api_key;
        has_timestamp = x_timestamp;
        is_timely = timely;
        has_body = body;
        is_known = find_key-ok m c.presented_key found q;
        is_pinned = refl;
        has_secret = has;
        opens = opens;
        is_signed = signed;
        is_fresh = fresh;
        is_recorded = recorded;
        is_client = refl;
        is_bound = bound;
      })

  pub auth_middleware-IsAuthentic :
      (m : Moment) (req : Request) (s : AuthState IpNet) (a : Authenticated)
      → (auth_middleware env m req s).0 ≡ ok a
      → IsAuthentic m req s (auth_middleware env m req s).1 a
  unfolding auth_middleware
  auth_middleware-IsAuthentic m req s a h =
      let t = resolved nets lookup_host m.now s.trusted_proxies in
      elim (Result-cases (credentials env m req)) [
        | inl (e, p) ↦ absurd (let h' : err e ≡ ok a = rw (p, auth_middleware) at h in cc)
        | inr (c, p) ↦ elim (Result-cases (find_key env m c.presented_key)) [
          | inl (e, q) ↦ absurd (
              let h' : err e ≡ ok a = rw (q, auth_middleware) at (rw (p, auth_middleware) at h) in
              cc)
          | inr (found, q) ↦
              let client_ip = resolve_client_ip nets req.peer req.forwarding t.0 in
              let s₁ = record s { trusted_proxies = t.1 } in
              rw (p, auth_middleware)
                (rw (q, auth_middleware)
                  (IsAuthentic-Shown m req c found s
                    (authenticate_request env m req client_ip c found s₁).1 a p q
                    (authenticate_request-ok m req client_ip c found s₁ a
                      (rw (q, auth_middleware) at (rw (p, auth_middleware) at h)))))
        ]
      ]
