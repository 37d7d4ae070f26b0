-- ===== src/Feed/Charged.antt =====
-- What a request to the feed costs its client.
use simply_ip_exporter.Prelude.{
  ℕ, ◌≡◌, refl, subst, ap, inl, inr, Option, none, some, Bool-cases, Option-cases, some-injective,
}
use simply_ip_exporter.Prelude.Result.{Result, ok, err, Result-cases}
use simply_ip_exporter.Prelude.Net.{IpAddr, as_secs}
use simply_ip_exporter.Prelude.Text.{Text}
use simply_ip_exporter.Error.{AppError}
use simply_ip_exporter.Entities.{Endpoint}
use simply_ip_exporter.Cache.{snapshot_within}
use simply_ip_exporter.Config.{resolved, resolve_client_ip}
use simply_ip_exporter.RateLimit.{RateLimiter, check_and_record}
use simply_ip_exporter.Feed.{
  Response, not_modified, too_many, listing, FeedRequest, FeedMoment, FeedState, FeedEnvironment,
  find_endpoint, check_bound_ips, published, body_of, etag_of, is_current, answer, serve_endpoint,
  serve_feed,
}

module _ (env : FeedEnvironment) where
  open env use {nets, lookup_host, sub_seconds}
  open nets use {IpNet}

  -- The client of a request.
  abbrev pub client_of : FeedMoment → FeedRequest → FeedState IpNet → IpAddr
  client_of m req s =
      resolve_client_ip nets req.peer req.forwarding
        (resolved nets lookup_host m.now s.trusted_proxies).0

  -- What a result costs: a listing and a refusal come from one question to the limiter, which
  -- decides between them; an error and a confirmation that a copy is current leave the limiter alone.
  abbrev pub Cost : ℕ → IpAddr → RateLimiter → Result AppError Response → RateLimiter → Type 0
  Cost now client_ip l (err e) l' = l' ≡ l
  Cost now client_ip l (ok (not_modified etag)) l' = l' ≡ l
  Cost now client_ip l (ok (too_many seconds)) l' =
      (remaining : ℕ) × (seconds ≡ as_secs remaining)
      × (check_and_record client_ip now l ≡ (err remaining, l'))
  Cost now client_ip l (ok (listing etag body)) l' = check_and_record client_ip now l ≡ (ok tt, l')

  pair-eta : {A B : Type 0} (p : A × B) {a : A} → p.0 ≡ a → p ≡ (a, p.1)
  pair-eta p e = ap (λ x. (x, p.1)) e

  answer-Cost :
      (now : ℕ) (client_ip : IpAddr) (inm : Option Text) (body : Text) (s : FeedState IpNet)
      → Cost now client_ip s.rate_limiter
          (ok (answer env now client_ip inm body s).0)
          (answer env now client_ip inm body s).1.rate_limiter
  unfolding answer
  answer-Cost now client_ip inm body s =
      let etag = etag_of env body in
      elim (Bool-cases (is_current inm etag)) [
        | inl p ↦ rw (p, answer) refl
        | inr p ↦ elim (Result-cases (check_and_record client_ip now s.rate_limiter).0) [
          | inl (remaining, q) ↦
              rw (p, answer)
                (rw (q, answer)
                  (remaining, refl, pair-eta (check_and_record client_ip now s.rate_limiter) q))
          | inr (u, q) ↦
              rw (p, answer)
                (rw (q, answer) (pair-eta (check_and_record client_ip now s.rate_limiter) q))
        ]
      ]

  serve_endpoint-Cost :
      (m : FeedMoment) (req : FeedRequest) (client_ip : IpAddr) (ep : Endpoint)
      (s s' : FeedState IpNet) (r : Result AppError Response)
      → serve_endpoint env m req client_ip ep s ≡ some (r, s')
      → Cost m.now client_ip s.rate_limiter r s'.rate_limiter
  unfolding serve_endpoint
  serve_endpoint-Cost m req client_ip ep s s' r h =
      let c = check_bound_ips env m.now client_ip ep s.trusted_proxies in
      let s₁ = record s { trusted_proxies = c.1 } in
      elim (Result-cases c.0) [
        | inl (e, p) ↦
            let h' : some (err e, s₁) ≡ some (r, s') = rw (p, serve_endpoint) at h in
            subst (λ w. Cost m.now client_ip s.rate_limiter w.0 w.1.rate_limiter)
              (some-injective h') refl
        | inr (u, p) ↦
            elim (Option-cases
              (snapshot_within sub_seconds ep.id ep.max_age_seconds m.utc s.ip_cache)) [
                | inl q ↦ absurd (
                    let h' : none ≡ some (r, s') =
                      rw (q, serve_endpoint) at (rw (p, serve_endpoint) at h) in
                    cc)
                | inr (raw, q) ↦
                    let body = body_of env (published env ep raw) in
                    let w = answer env m.now client_ip req.if_none_match body s₁ in
                    let h' : some (ok w.0, w.1) ≡ some (r, s') =
                      rw (q, serve_endpoint) at (rw (p, serve_endpoint) at h) in
                    subst (λ w. Cost m.now client_ip s.rate_limiter w.0 w.1.rate_limiter)
                      (some-injective h') (answer-Cost m.now client_ip req.if_none_match body s₁)
              ]
      ]

  -- A full listing is charged to the client by the limiter, and a request that the limiter refuses says
  -- how long to wait; an error, or a 304 for a copy that is current, costs nothing.
  pub serve_feed-Cost :
      (m : FeedMoment) (req : FeedRequest) (s s' : FeedState IpNet) (r : Result AppError Response)
      → serve_feed env m req s ≡ some (r, s')
      → Cost m.now (client_of m req s) s.rate_limiter r s'.rate_limiter
  unfolding serve_feed
  serve_feed-Cost m req s s' r h =
      let t = resolved nets lookup_host m.now s.trusted_proxies in
      let s₁ = record s { trusted_proxies = t.1 } in
      elim (Result-cases (find_endpoint env m req.token_secret)) [
        | inl (e, p) ↦
            let h' : some (err e, s₁) ≡ some (r, s') = rw (p, serve_feed) at h in
            subst (λ w. Cost m.now (client_of m req s) s.rate_limiter w.0 w.1.rate_limiter)
              (some-injective h') refl
        | inr (ep, p) ↦
            serve_endpoint-Cost m req (client_of m req s) ep s₁ s' r (rw (p, serve_feed) at h)
      ]
