-- ===== src/Feed/Safe.antt =====
-- What a listing can show.
use simply_ip_exporter.Prelude.{
  ℕ, ◌≡◌, sym, ap, ◌∙◌, inl, inr, false, ◌&&◌, Option, none, some, List, any, Bool-cases,
  Option-cases, some-injective,
}
use simply_ip_exporter.Prelude.Result.{ok, err, Result-cases, ok-injective}
use simply_ip_exporter.Prelude.Net.{IpAddr, as_secs}
use simply_ip_exporter.Prelude.Text.{Text}
use simply_ip_exporter.Entities.{Endpoint}
use simply_ip_exporter.Cache.{snapshot_within}
use simply_ip_exporter.Config.{resolved, resolve_client_ip}
use simply_ip_exporter.IpFilter.Published.{
  Nested, Aggregates, is_excluded, filter_and_aggregate_safe,
}
use simply_ip_exporter.RateLimit.{check_and_record}
use simply_ip_exporter.Feed.{
  not_modified, too_many, listing, FeedRequest, FeedMoment, FeedState, FeedEnvironment,
  find_endpoint, check_bound_ips, published, body_of, etag_of, is_current, answer, serve_endpoint,
  serve_feed,
}

module _ (env : FeedEnvironment) where
  open env use {nets, lookup_host, sub_seconds}
  open nets use {IpNet, contains}

  answer-body :
      (now : ℕ) (client_ip : IpAddr) (inm : Option Text) (body : Text) (s : FeedState IpNet)
      (etag body' : Text)
      → (answer env now client_ip inm body s).0 ≡ listing etag body'
      → (body' ≡ body) × (etag ≡ etag_of env body)
  unfolding answer
  answer-body now client_ip inm body s etag body' h =
      elim (Bool-cases (is_current inm (etag_of env body))) [
        | inl p ↦ absurd (
            let h' : not_modified (etag_of env body) ≡ listing etag body' = rw (p, answer) at h in
            cc)
        | inr p ↦ elim (Result-cases (check_and_record client_ip now s.rate_limiter).0) [
          | inl (remaining, q) ↦ absurd (
              let h' : too_many (as_secs remaining) ≡ listing etag body' =
                rw (q, answer) at (rw (p, answer) at h) in
              cc)
          | inr (u, q) ↦
              let h' : listing (etag_of env body) body ≡ listing etag body' =
                rw (q, answer) at (rw (p, answer) at h) in
              (cc, cc)
        ]
      ]

  serve_endpoint-listing :
      (m : FeedMoment) (req : FeedRequest) (client_ip : IpAddr) (ep : Endpoint)
      (s s' : FeedState IpNet) (etag body : Text)
      → serve_endpoint env m req client_ip ep s ≡ some (ok (listing etag body), s')
      → (raw : List IpNet) × (snapshot_within sub_seconds ep.id ep.max_age_seconds m.utc s.ip_cache
          ≡ some raw)
        × (body ≡ body_of env (published env ep raw))
        × (etag ≡ etag_of env body)
  unfolding serve_endpoint
  serve_endpoint-listing m req client_ip ep s s' etag body h =
      let c = check_bound_ips env m.now client_ip ep s.trusted_proxies in
      let s₁ = record s { trusted_proxies = c.1 } in
      elim (Result-cases c.0) [
        | inl (e, p) ↦ absurd (
            let h' : some (err e, s₁) ≡ some (ok (listing etag body), s') =
              rw (p, serve_endpoint) at h in
            let h'' : err e ≡ ok (listing etag body) = ap (λ w. w.0) (some-injective h') in cc)
        | inr (u, p) ↦
            elim (Option-cases
              (snapshot_within sub_seconds ep.id ep.max_age_seconds m.utc s.ip_cache)) [
                | inl q ↦ absurd (
                    let h' : none ≡ some (ok (listing etag body), s') =
                      rw (q, serve_endpoint) at (rw (p, serve_endpoint) at h) in
                    cc)
                | inr (raw, q) ↦
                    let full = body_of env (published env ep raw) in
                    let w = answer env m.now client_ip req.if_none_match full s₁ in
                    let h' : some (ok w.0, w.1) ≡ some (ok (listing etag body), s') =
                      rw (q, serve_endpoint) at (rw (p, serve_endpoint) at h) in
                    let h'' : w.0 ≡ listing etag body =
                      ok-injective (ap (λ w. w.0) (some-injective h')) in
                    let (e₁, e₂) =
                      answer-body m.now client_ip req.if_none_match full s₁ etag body h'' in
                    (raw, q, e₁, e₂ ∙ ap (etag_of env) (sym e₁))
              ]
      ]

  -- Every full listing of an endpoint is the text of the networks that its cached records, aged out by
  -- the endpoint's window and filtered by its three flags, leave, tagged with its own hash; and no
  -- address is both in a range that an enabled filter of the endpoint names and in a network shown. The
  -- networks are blocks that nest, and aggregate keeps the addresses.
  pub serve_feed-listing :
      Nested nets
      → Aggregates nets
      → (m : FeedMoment) (req : FeedRequest) (s s' : FeedState IpNet) (ep : Endpoint)
        (etag body : Text) (ip : IpAddr)
      → serve_feed env m req s ≡ some (ok (listing etag body), s')
      → find_endpoint env m req.token_secret ≡ ok ep
      → (raw : List IpNet) × (snapshot_within sub_seconds ep.id ep.max_age_seconds m.utc s.ip_cache
          ≡ some raw)
        × (body ≡ body_of env (published env ep raw))
        × (etag ≡ etag_of env body)
        × ((is_excluded nets ep.filter_rfc1918 ep.filter_bogons ep.filter_loopback ip
              && any (λ net. contains net ip) (published env ep raw))
            ≡ false)
  unfolding serve_feed published
  serve_feed-listing nested agg m req s s' ep etag body ip h found =
      let t = resolved nets lookup_host m.now s.trusted_proxies in
      let client_ip = resolve_client_ip nets req.peer req.forwarding t.0 in
      let (raw, p, q, r) =
        serve_endpoint-listing m req client_ip ep (record s { trusted_proxies = t.1 }) s' etag body
          (rw (found, serve_feed) at h) in
      (
        raw,
        p,
        q,
        r,
        elim (Bool-cases
            (is_excluded nets ep.filter_rfc1918 ep.filter_bogons ep.filter_loopback ip)) [
              | inl excluded ↦ rw excluded (
                  filter_and_aggregate_safe nets nested agg raw ep.filter_rfc1918 ep.filter_bogons
                    ep.filter_loopback ip excluded)
              | inr kept ↦ rw kept
            ],
      )
