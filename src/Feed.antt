-- ===== src/Feed.antt =====
-- src/feed.rs: the public feed.
pub mod Charged
pub mod Safe
use simply_ip_exporter.Prelude.{
  ℕ, Bool, true, false, not, Option, none, some, List, [], ◌∷◌, ◌++◌, map, is_empty, is_yes,
  if◌then◌else◌,
}
use simply_ip_exporter.Prelude.Result.{Result, ok, err, ◌>>=◌, ok_or, refuse_if}
use simply_ip_exporter.Prelude.Net.{IpAddr, IpNets, as_secs}
use simply_ip_exporter.Prelude.Text.{Text, Text-discrete, trim}
use simply_ip_exporter.Error.{
  AppError, not_found, db_error, internal, forbidden, client_ip_not_allowed,
}
use simply_ip_exporter.Entities.{Endpoint}
use simply_ip_exporter.BoundIps.{parse_bound_ips, is_allowed}
use simply_ip_exporter.Cache.{IpCache, snapshot_within}
use simply_ip_exporter.Config.{HeaderMap, TrustedProxies, resolved, resolve_client_ip}
use simply_ip_exporter.IpFilter.{filter_and_aggregate}
use simply_ip_exporter.RateLimit.{RateLimiter, check_and_record}

pub data Response : Type 0 where
  not_modified : Text → Response
  too_many : ℕ → Response
  listing : Text → Text → Response

pub record FeedRequest : Type 0 where
  pub token_secret : Text
  pub peer : IpAddr
  pub forwarding : HeaderMap
  pub if_none_match : Option Text

-- What the request finds: the instant, the date and time, and the rows of `endpoints`, which are
-- absent when the database does not answer.
pub record FeedMoment : Type 0 where
  pub now : ℕ
  pub utc : ℕ
  pub endpoints : Option (List Endpoint)

pub record FeedState (IpNet : Type 0) : Type 0 where
  pub trusted_proxies : TrustedProxies IpNet
  pub ip_cache : IpCache IpNet
  pub rate_limiter : RateLimiter

-- What the code calls outside the repository: the resolver, dates, `sort`, and the hash of the body
-- in hexadecimal. `sub_seconds` is `none` where the subtraction of dates panics.
pub record FeedEnvironment : Type 1 where
  pub nets : IpNets
  pub lookup_host : Text → Option (List IpAddr)
  pub sub_seconds : ℕ → ℕ → Option ℕ
  pub sort : List Text → List Text
  pub sha256_hex : Text → Text

-- `filter(TokenSecret.eq(token_secret)).one(…)`; the column is unique.
unfoldable pub find_by_token : Text → List Endpoint → Option Endpoint
find_by_token token [] = none
find_by_token token (e ∷ es) =
    let rest = find_by_token token es in
    if is_yes (Text-discrete e.token_secret token) then some e else rest

-- `format!("{}\n", lines.join("\n"))`, and nothing for no lines.
unfoldable pub join_lines : List Text → Text
join_lines [] = []
join_lines (l ∷ ls) = l ++ b'\n' ∷ join_lines ls

-- The comparison of `If-None-Match` with the tag.
unfoldable pub is_current : Option Text → Text → Bool
is_current none etag = false
is_current (some inm) etag = is_yes (Text-discrete (trim inm) etag)

module _ (env : FeedEnvironment) where
  open env use {nets, lookup_host, sub_seconds, sort, sha256_hex}
  open nets use {IpNet, display}

  unfoldable pub find_endpoint : FeedMoment → Text → Result AppError Endpoint
  find_endpoint m token =
      ok_or m.endpoints db_error >>= λ rows. ok_or (find_by_token token rows) not_found

  -- The check of `bound_ips`, which a blank value skips.
  unfoldable pub check_bound_ips :
      ℕ
      → IpAddr
      → Endpoint
      → TrustedProxies IpNet
      → Result AppError (Unit {0}) × TrustedProxies IpNet
  check_bound_ips now client_ip ep t = elim ep.bound_ips [
    | none ↦ (ok tt, t)
    | some raw ↦ if is_empty (trim raw) then (ok tt, t) else elim (parse_bound_ips nets raw) [
      | err e ↦ (err internal, t)
      | ok entries ↦
          let r = is_allowed nets lookup_host now entries client_ip t.dns in
          let t' = record t { dns = r.1 } in
          elim r.0 [ true ↦ (ok tt, t') | false ↦ (err (forbidden client_ip_not_allowed), t') ]
    ]
  ]

  unfoldable pub published : Endpoint → List IpNet → List IpNet
  published ep raw =
      filter_and_aggregate nets raw ep.filter_rfc1918 ep.filter_bogons ep.filter_loopback

  unfoldable pub body_of : List IpNet → Text
  body_of aggregated = join_lines (sort (map display aggregated))

  unfoldable pub etag_of : Text → Text
  etag_of body = b'"' ∷ (sha256_hex body ++ b'"' ∷ [])

  -- From the body on: a current copy is answered for nothing, a listing is charged to the client.
  unfoldable pub answer :
      ℕ → IpAddr → Option Text → Text → FeedState IpNet → Response × FeedState IpNet
  answer now client_ip if_none_match body s =
      let etag = etag_of body in
      if is_current if_none_match etag
      then (not_modified etag, s)
      else (let r = check_and_record client_ip now s.rate_limiter in
          let s' = record s { rate_limiter = r.1 } in
          elim r.0 [
            | err remaining ↦ (too_many (as_secs remaining), s')
            | ok u ↦ (listing etag body, s')
          ])

  -- From the endpoint that was found on; `none` is a panic.
  unfoldable pub serve_endpoint :
      FeedMoment
      → FeedRequest
      → IpAddr
      → Endpoint
      → FeedState IpNet
      → Option (Result AppError Response × FeedState IpNet)
  serve_endpoint m req client_ip ep s =
      let c = check_bound_ips m.now client_ip ep s.trusted_proxies in
      let s' = record s { trusted_proxies = c.1 } in
      elim c.0 [
        | err e ↦ some (err e, s')
        | ok u ↦ elim (snapshot_within sub_seconds ep.id ep.max_age_seconds m.utc s'.ip_cache) [
          | none ↦ none
          | some raw ↦
              let r = answer m.now client_ip req.if_none_match (body_of (published ep raw)) s' in
              some (ok r.0, r.1)
        ]
      ]

  unfoldable pub serve_feed :
      FeedMoment
      → FeedRequest
      → FeedState IpNet
      → Option (Result AppError Response × FeedState IpNet)
  serve_feed m req s =
      let t = resolved nets lookup_host m.now s.trusted_proxies in
      let client_ip = resolve_client_ip nets req.peer req.forwarding t.0 in
      let s' = record s { trusted_proxies = t.1 } in
      elim (find_endpoint m req.token_secret) [
        | err e ↦ some (err e, s')
        | ok ep ↦ serve_endpoint m req client_ip ep s'
      ]
