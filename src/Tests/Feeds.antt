-- ===== src/Tests/Feeds.antt =====
-- Requests to the public feed.
use simply_ip_exporter.Prelude.{
  ◌&&◌, ℕ, ◌≡◌, refl, Bool, true, false, Option, none, some, List, [], ◌∷◌, any,
}
use simply_ip_exporter.Prelude.Result.{ok}
use simply_ip_exporter.Prelude.Text.{Text, Text-discrete, codes}
use simply_ip_exporter.Cache.{IpCache, snapshot_within}
use simply_ip_exporter.Config
use simply_ip_exporter.IpFilter
use simply_ip_exporter.IpFilter.Published.{is_excluded}
use simply_ip_exporter.RateLimit
use simply_ip_exporter.Feed
use simply_ip_exporter.Feed.{
  Response, listing, FeedRequest, FeedMoment, FeedState, FeedEnvironment, find_endpoint, published,
  body_of, etag_of, serve_feed,
}
use simply_ip_exporter.Feed.Charged.{client_of, serve_feed-Cost}
use simply_ip_exporter.Feed.Safe.{serve_feed-listing}
use simply_ip_exporter.Tests.Fixtures.{host, blocks, blocks-Nested, blocks-Aggregates}
use simply_ip_exporter.Tests.Records.{feed}

-- Two blocks, one of them private.
abbrev cached : IpCache ℕ
cached =
    (
      1,
      record {
        records =
            (codes "8.0.0.0/8", record { network = 8; last_seen_at = 5 })
            ∷ (codes "10.0.0.0/8", record { network = 10; last_seen_at = 6 })
            ∷ [];
        last_synced_at = some 6;
        last_full_sync_at = some 7;
      },
    )
    ∷ []

abbrev world : FeedEnvironment
world = record {
  nets = blocks;
  lookup_host = λ name. none;
  sub_seconds = λ now s. none;
  sort = λ lines. lines;
  sha256_hex = λ body. body;
}

abbrev start : FeedState ℕ
start = record { trusted_proxies = Config.new []; ip_cache = cached; rate_limiter = RateLimit.new }

abbrev moment : FeedMoment
moment = record { now = 5; utc = 9; endpoints = some (feed ∷ []) }

abbrev poll : FeedRequest
poll = record {
  token_secret = codes "token";
  peer = host 9 1;
  forwarding = record { x_forwarded_for = []; x_real_ip = [] };
  if_none_match = none;
}

-- The state after the listing.
abbrev after : FeedState ℕ
after = record start { rate_limiter = (RateLimit.check_and_record (host 9 1) 5 RateLimit.new).1 }

abbrev body : Text
body = 8 ∷ b'\n' ∷ []

abbrev tag : Text
tag = b'"' ∷ 8 ∷ b'\n' ∷ b'"' ∷ []

served : serve_feed world moment poll start ≡ some (ok (listing tag body), after)
unfolding serve_feed find_endpoint Feed.find_by_token Text-discrete Feed.serve_endpoint
    Feed.check_bound_ips snapshot_within simply_ip_exporter.Prelude.HashMap.get Feed.answer
    Feed.is_current RateLimit.check_and_record etag_of body_of Feed.join_lines published
    IpFilter.filter_and_aggregate IpFilter.overlaps_any IpFilter.rfc1918 IpFilter.nets
    Config.hostnames_of Config.networks_of Config.new Config.resolved Config.resolve_client_ip
    Config.is_trusted simply_ip_exporter.Dns.normalize_ip simply_ip_exporter.Prelude.ℕ_discrete
served = refl

serve_feed-Cost_example :
    RateLimit.check_and_record (client_of world moment poll start) 5 RateLimit.new
    ≡ (ok tt, after.rate_limiter)
serve_feed-Cost_example =
    serve_feed-Cost world moment poll start after (ok (listing tag body)) served

is_found : find_endpoint world moment (codes "token") ≡ ok feed
unfolding find_endpoint Feed.find_by_token Text-discrete
is_found = refl

serve_feed-listing_example :
    (raw : List ℕ) × (snapshot_within world.sub_seconds 1 feed.max_age_seconds 9 cached ≡ some raw)
    × (body ≡ body_of world (published world feed raw))
    × (tag ≡ etag_of world body)
    × ((is_excluded blocks true false false (host 10 7)
          && any (λ net. blocks.contains net (host 10 7)) (published world feed raw))
        ≡ false)
serve_feed-listing_example =
    serve_feed-listing world blocks-Nested blocks-Aggregates moment poll start after feed tag body
      (host 10 7) served is_found
