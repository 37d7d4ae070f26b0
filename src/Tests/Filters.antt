-- ===== src/Tests/Filters.antt =====
-- Addresses, names, proxies and filters.
use simply_ip_exporter.Prelude.{
  ℕ, ◌≡◌, refl, ◌↔◌, true, false, ◌&&◌, Option, none, some, List, [], ◌∷◌, ◌++◌, arith, any,
}
use simply_ip_exporter.Prelude.Net.{IpAddr, from_secs}
use simply_ip_exporter.Prelude.Text.{Text, Text-discrete, codes, entries_of}
use simply_ip_exporter.BoundIps.{
  BoundIpEntry, network_entry, hostname_entry, is_allowed, parse_bound_ips,
}
use simply_ip_exporter.BoundIps.Enforcement.{Matches, is_allowed_iff}
use simply_ip_exporter.Config.{
  parse_trusted_proxies, forwarded_client, find_last_untrusted, resolve_client_ip, addresses_in,
  is_trusted,
}
use simply_ip_exporter.Config.Proxies.{Agree, parse_trusted_proxies-parse_bound_ips}
use simply_ip_exporter.Config.ClientIp.{
  IsLastUntrusted, forwarded_client_lem, resolve_client_ip-forged,
}
use simply_ip_exporter.Dns
use simply_ip_exporter.Dns.{
  normalize_ip, lookup_hostname, refresh_locked, resolve, hostname_rejection,
}
use simply_ip_exporter.Dns.Caching.{resolve-refresh_locked, resolve_stale}
use simply_ip_exporter.Dns.Names.{IsHostname, hostname_rejection_iff}
use simply_ip_exporter.IpFilter.{filter_and_aggregate, rfc1918, nets}
use simply_ip_exporter.IpFilter.Published.{
  is_excluded, passes, filter_and_aggregate_lem, filter_and_aggregate_safe,
}
use simply_ip_exporter.Tests.Fixtures.{host, blocks, blocks-Nested, blocks-Aggregates}

-- One name is known.
abbrev lookup : Text → Option (List IpAddr)
lookup name = some (host 8 1 ∷ [])

abbrev entries : List (BoundIpEntry ℕ)
entries = network_entry 10 ∷ hostname_entry (codes "vpn") ∷ []

is_allowed_iff_example :
    ((is_allowed blocks lookup 0 entries (host 8 5) Dns.new).0 ≡ true)
    ↔ Matches blocks lookup 0 (host 8 5) entries Dns.new
is_allowed_iff_example = is_allowed_iff blocks lookup 0 (host 8 5) entries Dns.new

abbrev raw_entries : Text
raw_entries = codes "10.0.0.0/8, vpn, 10.0.0.256"

parse_trusted_proxies-parse_bound_ips_example :
    Agree (parse_bound_ips blocks raw_entries) (parse_trusted_proxies blocks raw_entries)
parse_trusted_proxies-parse_bound_ips_example =
    parse_trusted_proxies-parse_bound_ips blocks raw_entries

-- A proxy at 10.0.0.1 that forwards for 8.8.8.8.
abbrev forwarded : Text
forwarded = codes "8.8.8.8, 10.0.0.1"

found : forwarded_client blocks (some forwarded ∷ []) (10 ∷ []) ≡ some (host 8 526_344)
unfolding forwarded_client find_last_untrusted addresses_in is_trusted entries_of Text-discrete
    normalize_ip
found = refl

forwarded_client_lem_example :
    IsLastUntrusted blocks (10 ∷ []) (host 8 526_344) (addresses_in blocks (entries_of forwarded))
forwarded_client_lem_example =
    forwarded_client_lem blocks (10 ∷ []) forwarded [] (host 8 526_344) found

resolve_client_ip-forged_example :
    resolve_client_ip blocks
      (host 10 1)
      (record {
        x_forwarded_for = some (codes "127.0.0.1" ++ b',' ∷ forwarded) ∷ none ∷ [];
        x_real_ip = [];
      })
      (10 ∷ [])
    ≡ resolve_client_ip blocks
        (host 10 1)
        (record { x_forwarded_for = some forwarded ∷ []; x_real_ip = some (codes "10.0.0.1") ∷ [] })
        (10 ∷ [])
resolve_client_ip-forged_example =
    resolve_client_ip-forged blocks (10 ∷ []) (host 10 1) (host 8 526_344) (codes "127.0.0.1")
      forwarded [] (none ∷ []) [] (some (codes "10.0.0.1") ∷ []) found

private_excluded : is_excluded blocks true false false (host 10 7) ≡ true
unfolding is_excluded rfc1918 nets Text-discrete
private_excluded = refl

filter_and_aggregate_safe_example :
    any
      (λ net. blocks.contains net (host 10 7))
      (filter_and_aggregate blocks (8 ∷ 10 ∷ []) true false false)
    ≡ false
filter_and_aggregate_safe_example =
    filter_and_aggregate_safe blocks blocks-Nested blocks-Aggregates (8 ∷ 10 ∷ []) true false false
      (host 10 7) private_excluded

filter_and_aggregate_lem_example :
    any
      (λ net. blocks.contains net (host 8 1))
      (filter_and_aggregate blocks (8 ∷ 10 ∷ []) true true true)
    ≡ any (λ net. passes blocks true true true net && blocks.contains net (host 8 1)) (8 ∷ 10 ∷ [])
filter_and_aggregate_lem_example =
    filter_and_aggregate_lem blocks blocks-Aggregates (8 ∷ 10 ∷ []) true true true (host 8 1)

hostname_rejection_iff_example :
    (hostname_rejection (codes "traefik-1") ≡ none) ↔ IsHostname (codes "traefik-1")
hostname_rejection_iff_example = hostname_rejection_iff (codes "traefik-1")

abbrev no_answer : Text → Option (List IpAddr)
no_answer name = none

resolve-refresh_locked_example :
    resolve blocks no_answer 8
      (codes "vpn")
      (refresh_locked blocks lookup 5 (codes "vpn") Dns.new).1
    ≡ refresh_locked blocks lookup 5 (codes "vpn") Dns.new
unfolding lookup_hostname
resolve-refresh_locked_example =
    resolve-refresh_locked blocks lookup no_answer 5 8 (codes "vpn") Dns.new (omega arith)

resolve_stale_example :
    resolve blocks lookup
      (from_secs 5)
      (codes "vpn")
      (refresh_locked blocks no_answer 0 (codes "vpn") Dns.new).1
    ≡ refresh_locked blocks lookup
        (from_secs 5)
        (codes "vpn")
        (refresh_locked blocks no_answer 0 (codes "vpn") Dns.new).1
unfolding lookup_hostname
resolve_stale_example =
    resolve_stale blocks no_answer lookup 0 (from_secs 5) (codes "vpn") Dns.new refl
