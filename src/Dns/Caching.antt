-- ===== src/Dns/Caching.antt =====
-- How long an answer is reused.
use simply_ip_exporter.Prelude.{
  ℕ, ◌-◌, ◌≡◌, refl, ◌<◌, false, not, Option, none, some, List, arith, is_empty, if◌then◌else◌, ltb,
  lt→ltb,
}
use simply_ip_exporter.Prelude.HashMap.{get-insert_self}
use simply_ip_exporter.Prelude.Net.{IpAddr, v4, v6, IpNets}
use simply_ip_exporter.Prelude.Text.{Text, Text-discrete}
use simply_ip_exporter.Dns.{
  DnsResolver, is_fresh, normalize_ip, lookup_hostname, refresh_locked, cached, resolve,
}

-- Normalizing is idempotent: nothing that it returns is an IPv4-mapped address.
pub normalize_ip_idem : (ip : IpAddr) → normalize_ip (normalize_ip ip) ≡ normalize_ip ip
unfolding normalize_ip
normalize_ip_idem (v4 n) = refl
normalize_ip_idem (v6 n) = ground arith

-- How long the answer `found` is reused.
abbrev pub reuse : {IpNet : Type 0} → DnsResolver IpNet → List IpNet → ℕ
reuse r found = if not (is_empty found) then r.positive_ttl else r.negative_ttl

module _ (nets : IpNets) (lookup_host later_host : Text → Option (List IpAddr)) where
  open nets use {IpNet}

  -- A lookup at `now`; any other later resolver.
  cached-refresh_locked :
      (now later : ℕ) (name : Text) (r : DnsResolver IpNet)
      → later - now < reuse r (lookup_hostname nets lookup_host name)
      → cached nets later_host later name (refresh_locked nets lookup_host now name r).1
        ≡ some (lookup_hostname nets lookup_host name)
  unfolding cached refresh_locked is_fresh
  cached-refresh_locked now later name r h =
      rw
        (
          get-insert_self Text-discrete name
              (record {
                addresses = lookup_hostname nets lookup_host name;
                attempted_at = now;
                resolved = not (is_empty (lookup_hostname nets lookup_host name));
              })
              r.cache,
          cached,
        )
        (rw (lt→ltb (later - now) (reuse r (lookup_hostname nets lookup_host name)) h))

  -- After a lookup of a name at `now`, a resolution of it within the reuse time of the answer, which is
  -- `positive_ttl` for a found and `negative_ttl` for a failed name, gives the same answer whatever the
  -- system resolver would say by then, and leaves the cache as it is.
  pub resolve-refresh_locked :
      (now later : ℕ) (name : Text) (r : DnsResolver IpNet)
      → later - now < reuse r (lookup_hostname nets lookup_host name)
      → resolve nets later_host later name (refresh_locked nets lookup_host now name r).1
        ≡ refresh_locked nets lookup_host now name r
  unfolding resolve
  resolve-refresh_locked now later name r h =
      rw (cached-refresh_locked now later name r h, resolve) (unfold refresh_locked in refl)

  expired :
      (now later : ℕ) (name : Text) (r : DnsResolver IpNet)
      → ltb (later - now) (reuse r (lookup_hostname nets lookup_host name)) ≡ false
      → cached nets later_host later name (refresh_locked nets lookup_host now name r).1 ≡ none
  unfolding cached refresh_locked is_fresh
  expired now later name r h =
      rw
        (
          get-insert_self Text-discrete name
              (record {
                addresses = lookup_hostname nets lookup_host name;
                attempted_at = now;
                resolved = not (is_empty (lookup_hostname nets lookup_host name));
              })
              r.cache,
          cached,
        )
        (rw h)

  -- Once the reuse time of the last attempt is over, a resolution asks the system resolver again.
  pub resolve_stale :
      (now later : ℕ) (name : Text) (r : DnsResolver IpNet)
      → ltb (later - now) (reuse r (lookup_hostname nets lookup_host name)) ≡ false
      → resolve nets later_host later name (refresh_locked nets lookup_host now name r).1
        ≡ refresh_locked nets later_host later name (refresh_locked nets lookup_host now name r).1
  unfolding resolve
  resolve_stale now later name r h =
      rw (expired now later name r h, resolve) (rw (expired now later name r h))
