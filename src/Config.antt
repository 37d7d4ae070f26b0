-- ===== src/Config.antt =====
-- src/config.rs: the trusted proxies, and the client's address behind them.
pub mod ClientIp
pub mod Proxies
pub mod Runtime
use simply_ip_exporter.Prelude.{
  ℕ, ◌*◌, ◌+◌, Bool, true, false, not, ◌&&◌, ◌||◌, Option, none, some, List, [], ◌∷◌, ◌++◌, map,
  any, all, length, is_empty, ltb, ◌==◌, if◌then◌else◌,
}
use simply_ip_exporter.Prelude.Result.{Result, ok, err, ◌>>=◌}
use simply_ip_exporter.Prelude.Net.{IpAddr, v4, v6, IpNets, from_secs}
use simply_ip_exporter.Prelude.Text.{Text, entries_of, trim, is_ascii_digit, is_ascii_hexdigit}
use simply_ip_exporter.Dns.{
  DnsResolver, Rejection, normalize_ip, resolve, force_resolve, hostname_rejection,
}

-- A `TRUSTED_PROXIES` entry.
pub data ProxyMatcher (IpNet : Type 0) : Type 0 where
  network_matcher : IpNet → ProxyMatcher IpNet
  hostname_matcher : Text → ProxyMatcher IpNet

pub record InvalidProxyEntry : Type 0 where
  pub entry : Text
  pub reason : Rejection

-- The list of matchers is kept beside the networks and the names that stand in it.
pub record TrustedProxies (IpNet : Type 0) : Type 0 where
  pub matchers : List (ProxyMatcher IpNet)
  pub networks : List IpNet
  pub hostnames : List Text
  pub dns : DnsResolver IpNet

unfoldable pub networks_of : {IpNet : Type 0} → List (ProxyMatcher IpNet) → List IpNet
networks_of [] = []
networks_of (network_matcher net ∷ ms) = net ∷ networks_of ms
networks_of (hostname_matcher name ∷ ms) = networks_of ms

unfoldable pub hostnames_of : {IpNet : Type 0} → List (ProxyMatcher IpNet) → List Text
hostnames_of [] = []
hostnames_of (network_matcher net ∷ ms) = hostnames_of ms
hostnames_of (hostname_matcher name ∷ ms) = name ∷ hostnames_of ms

unfoldable pub new : {IpNet : Type 0} → List (ProxyMatcher IpNet) → TrustedProxies IpNet
new matchers = record {
  matchers = matchers;
  networks = networks_of matchers;
  hostnames = hostnames_of matchers;
  dns = simply_ip_exporter.Dns.new;
}

module _ (nets : IpNets) (lookup_host : Text → Option (List IpAddr)) where
  open nets use {IpNet}

  -- The loops of `resolved` and `prime` over the host names; each call may fill the shared cache.
  pub resolve_all : ℕ → List Text → DnsResolver IpNet → List IpNet × DnsResolver IpNet
  resolve_all now [] dns = ([], dns)
  resolve_all now (name ∷ names) dns =
      let r = resolve nets lookup_host now name dns in
      let rest = resolve_all now names r.1 in (r.0 ++ rest.0, rest.1)

  unfoldable pub resolved : ℕ → TrustedProxies IpNet → List IpNet × TrustedProxies IpNet
  resolved now t =
      if is_empty t.hostnames
      then (t.networks, t)
      else (let r = resolve_all now t.hostnames t.dns in
          (t.networks ++ r.0, record t { dns = r.1 }))

  pub prime_all : ℕ → List Text → DnsResolver IpNet → List Text × DnsResolver IpNet
  prime_all now [] dns = ([], dns)
  prime_all now (name ∷ names) dns =
      let r = force_resolve nets lookup_host now name dns in
      let rest = prime_all now names r.1 in (if is_empty r.0 then name ∷ rest.0 else rest.0, rest.1)

  -- The names that failed.
  pub prime : ℕ → TrustedProxies IpNet → List Text × TrustedProxies IpNet
  prime now t =
      if is_empty t.hostnames
      then ([], t)
      else (let r = prime_all now t.hostnames t.dns in (r.0, record t { dns = r.1 }))

-- The lines of the two headers, in their order, each as `HeaderValue::to_str().ok()` has it: `none`
-- where it is not visible ASCII. `headers.get` is the first line.
pub record HeaderMap : Type 0 where
  pub x_forwarded_for : List (Option Text)
  pub x_real_ip : List (Option Text)

module _ (nets : IpNets) where
  open nets use {IpNet, parse_net, parse_addr, from_addr, contains}

  -- The loop, with the matchers and the invalid entries that it collects.
  pub collect_proxies : List Text → List (ProxyMatcher IpNet) × List InvalidProxyEntry
  collect_proxies [] = ([], [])
  collect_proxies (entry ∷ es) =
      let rest = collect_proxies es in
      elim (parse_net entry) [
        | some net ↦ (network_matcher net ∷ rest.0, rest.1)
        | none ↦ elim (parse_addr entry) [
          | some addr ↦ (network_matcher (from_addr addr) ∷ rest.0, rest.1)
          | none ↦ elim (hostname_rejection entry) [
            | none ↦ (hostname_matcher entry ∷ rest.0, rest.1)
            | some reason ↦ (rest.0, record { entry = entry; reason = reason } ∷ rest.1)
          ]
        ]
      ]

  pub parse_trusted_proxies : Text → Result (List InvalidProxyEntry) (List (ProxyMatcher IpNet))
  parse_trusted_proxies raw =
      let r = collect_proxies (entries_of raw) in if is_empty r.1 then ok r.0 else err r.1

  -- The result of `TrustedProxies::from_env`; the variable is the argument.
  pub from_env : Option Text → Result (List InvalidProxyEntry) (TrustedProxies IpNet)
  from_env none = ok (new [])
  from_env (some raw) = parse_trusted_proxies raw >>= λ matchers. ok (new matchers)

  unfoldable pub is_trusted : IpAddr → List IpNet → Bool
  is_trusted ip trusted = any (λ net. contains net ip) trusted

  -- The addresses of the header, in its order: texts that are no address are left out.
  unfoldable pub addresses_in : List Text → List IpAddr
  addresses_in [] = []
  addresses_in (s ∷ ss) = elim (parse_addr s) [
    | none ↦ addresses_in ss
    | some ip ↦ normalize_ip ip ∷ addresses_in ss
  ]

  -- `rev().find(…)`: the last address that is not trusted.
  unfoldable pub find_last_untrusted : List IpNet → List IpAddr → Option IpAddr
  find_last_untrusted trusted [] = none
  find_last_untrusted trusted (ip ∷ ips) = elim (find_last_untrusted trusted ips) [
    | some client ↦ some client
    | none ↦ if is_trusted ip trusted then none else some ip
  ]

  -- The `if let` on `X-Forwarded-For`: of several lines only the first is read.
  unfoldable pub forwarded_client : List (Option Text) → List IpNet → Option IpAddr
  forwarded_client [] trusted = none
  forwarded_client (none ∷ lines) trusted = none
  forwarded_client (some forwarded ∷ lines) trusted =
      find_last_untrusted trusted (addresses_in (entries_of forwarded))

  -- The `if let` on `X-Real-IP`.
  unfoldable pub real_ip_client : List (Option Text) → Option IpAddr
  real_ip_client [] = none
  real_ip_client (none ∷ lines) = none
  real_ip_client (some real_ip ∷ lines) = elim (parse_addr (trim real_ip)) [
    | none ↦ none
    | some ip ↦ some (normalize_ip ip)
  ]

  unfoldable pub resolve_client_ip : IpAddr → HeaderMap → List IpNet → IpAddr
  resolve_client_ip peer headers trusted =
      let peer = normalize_ip peer in
      if not (is_trusted peer trusted)
      then peer
      else elim (forwarded_client headers.x_forwarded_for trusted) [
        | some client ↦ client
        | none ↦ elim (real_ip_client headers.x_real_ip) [ some ip ↦ ip | none ↦ peer ]
      ]
