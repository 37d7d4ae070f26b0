-- ===== src/Dns.antt =====
-- src/dns_cache.rs: the shared cache of hostname resolutions. `lookup_host` is the system resolver,
-- with `none` for a failed lookup; `now` is the instant of the call, one for both freshness checks.
pub mod Caching
pub mod Names
use simply_ip_exporter.Prelude.{
  ℕ, ◌-◌, ◌*◌, ◌/◌, ◌%◌, ◌^◌, Bool, true, false, not, ◌&&◌, ◌||◌, Option, none, some, List, [], ◌∷◌,
  map, any, all, length, ltb, ◌==◌, is_empty, if◌then◌else◌,
}
use simply_ip_exporter.Prelude.HashMap.{HashMap, get, insert}
use simply_ip_exporter.Prelude.Net.{IpAddr, v4, v6, IpNets, from_secs}
use simply_ip_exporter.Prelude.Text.{Text, Text-discrete, is_ascii_digit, is_ascii_alphanumeric}

abbrev pub positive_ttl_default : ℕ
positive_ttl_default = from_secs 30

abbrev pub negative_ttl_default : ℕ
negative_ttl_default = from_secs 5

pub record HostnameState (IpNet : Type 0) : Type 0 where
  pub addresses : List IpNet
  pub attempted_at : ℕ
  pub resolved : Bool

pub record DnsResolver (IpNet : Type 0) : Type 0 where
  pub positive_ttl : ℕ
  pub negative_ttl : ℕ
  pub cache : HashMap Text (HostnameState IpNet)

abbrev pub new : {IpNet : Type 0} → DnsResolver IpNet
new = record {
  positive_ttl = positive_ttl_default;
  negative_ttl = negative_ttl_default;
  cache = [];
}

pub is_fresh : {IpNet : Type 0} → ℕ → ℕ → ℕ → HostnameState IpNet → Bool
is_fresh now positive negative s =
    let ttl = if s.resolved then positive else negative in ltb (now - s.attempted_at) ttl

-- `to_ipv4_mapped`: the addresses ::ffff:a.b.c.d.
unfoldable pub normalize_ip : IpAddr → IpAddr
normalize_ip (v6 n) = if n / 2 ^ 32 == 0xffff then v4 (n % 2 ^ 32) else v6 n
normalize_ip (v4 n) = v4 n

module _ (nets : IpNets) (lookup_host : Text → Option (List IpAddr)) where
  open nets use {IpNet, from_addr}

  unfoldable pub lookup_hostname : Text → List IpNet
  lookup_hostname hostname = elim (lookup_host hostname) [
    | none ↦ []
    | some addrs ↦ map (λ a. from_addr (normalize_ip a)) addrs
  ]

  pub refresh_locked : ℕ → Text → DnsResolver IpNet → List IpNet × DnsResolver IpNet
  refresh_locked now hostname r =
      let addresses = lookup_hostname hostname in
      (
        addresses,
        record r {
          cache =
              insert Text-discrete hostname
                (record {
                  addresses = addresses;
                  attempted_at = now;
                  resolved = not (is_empty addresses);
                })
                r.cache;
        },
      )

  -- A fresh entry of the cache.
  pub cached : ℕ → Text → DnsResolver IpNet → Option (List IpNet)
  cached now hostname r = elim (get Text-discrete hostname r.cache) [
    | none ↦ none
    | some s ↦ if is_fresh now r.positive_ttl r.negative_ttl s then some s.addresses else none
  ]

  -- Once under the read lock, once more under the write lock, and then a lookup.
  pub resolve : ℕ → Text → DnsResolver IpNet → List IpNet × DnsResolver IpNet
  resolve now hostname r = elim (cached now hostname r) [
    | some addresses ↦ (addresses, r)
    | none ↦ elim (cached now hostname r) [
      | some addresses ↦ (addresses, r)
      | none ↦ refresh_locked now hostname r
    ]
  ]

  pub force_resolve : ℕ → Text → DnsResolver IpNet → List IpNet × DnsResolver IpNet
  force_resolve now hostname r = refresh_locked now hostname r

-- The reasons of `hostname_rejection`.
pub data Rejection : Type 0 where
  empty too_long address_syntax bad_edges malformed_ipv4 bad_characters : Rejection

abbrev pub last_is : (ℕ → Bool) → ℕ → Text → Bool
last_is p d [] = p d
last_is p d (e ∷ s) = last_is p e s

-- `bytes.first().zip(bytes.last()).is_some_and(…)` with one test for both.
abbrev pub first_and_last : (ℕ → Bool) → Text → Bool
first_and_last p [] = false
first_and_last p (c ∷ s) = p c && last_is p c s

abbrev pub is_hostname_char : ℕ → Bool
is_hostname_char c = is_ascii_alphanumeric c || c == b'-' || c == b'.' || c == b'_'

pub hostname_rejection : Text → Option Rejection
hostname_rejection entry =
    if is_empty entry
    then some empty
    else if ltb 253 (length entry)
    then some too_long
    else if any (λ c. c == b'/' || c == b':') entry
    then some address_syntax
    else if not (first_and_last is_ascii_alphanumeric entry)
    then some bad_edges
    else if all (λ c. is_ascii_digit c || c == b'.') entry
    then some malformed_ipv4
    else if not (all is_hostname_char entry)
    then some bad_characters
    else none
