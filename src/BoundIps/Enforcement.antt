-- ===== src/BoundIps/Enforcement.antt =====
-- Which clients a `bound_ips` list admits.
use simply_ip_exporter.Prelude.{
  ℕ, true, false, Option, List, [], ◌∷◌, any, ◌≡◌, ◌⊎◌, inl, inr, Bool-cases, ◌↔◌,
}
use simply_ip_exporter.Prelude.Net.{IpAddr, IpNets}
use simply_ip_exporter.Prelude.Text.{Text}
use simply_ip_exporter.Dns.{DnsResolver, resolve}
use simply_ip_exporter.BoundIps.{BoundIpEntry, network_entry, hostname_entry, is_allowed}

module _ (nets : IpNets) (lookup_host : Text → Option (List IpAddr)) (now : ℕ)
    (client_ip : IpAddr) where
  open nets use {IpNet, contains}

  -- The networks that an entry stands for at the moment, and the resolver after asking for them.
  abbrev pub networks_of : BoundIpEntry IpNet → DnsResolver IpNet → List IpNet × DnsResolver IpNet
  networks_of (network_entry net) dns = (net ∷ [], dns)
  networks_of (hostname_entry name) dns = resolve nets lookup_host now name dns

  -- Some entry matches: each is asked in order, with the resolver that the ones before it left.
  abbrev pub Matches : List (BoundIpEntry IpNet) → DnsResolver IpNet → Type 0
  Matches [] dns = ⊥
  Matches (e ∷ es) dns =
      (any (λ net. contains net client_ip) (networks_of e dns).0 ≡ true)
      ⊎ Matches es (networks_of e dns).1

  allowed→matches :
      (es : List (BoundIpEntry IpNet)) (dns : DnsResolver IpNet)
      → (is_allowed nets lookup_host now es client_ip dns).0 ≡ true
      → Matches es dns
  unfolding is_allowed
  allowed→matches [] dns h = cc
  allowed→matches (network_entry net ∷ es) dns h = elim (Bool-cases (contains net client_ip)) [
    | inl p ↦ inl (rw p)
    | inr p ↦ inr (allowed→matches es dns (rw (p, is_allowed) at h))
  ]
  allowed→matches (hostname_entry name ∷ es) dns h =
      elim (Bool-cases
        (any (λ net. contains net client_ip) (resolve nets lookup_host now name dns).0)) [
          | inl p ↦ inl p
          | inr p ↦ inr (
              allowed→matches es (resolve nets lookup_host now name dns).1
                (rw (p, is_allowed) at h))
        ]

  matches→allowed :
      (es : List (BoundIpEntry IpNet)) (dns : DnsResolver IpNet)
      → Matches es dns
      → (is_allowed nets lookup_host now es client_ip dns).0 ≡ true
  unfolding is_allowed
  matches→allowed [] dns h = absurd h
  matches→allowed (network_entry net ∷ es) dns h = elim (Bool-cases (contains net client_ip)) [
    | inl p ↦ rw (p, is_allowed)
    | inr p ↦ elim h [
      | inl q ↦ absurd (let q' : false ≡ true = rw p at q in cc)
      | inr m ↦ rw (p, is_allowed) (matches→allowed es dns m)
    ]
  ]
  matches→allowed (hostname_entry name ∷ es) dns h =
      elim (Bool-cases
        (any (λ net. contains net client_ip) (resolve nets lookup_host now name dns).0)) [
          | inl p ↦ rw (p, is_allowed)
          | inr p ↦ elim h [
            | inl q ↦ absurd (let q' : false ≡ true = rw p at q in cc)
            | inr m ↦
                rw (p, is_allowed) (matches→allowed es (resolve nets lookup_host now name dns).1 m)
          ]
        ]

  -- A client is admitted exactly when it lies in a network of the list, or in one of the addresses that
  -- a host name of the list resolves to when its turn comes.
  pub is_allowed_iff :
      (es : List (BoundIpEntry IpNet)) (dns : DnsResolver IpNet)
      → ((is_allowed nets lookup_host now es client_ip dns).0 ≡ true) ↔ Matches es dns
  is_allowed_iff es dns = (allowed→matches es dns, matches→allowed es dns)
