-- ===== src/BoundIps.antt =====
-- src/bound_ips.rs: the `bound_ips` lists of keys and endpoints.
pub mod Enforcement
use simply_ip_exporter.Prelude.{ℕ, Bool, true, false, Option, none, some, List, [], ◌∷◌, any}
use simply_ip_exporter.Prelude.HashMap.{get}
use simply_ip_exporter.Prelude.Result.{Result, ok, err, ◌>>=◌}
use simply_ip_exporter.Prelude.Net.{IpAddr, IpNets}
use simply_ip_exporter.Prelude.Text.{Text, entries_of}
use simply_ip_exporter.Dns.{DnsResolver, Rejection, resolve, hostname_rejection}

pub data BoundIpEntry (IpNet : Type 0) : Type 0 where
  network_entry : IpNet → BoundIpEntry IpNet
  hostname_entry : Text → BoundIpEntry IpNet

-- The first bad entry and the reason that the message gives.
pub record InvalidEntry : Type 0 where
  pub entry : Text
  pub reason : Rejection

module _ (nets : IpNets) where
  open nets use {IpNet, parse_net, parse_addr, from_addr, contains}

  -- The body of the loop: one entry as a network, an address or a host name.
  unfoldable pub parse_entry : Text → Result InvalidEntry (BoundIpEntry IpNet)
  parse_entry entry = elim (parse_net entry) [
    | some net ↦ ok (network_entry net)
    | none ↦ elim (parse_addr entry) [
      | some addr ↦ ok (network_entry (from_addr addr))
      | none ↦ elim (hostname_rejection entry) [
        | none ↦ ok (hostname_entry entry)
        | some reason ↦ err (record { entry = entry; reason = reason })
      ]
    ]
  ]

  -- The loop, which ends at the first bad entry.
  unfoldable pub parse_entries : List Text → Result InvalidEntry (List (BoundIpEntry IpNet))
  parse_entries [] = ok []
  parse_entries (e ∷ es) =
      parse_entry e >>= λ entry. parse_entries es >>= λ entries. ok (entry ∷ entries)

  unfoldable pub parse_bound_ips : Text → Result InvalidEntry (List (BoundIpEntry IpNet))
  parse_bound_ips raw = parse_entries (entries_of raw)

  unfoldable pub validate_bound_ips : Text → Result InvalidEntry (Unit {0})
  validate_bound_ips raw = parse_bound_ips raw >>= λ entries. ok tt

  module _ (lookup_host : Text → Option (List IpAddr)) where
    -- The shared resolver is passed on; the loop ends at the first match.
    pub is_allowed :
        ℕ → List (BoundIpEntry IpNet) → IpAddr → DnsResolver IpNet → Bool × DnsResolver IpNet
    is_allowed now [] client_ip dns = (false, dns)
    is_allowed now (network_entry net ∷ es) client_ip dns = elim (contains net client_ip) [
      | true ↦ (true, dns)
      | false ↦ is_allowed now es client_ip dns
    ]
    is_allowed now (hostname_entry name ∷ es) client_ip dns =
        let r = resolve nets lookup_host now name dns in
        elim (any (λ net. contains net client_ip) r.0) [
          | true ↦ (true, r.1)
          | false ↦ is_allowed now es client_ip r.1
        ]
