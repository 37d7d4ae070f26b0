-- ===== src/IpFilter.antt =====
-- src/ipfilter.rs: what leaves a feed, and its aggregation.
pub mod Published
use simply_ip_exporter.Prelude.{
  Bool, not, ◌&&◌, ◌||◌, Option, none, some, List, [], ◌∷◌, any, filter,
}
use simply_ip_exporter.Prelude.Net.{IpAddr, IpNets}
use simply_ip_exporter.Prelude.Text.{Text, codes}

abbrev pub rfc1918_literals : List Text
rfc1918_literals = codes "10.0.0.0/8" ∷ codes "172.16.0.0/12" ∷ codes "192.168.0.0/16" ∷ []

abbrev pub loopback_literals : List Text
loopback_literals = codes "127.0.0.0/8" ∷ codes "::1/128" ∷ []

abbrev pub bogon_literals : List Text
bogon_literals =
    codes "0.0.0.0/8"
    ∷ codes "100.64.0.0/10"
    ∷ codes "169.254.0.0/16"
    ∷ codes "192.0.0.0/24"
    ∷ codes "192.0.2.0/24"
    ∷ codes "192.88.99.0/24"
    ∷ codes "198.18.0.0/15"
    ∷ codes "198.51.100.0/24"
    ∷ codes "203.0.113.0/24"
    ∷ codes "224.0.0.0/4"
    ∷ codes "240.0.0.0/4"
    ∷ codes "255.255.255.255/32"
    ∷ codes "::/128"
    ∷ codes "::ffff:0:0/96"
    ∷ codes "100::/64"
    ∷ codes "2001:db8::/32"
    ∷ codes "fc00::/7"
    ∷ codes "fe80::/10"
    ∷ codes "ff00::/8"
    ∷ []

module _ (ipnets : IpNets) where
  open ipnets use {IpNet, parse_net, contains, network, aggregate}

  -- Literals that do not parse are left out.
  unfoldable pub nets : List Text → List IpNet
  nets [] = []
  nets (s ∷ raw) = elim (parse_net s) [ some net ↦ net ∷ nets raw | none ↦ nets raw ]

  unfoldable pub rfc1918 : List IpNet
  rfc1918 = nets rfc1918_literals

  pub loopback : List IpNet
  loopback = nets loopback_literals

  pub bogons : List IpNet
  bogons = nets bogon_literals

  unfoldable pub overlaps_any : IpNet → List IpNet → Bool
  overlaps_any candidate excluded =
      any (λ ex. contains ex (network candidate) || contains candidate (network ex)) excluded

  unfoldable pub filter_and_aggregate : List IpNet → Bool → Bool → Bool → List IpNet
  filter_and_aggregate networks filter_rfc1918 filter_bogons filter_loopback =
      let filtered =
        filter (λ net. not filter_loopback || not (overlaps_any net loopback))
          (filter (λ net. not filter_bogons || not (overlaps_any net bogons))
            (filter (λ net. not filter_rfc1918 || not (overlaps_any net rfc1918)) networks)) in
      aggregate filtered
