-- ===== src/Config/Proxies.antt =====
-- What `TRUSTED_PROXIES` admits.
use simply_ip_exporter.Prelude.{
  List, [], ◌∷◌, map, ◌≡◌, refl, ◌⊎◌, inl, inr, Option-cases, is_empty, if◌then◌else◌,
}
use simply_ip_exporter.Prelude.Result.{Result, ok, err, ◌>>=◌}
use simply_ip_exporter.Prelude.Net.{IpNets}
use simply_ip_exporter.Prelude.Text.{Text, entries_of}
use simply_ip_exporter.Dns.{hostname_rejection}
use simply_ip_exporter.BoundIps.{
  BoundIpEntry, network_entry, hostname_entry, InvalidEntry, parse_entry, parse_entries,
  parse_bound_ips,
}
use simply_ip_exporter.Config.{
  ProxyMatcher, network_matcher, hostname_matcher, InvalidProxyEntry, collect_proxies,
  parse_trusted_proxies,
}

abbrev pub as_matcher : {IpNet : Type 0} → BoundIpEntry IpNet → ProxyMatcher IpNet
as_matcher (network_entry net) = network_matcher net
as_matcher (hostname_entry name) = hostname_matcher name

abbrev pub as_invalid : InvalidEntry → InvalidProxyEntry
as_invalid i = record { entry = i.entry; reason = i.reason }

-- The two parsers agree: the same entries, or the same first bad entry.
abbrev pub Agree :
    {IpNet : Type 0}
    → Result InvalidEntry (List (BoundIpEntry IpNet))
    → Result (List InvalidProxyEntry) (List (ProxyMatcher IpNet))
    → Type 0
Agree (ok entries) r = r ≡ ok (map as_matcher entries)
Agree (err i) r = (rest : List InvalidProxyEntry) × (r ≡ err (as_invalid i ∷ rest))

module _ (nets : IpNets) where
  open nets use {IpNet, parse_net, parse_addr, from_addr}

  verdict :
      List (ProxyMatcher IpNet) × List InvalidProxyEntry
      → Result (List InvalidProxyEntry) (List (ProxyMatcher IpNet))
  verdict r = if is_empty r.1 then ok r.0 else err r.1

  -- One more good entry.
  Agree-ok :
      (e : BoundIpEntry IpNet) (m : Result InvalidEntry (List (BoundIpEntry IpNet)))
      (r : List (ProxyMatcher IpNet) × List InvalidProxyEntry)
      → Agree m (verdict r)
      → Agree (m >>= λ entries. ok (e ∷ entries)) (verdict (as_matcher e ∷ r.0, r.1))
  unfolding verdict
  Agree-ok e (ok entries) (ms, []) h = let h' : ms ≡ map as_matcher entries = cc in rw h'
  Agree-ok e (ok entries) (ms, i ∷ is) h = absurd cc
  Agree-ok e (err i) (ms, []) (rest, h) = absurd cc
  Agree-ok e (err i) (ms, j ∷ is) h = h

  -- How an entry is read, by both parsers.
  entry_agrees :
      (e : Text) (es : List Text)
      → ((b : BoundIpEntry IpNet) × (parse_entry nets e ≡ ok b)
          × (collect_proxies nets (e ∷ es)
              ≡ (as_matcher b ∷ (collect_proxies nets es).0, (collect_proxies nets es).1)))
        ⊎ ((i : InvalidEntry) × (parse_entry nets e ≡ err i)
            × (collect_proxies nets (e ∷ es)
                ≡ ((collect_proxies nets es).0, as_invalid i ∷ (collect_proxies nets es).1)))
  unfolding parse_entry collect_proxies
  entry_agrees e es = elim (Option-cases (parse_net e)) [
    | inr (net, p) ↦ inl (network_entry net, rw (p, parse_entry), rw (p, collect_proxies))
    | inl p ↦ elim (Option-cases (parse_addr e)) [
      | inr (addr, q) ↦ inl (
        network_entry (from_addr addr),
        rw (p, parse_entry) (rw (q, parse_entry)),
        rw (p, collect_proxies) (rw (q, collect_proxies)),
      )
      | inl q ↦ elim (Option-cases (hostname_rejection e)) [
        | inl r ↦ inl (
          hostname_entry e,
          rw (p, parse_entry) (rw (q, parse_entry) (rw r)),
          rw (p, collect_proxies) (rw (q, collect_proxies) (rw r)),
        )
        | inr (reason, r) ↦ inr (
          record { entry = e; reason = reason },
          rw (p, parse_entry) (rw (q, parse_entry) (rw r)),
          rw (p, collect_proxies) (rw (q, collect_proxies) (rw r)),
        )
      ]
    ]
  ]

  entries-Agree :
      (es : List Text) → Agree (parse_entries nets es) (verdict (collect_proxies nets es))
  unfolding parse_entries
  entries-Agree [] = unfold verdict collect_proxies in refl
  entries-Agree (e ∷ es) = elim (entry_agrees e es) [
    | inl (b, p, q) ↦
        rw p
          (rw q (Agree-ok b (parse_entries nets es) (collect_proxies nets es) (entries-Agree es)))
    | inr (i, p, q) ↦ rw p (rw q (unfold verdict in ((collect_proxies nets es).1, refl)))
  ]

  -- `parse_trusted_proxies` and `parse_bound_ips` accept the same texts, with the same entries in the
  -- same order; a text that they refuse has the same first bad entry, for the same reason.
  pub parse_trusted_proxies-parse_bound_ips :
      (raw : Text) → Agree (parse_bound_ips nets raw) (parse_trusted_proxies nets raw)
  unfolding parse_bound_ips parse_trusted_proxies verdict
  parse_trusted_proxies-parse_bound_ips raw = entries-Agree (entries_of raw)
