-- ===== src/Config/ClientIp.antt =====
-- Whom the forwarding headers can impersonate.
use simply_ip_exporter.Prelude.{
  true, false, Option, none, some, List, [], ◌∷◌, ◌++◌, ◌≡◌, refl, ap, ◌∙◌, ◌⊎◌, inl, inr,
  Bool-cases, Option-cases, if◌then◌else◌, All,
}
use simply_ip_exporter.Prelude.Net.{IpNets, IpAddr}
use simply_ip_exporter.Prelude.Text.{Text, entries_of, entries_of-append}
use simply_ip_exporter.Dns.{normalize_ip}
use simply_ip_exporter.Config.{
  HeaderMap, is_trusted, addresses_in, find_last_untrusted, forwarded_client, real_ip_client,
  resolve_client_ip,
}

module _ (nets : IpNets) where
  open nets use {IpNet, parse_addr}

  addresses_in-append :
      (a b : List Text) → addresses_in nets (a ++ b) ≡ addresses_in nets a ++ addresses_in nets b
  unfolding addresses_in
  addresses_in-append [] b = refl
  addresses_in-append (s ∷ a) b = elim (Option-cases (parse_addr s)) [
    | inl p ↦ rw (p, addresses_in) (addresses_in-append a b)
    | inr (ip, p) ↦ rw (p, addresses_in) (ap (◌∷◌ (normalize_ip ip)) (addresses_in-append a b))
  ]

  module _ (trusted : List IpNet) where
    -- Addresses in front of the client that is found do not change it.
    find_last_untrusted-append :
        (a b : List IpAddr) (c : IpAddr)
        → find_last_untrusted nets trusted b ≡ some c
        → find_last_untrusted nets trusted (a ++ b) ≡ some c
    unfolding find_last_untrusted
    find_last_untrusted-append [] b c h = h
    find_last_untrusted-append (x ∷ a) b c h =
        rw (find_last_untrusted-append a b c h, find_last_untrusted) refl

    -- `c` is the last untrusted address of the list.
    pub record IsLastUntrusted (c : IpAddr) (ips : List IpAddr) : Type 0 where
      pub before : List IpAddr
      pub after : List IpAddr
      pub split_at : ips ≡ before ++ c ∷ after
      pub untrusted : is_trusted nets c trusted ≡ false
      pub hops : All (λ ip. is_trusted nets ip trusted ≡ true) after

    none→trusted :
        (ips : List IpAddr)
        → find_last_untrusted nets trusted ips ≡ none
        → All (λ ip. is_trusted nets ip trusted ≡ true) ips
    unfolding find_last_untrusted
    none→trusted [] h = tt
    none→trusted (ip ∷ ips) h = elim (Option-cases (find_last_untrusted nets trusted ips)) [
      | inr (d, p) ↦ absurd (let h' : some d ≡ none = rw (p, find_last_untrusted) at h in cc)
      | inl p ↦ elim (Bool-cases (is_trusted nets ip trusted)) [
        | inl q ↦ (q, none→trusted ips p)
        | inr q ↦ absurd (
            let h' : some ip ≡ none =
              rw (q, find_last_untrusted) at (rw (p, find_last_untrusted) at h) in
            cc)
      ]
    ]

    find_last_untrusted_lem :
        (ips : List IpAddr) (c : IpAddr)
        → find_last_untrusted nets trusted ips ≡ some c
        → IsLastUntrusted c ips
    unfolding find_last_untrusted
    find_last_untrusted_lem [] c h = cc
    find_last_untrusted_lem (ip ∷ ips) c h =
        elim (Option-cases (find_last_untrusted nets trusted ips)) [
          | inr (d, p) ↦
              let h' : some d ≡ some c = rw (p, find_last_untrusted) at h in
              let rest = find_last_untrusted_lem ips c (p ∙ h') in
              record {
                before = ip ∷ rest.before;
                after = rest.after;
                split_at = ap (◌∷◌ ip) rest.split_at;
                untrusted = rest.untrusted;
                hops = rest.hops;
              }
          | inl p ↦
              let h₁ : (if is_trusted nets ip trusted then none else some ip) ≡ some c =
                rw (p, find_last_untrusted) at h in
              elim (Bool-cases (is_trusted nets ip trusted)) [
                | inl q ↦ absurd (let h' : none ≡ some c = rw q at h₁ in cc)
                | inr q ↦
                    let h' : some ip ≡ some c = rw q at h₁ in
                    let e : ip ≡ c = cc in
                    record {
                      before = [];
                      after = ips;
                      split_at = ap (λ x. x ∷ ips) e;
                      untrusted = rw (← e) q;
                      hops = none→trusted ips p;
                    }
              ]
        ]

    -- The client of an `X-Forwarded-For` header whose first line is text is the last address of that
    -- line that is no trusted proxy: every address behind it is a trusted one.
    pub forwarded_client_lem :
        (forwarded : Text) (lines : List (Option Text)) (c : IpAddr)
        → forwarded_client nets (some forwarded ∷ lines) trusted ≡ some c
        → IsLastUntrusted c (addresses_in nets (entries_of forwarded))
    unfolding forwarded_client
    forwarded_client_lem forwarded lines c h =
        find_last_untrusted_lem (addresses_in nets (entries_of forwarded)) c h

    forwarded_client-append :
        (forged forwarded : Text) (lines lines' : List (Option Text)) (c : IpAddr)
        → forwarded_client nets (some forwarded ∷ lines) trusted ≡ some c
        → forwarded_client nets (some (forged ++ b',' ∷ forwarded) ∷ lines') trusted ≡ some c
    unfolding forwarded_client
    forwarded_client-append forged forwarded lines lines' c h =
        rw (entries_of-append forged forwarded) (
          rw (addresses_in-append (entries_of forged) (entries_of forwarded)) (
            find_last_untrusted-append (addresses_in nets (entries_of forged))
              (addresses_in nets (entries_of forwarded)) c h))

    -- Where the first line of `X-Forwarded-For` is text and the part of it that the proxies wrote, at its
    -- end, holds an untrusted address, nothing that stands in front of that part, no further line of the
    -- header and no `X-Real-IP` changes the address that a peer is taken for. A line that is not visible
    -- ASCII, or one that a client sent as a line of its own in front, lies outside this.
    pub resolve_client_ip-forged :
        (peer c : IpAddr) (forged forwarded : Text)
        (lines lines' real_ip real_ip' : List (Option Text))
        → forwarded_client nets (some forwarded ∷ lines) trusted ≡ some c
        → resolve_client_ip nets peer
            (record {
              x_forwarded_for = some (forged ++ b',' ∷ forwarded) ∷ lines';
              x_real_ip = real_ip;
            })
            trusted
          ≡ resolve_client_ip nets peer
              (record { x_forwarded_for = some forwarded ∷ lines; x_real_ip = real_ip' })
              trusted
    unfolding resolve_client_ip
    resolve_client_ip-forged peer c forged forwarded lines lines' real_ip real_ip' h =
        rw (forwarded_client-append forged forwarded lines lines' c h) (rw h)

    -- Behind a trusted peer, a first line that is not visible ASCII leaves the choice to `X-Real-IP`.
    pub resolve_client_ip-unreadable :
        (peer ip : IpAddr) (lines real_ip : List (Option Text))
        → is_trusted nets (normalize_ip peer) trusted ≡ true
        → real_ip_client nets real_ip ≡ some ip
        → resolve_client_ip nets peer
            (record { x_forwarded_for = none ∷ lines; x_real_ip = real_ip })
            trusted
          ≡ ip
    unfolding resolve_client_ip forwarded_client
    resolve_client_ip-unreadable peer ip lines real_ip t r = rw t (rw r)

    -- A peer that is no trusted proxy is taken for itself, whatever its headers say, and a trusted one is
    -- taken for itself only when its headers name nobody else.
    pub resolve_client_ip_peer :
        (peer : IpAddr) (headers : HeaderMap)
        → (is_trusted nets (normalize_ip peer) trusted ≡ false)
          ⊎ ((forwarded_client nets headers.x_forwarded_for trusted ≡ none)
              × (real_ip_client nets headers.x_real_ip ≡ none))
        → resolve_client_ip nets peer headers trusted ≡ normalize_ip peer
    unfolding resolve_client_ip
    resolve_client_ip_peer peer headers h = elim h [
      | inl p ↦ rw p
      | inr (f, r) ↦ elim (Bool-cases (is_trusted nets (normalize_ip peer) trusted)) [
        | inl p ↦ rw p (rw f (rw r))
        | inr p ↦ rw p
      ]
    ]
