-- ===== src/IpFilter/Published.antt =====
-- Which addresses a feed can publish.
use simply_ip_exporter.Prelude.{
  ◌≡◌, refl, ◌∙◌, inl, inr, Bool, true, false, not, ◌&&◌, ◌||◌, List, [], ◌∷◌, any, filter,
  Bool-cases, arith,
}
use simply_ip_exporter.Prelude.Net.{IpAddr, IpNets}
use simply_ip_exporter.IpFilter.{rfc1918, loopback, bogons, overlaps_any, filter_and_aggregate}

-- What the code relies on: two blocks that share an address are nested, so that one of them holds the
-- other's network address; and `aggregate` keeps the set of addresses.
abbrev pub Nested : IpNets → Type 0
Nested n =
    (a b : n.IpNet) (ip : IpAddr)
    → n.contains a ip ≡ true
    → n.contains b ip ≡ true
    → (n.contains a (n.network b) || n.contains b (n.network a)) ≡ true

abbrev pub Aggregates : IpNets → Type 0
Aggregates n =
    (networks : List n.IpNet) (ip : IpAddr)
    → any (λ net. n.contains net ip) (n.aggregate networks)
      ≡ any (λ net. n.contains net ip) networks

-- `ip` lies in a range that an enabled filter names.
unfoldable pub is_excluded : (n : IpNets) → Bool → Bool → Bool → IpAddr → Bool
is_excluded n filter_rfc1918 filter_bogons filter_loopback ip =
    filter_rfc1918 && any (λ net. n.contains net ip) (rfc1918 n)
    || filter_bogons && any (λ net. n.contains net ip) (bogons n)
    || filter_loopback && any (λ net. n.contains net ip) (loopback n)

module _ (ipnets : IpNets) where
  open ipnets use {IpNet, contains, network, aggregate}

  -- `net` passes the three filters.
  pub passes : Bool → Bool → Bool → IpNet → Bool
  passes filter_rfc1918 filter_bogons filter_loopback net =
      (not filter_rfc1918 || not (overlaps_any ipnets net (rfc1918 ipnets)))
      && (not filter_bogons || not (overlaps_any ipnets net (bogons ipnets)))
      && (not filter_loopback || not (overlaps_any ipnets net (loopback ipnets)))

  any-filter :
      (p q : IpNet → Bool) (nets : List IpNet)
      → any q (filter p nets) ≡ any (λ net. p net && q net) nets
  any-filter p q [] = refl
  any-filter p q (x ∷ nets) = elim (Bool-cases (p x)) [
    | inl h ↦ rw h (rw (any-filter p q nets))
    | inr h ↦ rw h (any-filter p q nets)
  ]

  any-ext :
      (p q : IpNet → Bool)
      → ((x : IpNet) → p x ≡ q x)
      → (nets : List IpNet) → any p nets ≡ any q nets
  any-ext p q h [] = refl
  any-ext p q h (x ∷ nets) = rw (h x) (rw (any-ext p q h nets))

  and_assoc₃ : (a b c d : Bool) → (a && (b && (c && d))) ≡ ((a && b && c) && d)
  and_assoc₃ a b c d = ground arith

  -- An address is published exactly when a network that holds it overlaps no range of an enabled filter.
  pub filter_and_aggregate_lem :
      Aggregates ipnets
      → (networks : List IpNet) (f₁ f₂ f₃ : Bool) (ip : IpAddr)
      → any (λ net. contains net ip) (filter_and_aggregate ipnets networks f₁ f₂ f₃)
        ≡ any (λ net. passes f₁ f₂ f₃ net && contains net ip) networks
  unfolding filter_and_aggregate passes
  filter_and_aggregate_lem agg networks f₁ f₂ f₃ ip =
      let q : IpNet → Bool = λ net. contains net ip in
      let p₁ : IpNet → Bool = λ net. not f₁ || not (overlaps_any ipnets net (rfc1918 ipnets)) in
      let p₂ : IpNet → Bool = λ net. not f₂ || not (overlaps_any ipnets net (bogons ipnets)) in
      let p₃ : IpNet → Bool = λ net. not f₃ || not (overlaps_any ipnets net (loopback ipnets)) in
      agg (filter p₃ (filter p₂ (filter p₁ networks))) ip
      ∙ any-filter p₃ q (filter p₂ (filter p₁ networks))
      ∙ any-filter p₂ (λ net. p₃ net && q net) (filter p₁ networks)
      ∙ any-filter p₁ (λ net. p₂ net && (p₃ net && q net)) networks
      ∙ any-ext (λ net. p₁ net && (p₂ net && (p₃ net && q net)))
          (λ net. passes f₁ f₂ f₃ net && q net)
          (λ net. and_assoc₃ (p₁ net) (p₂ net) (p₃ net) (q net)) networks

  overlap :
      Nested ipnets
      → (net : IpNet) (ip : IpAddr) (ranges : List IpNet) → contains net ip ≡ true
      → any (λ ex. contains ex ip) ranges ≡ true
      → overlaps_any ipnets net ranges ≡ true
  unfolding overlaps_any
  overlap nested net ip [] h r = cc
  overlap nested net ip (ex ∷ ranges) h r = elim (Bool-cases (contains ex ip)) [
    | inl p ↦ rw (nested ex net ip p h)
    | inr p ↦ ground (arith, overlap nested net ip ranges h (rw p at r))
  ]

  and_false : (a : Bool) → (a && false || false) ≡ false
  and_false true = refl
  and_false false = refl

  not_passed :
      Nested ipnets
      → (f₁ f₂ f₃ : Bool) (ip : IpAddr) (net : IpNet) → contains net ip ≡ true
      → is_excluded ipnets f₁ f₂ f₃ ip ≡ true
      → passes f₁ f₂ f₃ net ≡ false
  unfolding is_excluded passes
  not_passed nested f₁ f₂ f₃ ip net c h = ground (
    arith,
    overlap nested net ip (rfc1918 ipnets) c,
    overlap nested net ip (bogons ipnets) c,
    overlap nested net ip (loopback ipnets) c,
  )

  -- A network that passes the filters holds no excluded address.
  passes_safe :
      Nested ipnets
      → (f₁ f₂ f₃ : Bool) (ip : IpAddr) (networks : List IpNet)
      → is_excluded ipnets f₁ f₂ f₃ ip ≡ true
      → any (λ net. passes f₁ f₂ f₃ net && contains net ip) networks ≡ false
  passes_safe nested f₁ f₂ f₃ ip [] h = refl
  passes_safe nested f₁ f₂ f₃ ip (net ∷ networks) h =
      rw (passes_safe nested f₁ f₂ f₃ ip networks h) (elim (Bool-cases (contains net ip)) [
        | inl c ↦ rw c (rw (not_passed nested f₁ f₂ f₃ ip net c h))
        | inr c ↦ rw c (and_false (passes f₁ f₂ f₃ net))
      ])

  -- No address of a range that an enabled filter names is ever published.
  pub filter_and_aggregate_safe :
      Nested ipnets
      → Aggregates ipnets
      → (networks : List IpNet) (f₁ f₂ f₃ : Bool) (ip : IpAddr)
      → is_excluded ipnets f₁ f₂ f₃ ip ≡ true
      → any (λ net. contains net ip) (filter_and_aggregate ipnets networks f₁ f₂ f₃) ≡ false
  filter_and_aggregate_safe nested agg networks f₁ f₂ f₃ ip h =
      filter_and_aggregate_lem agg networks f₁ f₂ f₃ ip ∙ passes_safe nested f₁ f₂ f₃ ip networks h
