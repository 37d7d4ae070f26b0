-- ===== src/Cache/Window.antt =====
-- The retention window, and the clock of the full passes.
use simply_ip_exporter.Prelude.{
  ℕ, ◌+◌, ◌-◌, ◌≡◌, ◌⊎◌, refl, ap, true, Option, none, some, List, [], ◌∷◌, map, filter, arith, leb,
  ite, ℕ_discrete, inl, inr, if◌then◌else◌, Option-cases, Bool-cases,
}
use simply_ip_exporter.Prelude.HashMap.{values, get, get-insert_self, get-insert}
use simply_ip_exporter.Prelude.Net.{IpNets, from_secs}
use simply_ip_exporter.Prelude.Int.{ℤ, abs, is_nonpositive}
use simply_ip_exporter.Cache.{
  CachedRecord, IpCache, VaultRecord, entry, snapshot_within, full_sync_due, apply_full, apply_diff,
  full_loop, diff_loop,
}

-- The records that an endpoint with window `w` publishes at `now`: all of them, or those seen at
-- most `w` seconds ago.
abbrev pub fresh : {IpNet : Type 0} → ℤ → ℕ → List (CachedRecord IpNet) → List (CachedRecord IpNet)
fresh w now =
    filter (λ r. if is_nonpositive w then true else leb now (r.last_seen_at + from_secs (abs w)))

-- The subtraction of the window does not panic, or is not made.
abbrev pub Computes : (ℕ → ℕ → Option ℕ) → ℤ → ℕ → Type 0
Computes sub_seconds w now =
    (is_nonpositive w ≡ true) ⊎ ((c : ℕ) × (sub_seconds now (abs w) ≡ some c))

module _ {IpNet : Type 0} where
  filter-cutoff :
      (w cutoff now : ℕ) (rs : List (CachedRecord IpNet))
      → cutoff + from_secs w ≡ now
      → filter (λ r. leb cutoff r.last_seen_at) rs
        ≡ filter (λ r. leb now (r.last_seen_at + from_secs w)) rs
  filter-cutoff w cutoff now [] e = refl
  filter-cutoff w cutoff now (r ∷ rs) e = ground (arith, filter-cutoff w cutoff now rs e)

  filter-all : (rs : List (CachedRecord IpNet)) → filter (λ _. true) rs ≡ rs
  filter-all [] = refl
  filter-all (r ∷ rs) = ap (◌∷◌ r) (filter-all rs)

  -- Where the date subtraction gives the moment that many seconds earlier and does not panic, a
  -- snapshot holds exactly the records of the endpoint inside its window: all for a window that
  -- is not positive, else those seen at most that many seconds before `now`. The cache itself is
  -- not an output: the window is a view.
  pub snapshot_within_lem :
      (sub_seconds : ℕ → ℕ → Option ℕ)
      → ((now s c : ℕ) → sub_seconds now s ≡ some c → c + from_secs s ≡ now)
      → (id : ℕ) (w : ℤ) (now : ℕ) (cache : IpCache IpNet) → Computes sub_seconds w now
      → snapshot_within sub_seconds id w now cache
        ≡ some (map (λ r. r.network) (fresh w now (values (entry id cache).records)))
  unfolding snapshot_within entry
  snapshot_within_lem sub_seconds earlier id w now cache (inl forever) =
      elim (Option-cases (get ℕ_discrete id cache)) [
        | inl e ↦ rw (e, snapshot_within, entry)
        | inr (c, e) ↦
            rw (e, snapshot_within, entry) (rw forever (rw (filter-all (values c.records))))
      ]
  snapshot_within_lem sub_seconds earlier id w now cache (inr (cutoff, h)) =
      elim (Option-cases (get ℕ_discrete id cache)) [
        | inl e ↦ rw (e, snapshot_within, entry)
        | inr (c, e) ↦
            rw (e, snapshot_within, entry)
              (elim (Bool-cases (is_nonpositive w)) [
                | inl forever ↦ rw forever (rw (filter-all (values c.records)))
                | inr finite ↦
                    rw (finite, h)
                      (ap (λ rs. some (map (λ (r : CachedRecord IpNet). r.network) rs))
                        (filter-cutoff (abs w) cutoff now (values c.records)
                          (earlier now (abs w) cutoff h)))
              ])
      ]

-- Right after a full pass at `at`, the next one is due exactly when the interval has elapsed.
pub full_sync_due-apply_full :
    (nets : IpNets) (at now id interval : ℕ) (batch : List VaultRecord) (cache : IpCache nets.IpNet)
    → full_sync_due now id interval (apply_full nets at id batch cache) ≡ leb interval (now - at)
unfolding full_sync_due apply_full
full_sync_due-apply_full nets at now id interval batch cache =
    rw (get-insert_self ℕ_discrete id _ cache, full_sync_due)

-- The moment of the last full pass over an endpoint.
pub last_full : {IpNet : Type 0} → ℕ → IpCache IpNet → Option ℕ
last_full id cache = elim (get ℕ_discrete id cache) [ none ↦ none | some e ↦ e.last_full_sync_at ]

pub full_sync_due-last_full :
    {IpNet : Type 0} (now id interval : ℕ) (cache : IpCache IpNet)
    → full_sync_due now id interval cache
      ≡ elim (last_full id cache) [ none ↦ true | some at ↦ leb interval (now - at) ]
unfolding full_sync_due last_full
full_sync_due-last_full now id interval cache = ground arith

pub last_full-apply_full :
    (nets : IpNets) (at id j : ℕ) (batch : List VaultRecord) (cache : IpCache nets.IpNet)
    → last_full j (apply_full nets at id batch cache)
      ≡ ite (ℕ_discrete id j) (some at) (last_full j cache)
unfolding last_full apply_full
last_full-apply_full nets at id j batch cache =
    let done = full_loop nets batch ([], (entry id cache).last_synced_at) in
    ground (
      arith,
      get-insert ℕ_discrete id j
          (record { records = done.0; last_synced_at = done.1; last_full_sync_at = some at }) cache,
    )

pub last_full-apply_diff :
    (nets : IpNets) (id j : ℕ) (batch : List VaultRecord) (cache : IpCache nets.IpNet)
    → last_full j (apply_diff nets id batch cache) ≡ last_full j cache
unfolding last_full apply_diff entry
last_full-apply_diff nets id j batch cache =
    let old = entry id cache in
    let done = diff_loop nets batch (old.records, old.last_synced_at) in
    ground (
      arith,
      get-insert ℕ_discrete id j (record old { records = done.0; last_synced_at = done.1 }) cache,
    )

pub last_full-nil :
    {IpNet : Type 0} (id : ℕ) (cache : IpCache IpNet) → cache ≡ [] → last_full id cache ≡ none
unfolding last_full get
last_full-nil id cache e = rw e
