-- ===== src/Cache/Sync.antt =====
-- What a full and a differential pass leave in the cache, address by address.
use simply_ip_exporter.Prelude.{
  ℕ, ◌≤◌, ◌≡◌, refl, ◌∙◌, Option, none, some, List, [], ◌∷◌, All, arith, ite, ℕ_discrete, inl, inr,
  Option-cases, if◌then◌else◌, ap,
}
use simply_ip_exporter.Prelude.HashMap.{
  HashMap, get, insert, get-insert, get-remove, get-insert_self,
}
use simply_ip_exporter.Prelude.Net.{IpNets}
use simply_ip_exporter.Prelude.Text.{Text, Text-discrete}
use simply_ip_exporter.Cache.{
  VaultRecord, CachedRecord, EndpointCache, IpCache, entry, max_seen, parse_target_address,
  full_step, full_loop, apply_full, diff_step, diff_loop, apply_diff,
}

-- The cursor has reached the moment `t`.
abbrev pub Reached : ℕ → Option ℕ → Type 0
Reached t none = ⊥
Reached t (some m) = t ≤ m

-- The cursor `b` is not behind the cursor `a`.
abbrev pub NotBehind : Option ℕ → Option ℕ → Type 0
NotBehind none b = Unit
NotBehind (some t) b = Reached t b

NotBehind-max_seen : (a b : Option ℕ) (t : ℕ) → NotBehind a b → NotBehind a (max_seen b t)
NotBehind-max_seen none b t h = tt
NotBehind-max_seen (some m) none t h = absurd h
NotBehind-max_seen (some m) (some n) t h = omega arith

NotBehind-refl : (a : Option ℕ) → NotBehind a a
NotBehind-refl none = tt
NotBehind-refl (some m) = omega arith

Reached-max_seen : (b : Option ℕ) (t : ℕ) → Reached t (max_seen b t)
Reached-max_seen none t = omega arith
Reached-max_seen (some n) t = omega arith

module _ (nets : IpNets) where
  open nets use {IpNet}

  -- What one record of a full listing says of the address `k`.
  abbrev full_effect :
      Text → VaultRecord → Option (CachedRecord IpNet) → Option (CachedRecord IpNet)
  full_effect k r o =
      ite (Text-discrete r.target_address k)
        (if r.is_deleted then o else elim (parse_target_address nets r.target_address) [
          | none ↦ o
          | some net ↦ some (record { network = net; last_seen_at = r.last_seen_at })
        ])
        o

  -- What one record of a delta says of the address `k`: a tombstone takes it away.
  abbrev diff_effect :
      Text → VaultRecord → Option (CachedRecord IpNet) → Option (CachedRecord IpNet)
  diff_effect k r o =
      ite (Text-discrete r.target_address k)
        (if r.is_deleted then none else elim (parse_target_address nets r.target_address) [
          | none ↦ o
          | some net ↦ some (record { network = net; last_seen_at = r.last_seen_at })
        ])
        o

  -- The record that a full listing makes live for one address: the last that is not a tombstone
  -- and whose address parses.
  pub listed : Text → List VaultRecord → Option (CachedRecord IpNet) → Option (CachedRecord IpNet)
  listed k [] o = o
  listed k (r ∷ rs) o = listed k rs (full_effect k r o)

  -- The record that a delta leaves for one address that had `o`.
  pub merged : Text → List VaultRecord → Option (CachedRecord IpNet) → Option (CachedRecord IpNet)
  merged k [] o = o
  merged k (r ∷ rs) o = merged k rs (diff_effect k r o)

  get-full_step :
      (k : Text) (r : VaultRecord) (s : HashMap Text (CachedRecord IpNet) × Option ℕ)
      → get Text-discrete k (full_step nets r s).0 ≡ full_effect k r (get Text-discrete k s.0)
  unfolding full_step
  get-full_step k r s = elim (Option-cases (parse_target_address nets r.target_address)) [
    | inl e ↦ rw (e, full_step) (ground arith)
    | inr (net, e) ↦
        rw (e, full_step)
          (ground (
            arith,
            get-insert Text-discrete r.target_address k
                (record { network = net; last_seen_at = r.last_seen_at }) s.0,
          ))
  ]

  get-full_loop :
      (k : Text) (rs : List VaultRecord) (s : HashMap Text (CachedRecord IpNet) × Option ℕ)
      → get Text-discrete k (full_loop nets rs s).0 ≡ listed k rs (get Text-discrete k s.0)
  unfolding full_loop listed
  get-full_loop k [] s = refl
  get-full_loop k (r ∷ rs) s =
      get-full_loop k rs (full_step nets r s) ∙ ap (listed k rs) (get-full_step k r s)

  get-full_loop_empty :
      (k : Text) (rs : List VaultRecord) (seen : Option ℕ)
      → get Text-discrete k (full_loop nets rs ([], seen)).0 ≡ listed k rs none
  unfolding get
  get-full_loop_empty k rs seen = get-full_loop k rs ([], seen)

  get-diff_step :
      (k : Text) (r : VaultRecord) (s : HashMap Text (CachedRecord IpNet) × Option ℕ)
      → get Text-discrete k (diff_step nets r s).0 ≡ diff_effect k r (get Text-discrete k s.0)
  unfolding diff_step
  get-diff_step k r s = elim (Option-cases (parse_target_address nets r.target_address)) [
    | inl e ↦ rw (e, diff_step) (ground (arith, get-remove Text-discrete r.target_address k s.0))
    | inr (net, e) ↦
        rw (e, diff_step)
          (ground (
            arith,
            get-remove Text-discrete r.target_address k s.0,
            get-insert Text-discrete r.target_address k
                (record { network = net; last_seen_at = r.last_seen_at }) s.0,
          ))
  ]

  get-diff_loop :
      (k : Text) (rs : List VaultRecord) (s : HashMap Text (CachedRecord IpNet) × Option ℕ)
      → get Text-discrete k (diff_loop nets rs s).0 ≡ merged k rs (get Text-discrete k s.0)
  unfolding diff_loop merged
  get-diff_loop k [] s = refl
  get-diff_loop k (r ∷ rs) s =
      get-diff_loop k rs (diff_step nets r s) ∙ ap (merged k rs) (get-diff_step k r s)

  entry-insert :
      (id j : ℕ) (e : EndpointCache IpNet) (cache : IpCache IpNet)
      → entry j (insert ℕ_discrete id e cache) ≡ ite (ℕ_discrete id j) e (entry j cache)
  unfolding entry
  entry-insert id j e cache = ground (arith, get-insert ℕ_discrete id j e cache)

  entry-insert_self :
      (id : ℕ) (e : EndpointCache IpNet) (cache : IpCache IpNet)
      → entry id (insert ℕ_discrete id e cache) ≡ e
  unfolding entry
  entry-insert_self id e cache = rw (get-insert_self ℕ_discrete id e cache, entry)

  -- After a full pass an endpoint has, for every address, exactly what the batch lists: nothing
  -- of its former records is left; and every other endpoint has what it had.
  pub apply_full_lem :
      (now id j : ℕ) (k : Text) (batch : List VaultRecord) (cache : IpCache IpNet)
      → get Text-discrete k (entry j (apply_full nets now id batch cache)).records
        ≡ ite (ℕ_discrete id j) (listed k batch none) (get Text-discrete k (entry j cache).records)
  unfolding apply_full
  apply_full_lem now id j k batch cache =
      let done = full_loop nets batch ([], (entry id cache).last_synced_at) in
      rw
        (entry-insert id j
          (record { records = done.0; last_synced_at = done.1; last_full_sync_at = some now })
          cache)
        (ground (arith, get-full_loop_empty k batch (entry id cache).last_synced_at))

  -- After a differential pass an endpoint has, for every address, what the batch makes of its
  -- former record; and every other endpoint has what it had.
  pub apply_diff_lem :
      (id j : ℕ) (k : Text) (batch : List VaultRecord) (cache : IpCache IpNet)
      → get Text-discrete k (entry j (apply_diff nets id batch cache)).records
        ≡ ite
            (ℕ_discrete id j)
            (merged k batch (get Text-discrete k (entry id cache).records))
            (get Text-discrete k (entry j cache).records)
  unfolding apply_diff
  apply_diff_lem id j k batch cache =
      let old = entry id cache in
      let done = diff_loop nets batch (old.records, old.last_synced_at) in
      rw (entry-insert id j (record old { records = done.0; last_synced_at = done.1 }) cache)
        (ground (arith, get-diff_loop k batch (old.records, old.last_synced_at)))

  seen-diff_step :
      (r : VaultRecord) (s : HashMap Text (CachedRecord IpNet) × Option ℕ)
      → (diff_step nets r s).1 ≡ max_seen s.1 r.last_seen_at
  unfolding diff_step
  seen-diff_step r s = ground arith

  NotBehind-diff_loop :
      (a : Option ℕ) (rs : List VaultRecord) (s : HashMap Text (CachedRecord IpNet) × Option ℕ)
      → NotBehind a s.1
      → NotBehind a (diff_loop nets rs s).1
  unfolding diff_loop
  NotBehind-diff_loop a [] s h = h
  NotBehind-diff_loop a (r ∷ rs) s h =
      NotBehind-diff_loop a rs (diff_step nets r s)
        (rw seen-diff_step (NotBehind-max_seen a s.1 r.last_seen_at h))

  Reached-diff_loop :
      (rs : List VaultRecord) (s : HashMap Text (CachedRecord IpNet) × Option ℕ)
      → All (λ r. Reached r.last_seen_at (diff_loop nets rs s).1) rs
  unfolding diff_loop
  Reached-diff_loop [] s = tt
  Reached-diff_loop (r ∷ rs) s = (
    NotBehind-diff_loop (some r.last_seen_at) rs (diff_step nets r s)
        (rw seen-diff_step (Reached-max_seen s.1 r.last_seen_at)),
    Reached-diff_loop rs (diff_step nets r s),
  )

  -- A differential pass moves the cursor to or past every record of the batch, tombstones
  -- included, and never back.
  pub cursor-apply_diff :
      (id : ℕ) (batch : List VaultRecord) (cache : IpCache IpNet)
      → All
          (λ r. Reached r.last_seen_at (entry id (apply_diff nets id batch cache)).last_synced_at)
          batch
        × NotBehind
            (entry id cache).last_synced_at
            (entry id (apply_diff nets id batch cache)).last_synced_at
  unfolding apply_diff
  cursor-apply_diff id batch cache =
      let old = entry id cache in
      let done = diff_loop nets batch (old.records, old.last_synced_at) in
      rw (entry-insert_self id (record old { records = done.0; last_synced_at = done.1 }) cache) (
        Reached-diff_loop batch (old.records, old.last_synced_at),
        NotBehind-diff_loop old.last_synced_at batch (old.records, old.last_synced_at)
            (NotBehind-refl old.last_synced_at),
      )
