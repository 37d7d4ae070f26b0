-- ===== src/Sync/Resilience.antt =====
-- A pass against a failing Vault changes nothing; one against a healthy Vault brings its records.
use simply_ip_exporter.Prelude.{
  ℕ, ◌≡◌, refl, ◌∙◌, Bool, Option, none, List, [], ◌∷◌, arith, inl, inr, Bool-cases, if_pos,
  ℕ_discrete, if◌then◌else◌,
}
use simply_ip_exporter.Prelude.HashMap.{get}
use simply_ip_exporter.Prelude.Net.{IpNets}
use simply_ip_exporter.Prelude.Result.{ok, err}
use simply_ip_exporter.Prelude.Text.{Text, Text-discrete}
use simply_ip_exporter.Cache.{entry, full_sync_due}
use simply_ip_exporter.Cache.Sync.{listed, merged, apply_full_lem, apply_diff_lem}
use simply_ip_exporter.Entities.{Endpoint}
use simply_ip_exporter.VaultClient.{VaultApiRecord, VaultError}
use simply_ip_exporter.Sync.{
  Clock, Fetch, SyncState, full_sync_interval, map_records, mark_synced, diff_due, full_pass,
  diff_pass, sync_endpoint, sync_endpoints, sync_all_endpoints,
}

module _ (nets : IpNets) (clock : Clock) (fetch : Fetch) (refused : ℕ → Bool) where
  open nets use {IpNet}

  sync_endpoint_failed :
      (ep : Endpoint) (s : SyncState IpNet) (e e' : VaultError)
      → fetch ep.vault_groups none ≡ err e
      → fetch ep.vault_groups ep.last_synced_at ≡ err e'
      → sync_endpoint nets clock fetch refused ep s ≡ s
  unfolding sync_endpoint
  sync_endpoint_failed ep s e e' h h' = ground arith

  sync_endpoints_failed :
      ((groups : Text) (since : Option ℕ) → (e : VaultError) × (fetch groups since ≡ err e))
      → (eps : List Endpoint) (s : SyncState IpNet)
      → sync_endpoints nets clock fetch refused eps s ≡ s
  unfolding sync_endpoints
  sync_endpoints_failed down [] s = refl
  sync_endpoints_failed down (ep ∷ eps) s =
      let (e, h) = down ep.vault_groups none in
      let (e', h') = down ep.vault_groups ep.last_synced_at in
      rw (sync_endpoint_failed ep s e e' h h') (sync_endpoints_failed down eps s)

  -- While every fetch from Vault fails, a whole pass leaves the cache and every `last_synced_at`
  -- as they were.
  pub outage_changes_nothing :
      ((groups : Text) (since : Option ℕ) → (e : VaultError) × (fetch groups since ≡ err e))
      → (configured listed : Bool) (s : SyncState IpNet)
      → sync_all_endpoints nets clock fetch refused configured listed s ≡ s
  unfolding sync_all_endpoints
  outage_changes_nothing down configured listed s =
      ground (arith, sync_endpoints_failed down s.endpoints s)

  cache-mark_synced :
      (now : ℕ) (ep : Endpoint) (s : SyncState IpNet)
      → (mark_synced now refused ep s).ip_cache ≡ s.ip_cache
  unfolding mark_synced
  cache-mark_synced now ep s = ground arith

  -- If the fetches succeed, then after the pass over an endpoint each of its addresses has what the full
  -- listing says where a full pass is due, whether or not its time between syncs is over; otherwise what
  -- the delta since `last_synced_at` makes of it where that time is over; and otherwise what it had.
  pub sync_endpoint_lem :
      (ep : Endpoint) (s : SyncState IpNet) (full delta : List VaultApiRecord) (k : Text)
      → fetch ep.vault_groups none ≡ ok full
      → fetch ep.vault_groups ep.last_synced_at ≡ ok delta
      → get Text-discrete k
          (entry ep.id (sync_endpoint nets clock fetch refused ep s).ip_cache).records
        ≡ (let before = get Text-discrete k (entry ep.id s.ip_cache).records in
            if full_sync_due clock.instant ep.id full_sync_interval s.ip_cache
            then listed nets k (map_records full) none
            else if diff_due clock.utc ep
            then merged nets k (map_records delta) before
            else before)
  unfolding sync_endpoint
  sync_endpoint_lem ep s full delta k h h' =
      elim (Bool-cases (full_sync_due clock.instant ep.id full_sync_interval s.ip_cache)) [
        | inl f ↦
            rw (f, h, full_pass)
              (rw cache-mark_synced (
                apply_full_lem nets clock.instant ep.id ep.id k (map_records full) s.ip_cache
                ∙ if_pos (ℕ_discrete ep.id ep.id) refl _ _))
        | inr f ↦ elim (Bool-cases (diff_due clock.utc ep)) [
          | inl due ↦
              rw (f, due)
                (rw (h', diff_pass)
                  (rw cache-mark_synced (
                    apply_diff_lem nets ep.id ep.id k (map_records delta) s.ip_cache
                    ∙ if_pos (ℕ_discrete ep.id ep.id) refl _ _)))
          | inr early ↦ rw (f, early)
        ]
      ]
