-- ===== src/Sync/Rows.antt =====
-- A sync pass changes of a row only `last_synced_at`.
use simply_ip_exporter.Prelude.{
  ℕ, Bool, true, false, Option, none, some, List, [], ◌∷◌, All, inl, inr, Bool-cases, ◌==◌,
}
use simply_ip_exporter.Prelude.Net.{IpNets}
use simply_ip_exporter.Prelude.Result.{Result-cases}
use simply_ip_exporter.Cache.{full_sync_due}
use simply_ip_exporter.Entities.{Endpoint}
use simply_ip_exporter.Sync.{
  Clock, Fetch, SyncState, set_synced, mark_synced, diff_due, full_pass, diff_pass, sync_endpoint,
  sync_endpoints, sync_all_endpoints, full_sync_interval,
}

module _ (P : Endpoint → Type 0)
    (resynced : (e : Endpoint) (at : Option ℕ) → P e → P (record e { last_synced_at = at })) where
  set_synced-All : (id now : ℕ) (es : List Endpoint) → All P es → All P (set_synced id now es)
  unfolding set_synced
  set_synced-All id now [] h = tt
  set_synced-All id now (e ∷ es) h = elim (Bool-cases (e.id == id)) [
    | inl q ↦ rw q (resynced e (some now) h.0, set_synced-All id now es h.1)
    | inr q ↦ rw q (h.0, set_synced-All id now es h.1)
  ]

  module _ (nets : IpNets) (clock : Clock) (fetch : Fetch) (refused : ℕ → Bool) where
    open nets use {IpNet}

    mark_synced-All :
        (ep : Endpoint) (s : SyncState IpNet)
        → All P s.endpoints
        → All P (mark_synced clock.utc refused ep s).endpoints
    unfolding mark_synced
    mark_synced-All ep s h = elim (Bool-cases (refused ep.id)) [
      | inl q ↦ rw q h
      | inr q ↦ rw q (set_synced-All ep.id clock.utc s.endpoints h)
    ]

    full_pass-All :
        (ep : Endpoint) (s : SyncState IpNet)
        → All P s.endpoints
        → All P (full_pass nets clock fetch refused ep s).endpoints
    unfolding full_pass
    full_pass-All ep s h = elim (Result-cases (fetch ep.vault_groups none)) [
      | inl (e, p) ↦ rw (p, All) h
      | inr (records, p) ↦ rw (p, All) (mark_synced-All ep _ h)
    ]

    diff_pass-All :
        (ep : Endpoint) (s : SyncState IpNet)
        → All P s.endpoints
        → All P (diff_pass nets clock fetch refused ep s).endpoints
    unfolding diff_pass
    diff_pass-All ep s h = elim (Result-cases (fetch ep.vault_groups ep.last_synced_at)) [
      | inl (e, p) ↦ rw (p, All) h
      | inr (records, p) ↦ rw (p, All) (mark_synced-All ep _ h)
    ]

    sync_endpoint-All :
        (ep : Endpoint) (s : SyncState IpNet)
        → All P s.endpoints
        → All P (sync_endpoint nets clock fetch refused ep s).endpoints
    unfolding sync_endpoint
    sync_endpoint-All ep s h =
        elim (Bool-cases (full_sync_due clock.instant ep.id full_sync_interval s.ip_cache)) [
          | inl q ↦ rw q (full_pass-All ep s h)
          | inr q ↦ rw q (elim (Bool-cases (diff_due clock.utc ep)) [
            | inl r ↦ rw r (diff_pass-All ep s h)
            | inr r ↦ rw r h
          ])
        ]

    sync_endpoints-All :
        (eps : List Endpoint) (s : SyncState IpNet)
        → All P s.endpoints
        → All P (sync_endpoints nets clock fetch refused eps s).endpoints
    unfolding sync_endpoints
    sync_endpoints-All [] s h = h
    sync_endpoints-All (ep ∷ eps) s h =
        sync_endpoints-All eps (sync_endpoint nets clock fetch refused ep s)
          (sync_endpoint-All ep s h)

    pub sync_all_endpoints-All :
        (configured listed : Bool) (s : SyncState IpNet)
        → All P s.endpoints
        → All P (sync_all_endpoints nets clock fetch refused configured listed s).endpoints
    unfolding sync_all_endpoints
    sync_all_endpoints-All true true s h = sync_endpoints-All s.endpoints s h
    sync_all_endpoints-All true false s h = h
    sync_all_endpoints-All false listed s h = h
