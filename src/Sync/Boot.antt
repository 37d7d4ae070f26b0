-- ===== src/Sync/Boot.antt =====
-- The boot pass leaves the worker's first pass nothing to do.
use simply_ip_exporter.Prelude.{
  ℕ, ◌≡◌, ◌⊎◌, Bool, true, false, Option, none, some, List, [], ◌∷◌, All,
}
use simply_ip_exporter.Prelude.Net.{IpNets}
use simply_ip_exporter.Prelude.Result.{ok}
use simply_ip_exporter.Prelude.Text.{Text}
use simply_ip_exporter.Cache.Window.{last_full}
use simply_ip_exporter.Entities.{Endpoint}
use simply_ip_exporter.VaultClient.{VaultApiRecord}
use simply_ip_exporter.Sync.{Clock, Fetch, SyncState, sync_endpoint, sync_all_endpoints}

ids : List Endpoint → List ℕ
ids [] = []
ids (ep ∷ eps) = ep.id ∷ ids eps

-- The rows of the endpoint `id` were synced at `now`.
abbrev RowSynced : ℕ → ℕ → List Endpoint → Type 0
RowSynced now id = All (λ ep. ep.id ≡ id → ep.last_synced_at ≡ some now)

abbrev no_refusal : ℕ → Bool
no_refusal id = false

module _ (nets : IpNets) (clock : Clock) (fetch : Fetch)
    (healthy : (groups : Text) (since : Option ℕ)
      → (rs : List VaultApiRecord) × (fetch groups since ≡ ok rs)) where
  open nets use {IpNet}

  -- Each endpoint either has had no full pass, or one in this pass, and its row is marked.
  abbrev OnePass : SyncState IpNet → Type 0
  OnePass s =
      (j : ℕ)
      → (last_full j s.ip_cache ≡ none)
        ⊎ ((last_full j s.ip_cache ≡ some clock.instant) × RowSynced clock.utc j s.endpoints)

  abbrev step : Endpoint → SyncState IpNet → SyncState IpNet
  step = sync_endpoint nets clock fetch no_refusal

  -- A visit keeps the invariant and the ids, completes its endpoint and no other is undone.
  record Visited (ep : Endpoint) (s s' : SyncState IpNet) : Type 0 where
    pub one_pass : OnePass s'
    pub same_ids : ids s'.endpoints ≡ ids s.endpoints
    pub completed : last_full ep.id s'.ip_cache ≡ some clock.instant
    pub kept :
        (j : ℕ)
        → last_full j s.ip_cache ≡ some clock.instant
        → last_full j s'.ip_cache ≡ some clock.instant

  -- What a pass over `eps` leaves.
  record Passed (eps : List Endpoint) (s s' : SyncState IpNet) : Type 0 where
    pub one_pass : OnePass s'
    pub same_ids : ids s'.endpoints ≡ ids s.endpoints
    pub completed : All (λ j. last_full j s'.ip_cache ≡ some clock.instant) (ids eps)
    pub kept :
        (j : ℕ)
        → last_full j s.ip_cache ≡ some clock.instant
        → last_full j s'.ip_cache ≡ some clock.instant

  -- The state that a boot pass over all endpoints leaves.
  abbrev pub booted : SyncState IpNet → SyncState IpNet
  booted s = sync_all_endpoints nets clock fetch no_refusal true true s
