-- ===== src/Sync.antt =====
-- src/sync.rs: the background worker. A pass is given the two clocks, what Vault answers to each
-- fetch, and which writes of `last_synced_at` the database refuses; the awaits between these are
-- not interleaved with other tasks.
pub mod Resilience
pub mod Boot
pub mod Rows
use simply_ip_exporter.Prelude.{
  ℕ, ◌+◌, ◌*◌, max, Bool, true, false, Option, none, some, List, [], ◌∷◌, map, leb, ◌==◌,
  if◌then◌else◌,
}
use simply_ip_exporter.Prelude.Int.{ℤ, pos, negsuc}
use simply_ip_exporter.Prelude.Net.{IpNets, from_secs}
use simply_ip_exporter.Prelude.Result.{Result, ok, err}
use simply_ip_exporter.Prelude.Text.{Text}
use simply_ip_exporter.Cache.{VaultRecord, IpCache, full_sync_due, apply_full, apply_diff}
use simply_ip_exporter.Entities.{Endpoint}
use simply_ip_exporter.VaultClient.{VaultApiRecord, VaultError}

abbrev pub full_sync_interval : ℕ
full_sync_interval = from_secs (24 * 3600)

pub map_records : List VaultApiRecord → List VaultRecord
map_records = map λ r. record {
  target_address = r.target_address;
  last_seen_at = r.last_seen_at;
  is_deleted = r.is_deleted;
}

-- `Instant::now()` and `Utc::now()`.
pub record Clock : Type 0 where
  pub instant : ℕ
  pub utc : ℕ

abbrev pub Fetch : Type 0
Fetch = Text → Option ℕ → Result VaultError (List VaultApiRecord)

-- What a pass reads and writes: the rows of `endpoints` and the cache.
pub record SyncState (IpNet : Type 0) : Type 0 where
  pub endpoints : List Endpoint
  pub ip_cache : IpCache IpNet

-- `UPDATE endpoints SET last_synced_at = … WHERE id = …`.
pub set_synced : ℕ → ℕ → List Endpoint → List Endpoint
set_synced id now [] = []
set_synced id now (ep ∷ eps) =
    (if ep.id == id then record ep { last_synced_at = some now } else ep) ∷ set_synced id now eps

-- A refused write is logged and dropped.
pub mark_synced : {IpNet : Type 0} → ℕ → (ℕ → Bool) → Endpoint → SyncState IpNet → SyncState IpNet
mark_synced now refused ep s =
    if refused ep.id then s else record s { endpoints = set_synced ep.id now s.endpoints }

-- `ep.ttl_seconds.max(1)`.
abbrev pub ttl_or_one : ℤ → ℕ
ttl_or_one (pos n) = max n 1
ttl_or_one (negsuc n) = 1

unfoldable pub diff_due : ℕ → Endpoint → Bool
diff_due now ep = elim ep.last_synced_at [
  | none ↦ true
  | some last ↦ leb (last + from_secs (ttl_or_one ep.ttl_seconds)) now
]

module _ (nets : IpNets) (clock : Clock) (fetch : Fetch) (refused : ℕ → Bool) where
  open nets use {IpNet}

  full_pass : Endpoint → SyncState IpNet → SyncState IpNet
  full_pass ep s = elim (fetch ep.vault_groups none) [
    | ok records ↦ mark_synced clock.utc refused ep (record s {
      ip_cache = apply_full nets clock.instant ep.id (map_records records) s.ip_cache;
    })
    | err e ↦ s
  ]

  diff_pass : Endpoint → SyncState IpNet → SyncState IpNet
  diff_pass ep s = elim (fetch ep.vault_groups ep.last_synced_at) [
    | ok records ↦
        mark_synced clock.utc refused ep
          (record s { ip_cache = apply_diff nets ep.id (map_records records) s.ip_cache })
    | err e ↦ s
  ]

  pub sync_endpoint : Endpoint → SyncState IpNet → SyncState IpNet
  unfolding full_pass diff_pass
  sync_endpoint ep s =
      if full_sync_due clock.instant ep.id full_sync_interval s.ip_cache
      then full_pass ep s
      else if diff_due clock.utc ep
      then diff_pass ep s
      else s

  -- The `for` loop over the rows that were listed.
  pub sync_endpoints : List Endpoint → SyncState IpNet → SyncState IpNet
  sync_endpoints [] s = s
  sync_endpoints (ep ∷ eps) s = sync_endpoints eps (sync_endpoint ep s)

  -- `configured`: a Vault client exists; `listed`: the query for the endpoints succeeded.
  pub sync_all_endpoints : Bool → Bool → SyncState IpNet → SyncState IpNet
  sync_all_endpoints configured listed s =
      if configured then (if listed then sync_endpoints s.endpoints s else s) else s
