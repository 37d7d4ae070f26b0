-- ===== src/Tests/Records.antt =====
-- The cache, the walk over Vault's pages, and the worker.
use mathlib.Core.List.{Permᴰ, reverse}
use mathlib.Core.List.Permᴰ
use simply_ip_exporter.Prelude.{
  ℕ, ◌+◌, ◌-◌, ◌*◌, ◌<◌, ◌≤◌, ◌≡◌, ◌≢◌, refl, ◌⊎◌, inl, inr, Bool, true, false, Option, none, some,
  List, [], ◌∷◌, map, arith, ite, ℕ_discrete, All, take, drop, length, if◌then◌else◌, zero, suc,
  take_of_length-le,
}
use simply_ip_exporter.Prelude.HashMap.{get, values}
use simply_ip_exporter.Prelude.Int.{pos}
use simply_ip_exporter.Prelude.Net.{from_secs}
use simply_ip_exporter.Prelude.Result.{ok, err}
use simply_ip_exporter.Prelude.Text.{Text, Text-discrete, codes}
use simply_ip_exporter.Cache.{
  VaultRecord, IpCache, entry, apply_full, apply_diff, snapshot_within, full_sync_due,
}
use simply_ip_exporter.Cache.Sync.{
  Reached, NotBehind, listed, merged, apply_full_lem, apply_diff_lem, cursor-apply_diff,
}
use simply_ip_exporter.Cache.Window.{fresh, snapshot_within_lem}
use simply_ip_exporter.Entities.{Endpoint}
use simply_ip_exporter.Sync.{
  Clock, Fetch, SyncState, full_sync_interval, map_records, sync_endpoint, sync_all_endpoints,
  diff_due,
}
use simply_ip_exporter.Sync.Resilience.{outage_changes_nothing, sync_endpoint_lem}
use simply_ip_exporter.VaultClient
use simply_ip_exporter.VaultClient.{
  VaultApiRecord, VaultError, Vault, IpsResponse, envelope, legacy, status, page_at, fetch_ips,
  next_timestamp,
}
use simply_ip_exporter.VaultClient.Paging.{fetch_ips-IsComplete}
use simply_ip_exporter.Tests.Fixtures.{blocks}

abbrev eight : Text
eight = codes "8.8.8.8"

-- Seen, and then taken back.
abbrev batch : List VaultRecord
batch =
    record { target_address = eight; last_seen_at = 5; is_deleted = false }
    ∷ record { target_address = codes "10.0.0.1"; last_seen_at = 9; is_deleted = true }
    ∷ []

apply_full_lem_example :
    get Text-discrete eight (entry 1 (apply_full blocks 7 1 batch [])).records
    ≡ ite
        (ℕ_discrete 1 1)
        (listed blocks eight batch none)
        (get Text-discrete eight (entry {IpNet = ℕ} 1 []).records)
apply_full_lem_example = apply_full_lem blocks 7 1 1 eight batch []

abbrev full_cache : IpCache ℕ
full_cache = apply_full blocks 7 1 batch []

apply_diff_lem_example :
    get Text-discrete eight (entry 1 (apply_diff blocks 1 batch full_cache)).records
    ≡ ite
        (ℕ_discrete 1 1)
        (merged blocks eight batch (get Text-discrete eight (entry 1 full_cache).records))
        (get Text-discrete eight (entry 1 full_cache).records)
apply_diff_lem_example = apply_diff_lem blocks 1 1 eight batch full_cache

cursor-apply_diff_example :
    All
      (λ r. Reached r.last_seen_at (entry 1 (apply_diff blocks 1 batch full_cache)).last_synced_at)
      batch
    × NotBehind
        (entry 1 full_cache).last_synced_at
        (entry 1 (apply_diff blocks 1 batch full_cache)).last_synced_at
cursor-apply_diff_example = cursor-apply_diff blocks 1 batch full_cache

-- Dates that reach back to the start of the epoch.
abbrev sub_seconds : ℕ → ℕ → Option ℕ
sub_seconds now s =
    if simply_ip_exporter.Prelude.leb (from_secs s) now then some (now - from_secs s) else none

sub_seconds-earlier : (now s c : ℕ) → sub_seconds now s ≡ some c → c + from_secs s ≡ now
sub_seconds-earlier now s c h = ground arith

snapshot_within_lem_example :
    snapshot_within sub_seconds 1 (pos 3) (from_secs 10) full_cache
    ≡ some
        (map (λ r. r.network) (fresh (pos 3) (from_secs 10) (values (entry 1 full_cache).records)))
snapshot_within_lem_example =
    snapshot_within_lem sub_seconds sub_seconds-earlier 1 (pos 3) (from_secs 10) full_cache
      (inr (from_secs 7, refl))

abbrev listing : List VaultApiRecord
listing =
    record { target_address = eight; last_seen_at = 5; is_deleted = false }
    ∷ record { target_address = codes "10.0.0.1"; last_seen_at = 6; is_deleted = false }
    ∷ record { target_address = codes "10.0.0.0/8"; last_seen_at = 7; is_deleted = false }
    ∷ []

-- A Vault of pages of one record that reports their number.
abbrev vault : Vault
vault r =
    let records = take r.limit (drop r.offset listing) in
    if r.include_total
    then ok (envelope (record { records = records; total_pages = 3 }))
    else ok (legacy records)

vault-honours :
    (offset : ℕ) → page_at vault 1 (codes "spam") none offset ≡ ok (take 1 (drop offset listing))
unfolding page_at
vault-honours offset = refl

-- The last page arrives first.
fetch_ips-IsComplete_example :
    (records : List VaultApiRecord) × (fetch_ips vault 1 (codes "spam") none reverse ≡ ok records)
    × Permᴰ records listing
fetch_ips-IsComplete_example =
    fetch_ips-IsComplete vault 1 (codes "spam") none listing vault-honours (omega arith)
      (omega arith) reverse Permᴰ.reverse (inl (3, refl, omega arith, omega arith))

abbrev pub feed : Endpoint
feed = record {
  id = 1;
  owner_key_id = none;
  name = codes "feed";
  description = none;
  token_secret = codes "token";
  vault_groups = codes "spam";
  ttl_seconds = pos 60;
  max_age_seconds = pos 0;
  bound_ips = none;
  filter_rfc1918 = true;
  filter_bogons = false;
  filter_loopback = false;
  last_synced_at = none;
  created_at = 0;
  updated_at = 0;
}

abbrev rows : SyncState ℕ
rows = record { endpoints = feed ∷ []; ip_cache = [] }

abbrev at : ℕ → Clock
at t = record { instant = t; utc = t }

abbrev nobody_refuses : ℕ → Bool
nobody_refuses id = false

abbrev unreachable : Fetch
unreachable groups since = err VaultClient.request

outage_changes_nothing_example :
    sync_all_endpoints blocks (at 5) unreachable nobody_refuses true true rows ≡ rows
outage_changes_nothing_example =
    outage_changes_nothing blocks (at 5) unreachable nobody_refuses
      (λ groups since. (VaultClient.request, refl)) true true rows

abbrev healthy : Fetch
healthy groups since = ok listing

-- Synced just now, before a restart that lost the cache.
abbrev restarted : Endpoint
restarted = record feed { last_synced_at = some 5 }

sync_endpoint_lem_example :
    get Text-discrete eight
      (entry 1 (sync_endpoint blocks (at 5) healthy nobody_refuses restarted rows).ip_cache).records
    ≡ (if full_sync_due {IpNet = ℕ} 5 1 full_sync_interval []
        then listed blocks eight (map_records listing) none
        else if diff_due 5 restarted
        then merged blocks eight
            (map_records listing)
            (get Text-discrete eight (entry {IpNet = ℕ} 1 []).records)
        else get Text-discrete eight (entry {IpNet = ℕ} 1 []).records)
sync_endpoint_lem_example =
    sync_endpoint_lem blocks (at 5) healthy nobody_refuses restarted rows listing listing eight refl
      refl
