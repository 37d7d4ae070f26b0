-- ===== src/Cache.antt =====
-- src/cache.rs: the in-memory records of every endpoint. Endpoint ids are numbers; `last_seen_at`
-- and the cursor are moments, and `now` the instant of the call. An async method runs under the
-- lock from its first line to its last, so each is one step.
pub mod Sync
pub mod Window
use simply_ip_exporter.Prelude.{
  ℕ, ◌-◌, max, Bool, true, false, Option, none, some, List, [], ◌∷◌, map, filter, leb,
  if◌then◌else◌, ℕ_discrete,
}
use simply_ip_exporter.Prelude.HashMap
use simply_ip_exporter.Prelude.HashMap.{HashMap, get, insert, remove, values}
use simply_ip_exporter.Prelude.Int.{ℤ, abs, is_nonpositive}
use simply_ip_exporter.Prelude.Net.{IpNets}
use simply_ip_exporter.Prelude.Text.{Text, Text-discrete}

-- One record as Vault reports it.
pub record VaultRecord : Type 0 where
  pub target_address : Text
  pub last_seen_at : ℕ
  pub is_deleted : Bool

pub record CachedRecord (IpNet : Type 0) : Type 0 where
  pub network : IpNet
  pub last_seen_at : ℕ

pub record EndpointCache (IpNet : Type 0) : Type 0 where
  pub records : HashMap Text (CachedRecord IpNet)
  pub last_synced_at : Option ℕ
  pub last_full_sync_at : Option ℕ

-- The map behind the lock.
abbrev pub IpCache : Type 0 → Type 0
IpCache IpNet = HashMap ℕ (EndpointCache IpNet)

-- `Default` for one endpoint.
abbrev pub empty_entry : {IpNet : Type 0} → EndpointCache IpNet
empty_entry = record { records = []; last_synced_at = none; last_full_sync_at = none }

-- `guard.entry(endpoint_id).or_default()`.
pub entry : {IpNet : Type 0} → ℕ → IpCache IpNet → EndpointCache IpNet
entry id cache = elim (get ℕ_discrete id cache) [ none ↦ empty_entry | some e ↦ e ]

-- `Some(max_last_seen.map_or(seen, |m| m.max(seen)))`.
abbrev pub max_seen : Option ℕ → ℕ → Option ℕ
max_seen none seen = some seen
max_seen (some m) seen = some (max m seen)

module _ (nets : IpNets) where
  open nets use {IpNet, parse_net, parse_addr, from_addr}

  pub parse_target_address : Text → Option IpNet
  parse_target_address raw = elim (parse_net raw) [
    | some net ↦ some net
    | none ↦ elim (parse_addr raw) [ some addr ↦ some (from_addr addr) | none ↦ none ]
  ]

  -- One turn of the loop of `apply_full`, on the records and `max_last_seen`.
  pub full_step :
      VaultRecord
      → HashMap Text (CachedRecord IpNet) × Option ℕ
      → HashMap Text (CachedRecord IpNet) × Option ℕ
  full_step r (records, seen) =
      if r.is_deleted then (records, seen) else elim (parse_target_address r.target_address) [
        | none ↦ (records, seen)
        | some net ↦ (
          insert Text-discrete r.target_address
              (record { network = net; last_seen_at = r.last_seen_at }) records,
          max_seen seen r.last_seen_at,
        )
      ]

  pub full_loop :
      List VaultRecord
      → HashMap Text (CachedRecord IpNet) × Option ℕ
      → HashMap Text (CachedRecord IpNet) × Option ℕ
  full_loop [] s = s
  full_loop (r ∷ rs) s = full_loop rs (full_step r s)

  pub apply_full : ℕ → ℕ → List VaultRecord → IpCache IpNet → IpCache IpNet
  apply_full now id batch cache =
      let done = full_loop batch ([], (entry id cache).last_synced_at) in
      insert ℕ_discrete id
        (record { records = done.0; last_synced_at = done.1; last_full_sync_at = some now }) cache

  -- One turn of the loop of `apply_diff`.
  pub diff_step :
      VaultRecord
      → HashMap Text (CachedRecord IpNet) × Option ℕ
      → HashMap Text (CachedRecord IpNet) × Option ℕ
  diff_step r (records, seen) =
      let seen' = max_seen seen r.last_seen_at in
      if r.is_deleted
      then (remove Text-discrete r.target_address records, seen')
      else elim (parse_target_address r.target_address) [
        | none ↦ (records, seen')
        | some net ↦ (
          insert Text-discrete r.target_address
              (record { network = net; last_seen_at = r.last_seen_at }) records,
          seen',
        )
      ]

  pub diff_loop :
      List VaultRecord
      → HashMap Text (CachedRecord IpNet) × Option ℕ
      → HashMap Text (CachedRecord IpNet) × Option ℕ
  diff_loop [] s = s
  diff_loop (r ∷ rs) s = diff_loop rs (diff_step r s)

  pub apply_diff : ℕ → List VaultRecord → IpCache IpNet → IpCache IpNet
  apply_diff id batch cache =
      let old = entry id cache in
      let done = diff_loop batch (old.records, old.last_synced_at) in
      insert ℕ_discrete id (record old { records = done.0; last_synced_at = done.1 }) cache

-- `now - chrono::Duration::seconds(s)` comes from `sub_seconds`; `none` is its panic.
module _ {IpNet : Type 0} (sub_seconds : ℕ → ℕ → Option ℕ) where
  -- `none` is a panic.
  unfoldable pub snapshot_within : ℕ → ℤ → ℕ → IpCache IpNet → Option (List IpNet)
  snapshot_within id max_age_seconds now cache = elim (get ℕ_discrete id cache) [
    | none ↦ some []
    | some e ↦
        if is_nonpositive max_age_seconds
        then some (map (λ r. r.network) (values e.records))
        else elim (sub_seconds now (abs max_age_seconds)) [
          | none ↦ none
          | some cutoff ↦
              some
                (map (λ r. r.network) (filter (λ r. leb cutoff r.last_seen_at) (values e.records)))
        ]
  ]

module _ {IpNet : Type 0} where
  pub last_synced_at : ℕ → IpCache IpNet → Option ℕ
  last_synced_at id cache = elim (get ℕ_discrete id cache) [
    | none ↦ none
    | some e ↦ e.last_synced_at
  ]

  pub full_sync_due : ℕ → ℕ → ℕ → IpCache IpNet → Bool
  full_sync_due now id interval cache = elim (get ℕ_discrete id cache) [
    | none ↦ true
    | some e ↦ elim e.last_full_sync_at [ none ↦ true | some at ↦ leb interval (now - at) ]
  ]

  unfoldable pub evict : ℕ → IpCache IpNet → IpCache IpNet
  evict id cache = remove ℕ_discrete id cache
