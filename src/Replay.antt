-- ===== src/Replay.antt =====
-- src/replay.rs: single use of signatures. `now` is the instant of the call; the two flags say
-- which mutex is poisoned.
pub mod SingleUse
pub mod Verdict
use simply_ip_exporter.Prelude.{
  ℕ, ◌+◌, ◌-◌, ◌/◌, min, max, Bool, true, false, not, ◌&&◌, ◌||◌, none, some, List, [], ◌∷◌, length,
  leb, ltb, if◌then◌else◌, ℕ_discrete,
}
use simply_ip_exporter.Prelude.HashMap.{HashMap, get, insert, retain}
use simply_ip_exporter.Prelude.Net.{from_secs}
use simply_ip_exporter.Prelude.Int.{ℤ, pos, negsuc}

abbrev pub prune_interval_divisor : ℕ
prune_interval_divisor = 4

abbrev pub capacity_backoff_divisor : ℕ
capacity_backoff_divisor = 16

abbrev pub max_tracked_signatures : ℕ
max_tracked_signatures = 250_000

pub record SignatureId : Type 0 where
  pub key_id : ℕ
  pub digest : List ℕ

pub SignatureId-discrete : Discrete SignatureId
unfolding ℕ_discrete
SignatureId-discrete = hlevel ℕ_discrete

pub record PruneSchedule : Type 0 where
  pub next : ℕ
  pub next_capacity : ℕ

pub record ReplayGuard : Type 0 where
  pub seen : HashMap SignatureId ℕ
  pub schedule : PruneSchedule
  pub window : ℕ
  pub prune_interval : ℕ
  pub capacity_backoff : ℕ
  pub seen_poisoned : Bool
  pub schedule_poisoned : Bool

-- `window_seconds.clamp(1, 3600)`.
abbrev pub clamp_window : ℤ → ℕ
clamp_window (pos n) = min (max n 1) 3600
clamp_window (negsuc n) = 1

unfoldable pub new : ℤ → ℕ → ReplayGuard
new window_seconds now =
    let window = from_secs (clamp_window window_seconds) in
    let prune_interval = window / prune_interval_divisor in
    record {
      seen = [];
      schedule = record { next = now + prune_interval; next_capacity = now };
      window = window;
      prune_interval = prune_interval;
      capacity_backoff = window / capacity_backoff_divisor;
      seen_poisoned = false;
      schedule_poisoned = false;
    }

-- The second half of `prune_if_due`, under the lock on `seen`.
sweep : ℕ → ReplayGuard → ReplayGuard
sweep now g =
    if g.seen_poisoned
    then g
    else record g { seen = retain (λ expires_at. ltb now expires_at) g.seen }

reschedule : ℕ → Bool → ReplayGuard → ReplayGuard
reschedule now capacity_due g = record g {
  schedule = record {
    next = now + g.prune_interval;
    next_capacity = if capacity_due then now + g.capacity_backoff else g.schedule.next_capacity;
  };
}

pub prune_if_due : ℕ → ReplayGuard → ReplayGuard
unfolding sweep reschedule
prune_if_due now g =
    let over_capacity = not g.seen_poisoned && leb max_tracked_signatures (length g.seen) in
    if g.schedule_poisoned
    then g
    else (let routine_due = leb g.schedule.next now in
        let capacity_due = over_capacity && leb g.schedule.next_capacity now in
        if not routine_due && not capacity_due
        then g
        else sweep now (reschedule now capacity_due g))

-- The lookup and insertion, after the pruning.
record_id : SignatureId → ℕ → ReplayGuard → Bool × ReplayGuard
record_id id now g =
    let accept = record g { seen = insert SignatureId-discrete id (now + g.window) g.seen } in
    elim (get SignatureId-discrete id g.seen) [
      | some expires_at ↦ if ltb now expires_at then (false, g) else (true, accept)
      | none ↦ (true, accept)
    ]

unfoldable pub check_and_record : SignatureId → ℕ → ReplayGuard → Bool × ReplayGuard
unfolding prune_if_due record_id
check_and_record id now g =
    let pruned = prune_if_due now g in
    if pruned.seen_poisoned then (false, pruned) else record_id id now pruned

-- A sequence of calls; the state after it.
unfoldable pub run : ReplayGuard → List (SignatureId × ℕ) → ReplayGuard
run g [] = g
run g ((id, now) ∷ calls) = run (check_and_record id now g).1 calls
