-- ===== src/RateLimit.antt =====
-- src/ratelimit.rs: the throttle of the public feed. `now` is the instant that `Instant::now()`
-- returns; `poisoned` says that the mutex is poisoned.
pub mod Bounds
pub mod Throttle
pub mod Recovery
use simply_ip_exporter.Prelude.{
  ℕ, suc, ◌+◌, ◌-◌, Bool, true, false, none, some, List, [], ◌∷◌, ◌++◌, length, leb, ltb, is_some,
  if◌then◌else◌, not,
}
use simply_ip_exporter.Prelude.HashMap.{HashMap, get, insert, remove}
use simply_ip_exporter.Prelude.Net.{IpAddr, IpAddr-discrete, from_secs}
use simply_ip_exporter.Prelude.Result.{Result, ok, err}

abbrev pub rate_limit_window : ℕ
rate_limit_window = from_secs 120

abbrev pub max_tracked_ips : ℕ
max_tracked_ips = 10_000

pub record Inner : Type 0 where
  pub next_allowed : HashMap IpAddr ℕ
  pub order : List IpAddr

pub record RateLimiter : Type 0 where
  pub state : Inner
  pub open state use *
  pub poisoned : Bool

abbrev pub new : RateLimiter
new = record { state = record { next_allowed = []; order = [] }; poisoned = false }

-- The `while` loop: the oldest addresses go until the map is below the ceiling.
pub evict : List IpAddr → HashMap IpAddr ℕ → Inner
evict [] m = record { next_allowed = m; order = [] }
evict (oldest ∷ rest) m = elim (leb max_tracked_ips (length m)) [
  | true ↦ evict rest (remove IpAddr-discrete oldest m)
  | false ↦ record { next_allowed = m; order = oldest ∷ rest }
]

pub make_room : Inner → Inner
make_room i =
    if leb max_tracked_ips (length i.next_allowed) then evict i.order i.next_allowed else i

pub admit : IpAddr → ℕ → Bool → Inner → Inner
admit ip now is_new i = record {
  next_allowed = insert IpAddr-discrete ip (now + rate_limit_window) i.next_allowed;
  order = if is_new then i.order ++ ip ∷ [] else i.order;
}

unfoldable pub check_and_record : IpAddr → ℕ → RateLimiter → Result ℕ (Unit {0}) × RateLimiter
unfolding make_room admit
check_and_record ip now s =
    if s.poisoned
    then (err rate_limit_window, s)
    else elim (get IpAddr-discrete ip s.next_allowed) [
      | some next ↦
          if ltb now next
          then (err (next - now), s)
          else (ok tt, record s { state = admit ip now false s.state })
      | none ↦ (ok tt, record s { state = admit ip now true (make_room s.state) })
    ]

-- A sequence of calls; the state after it.
pub run : RateLimiter → List (IpAddr × ℕ) → RateLimiter
run s [] = s
run s ((ip, now) ∷ calls) = run (check_and_record ip now s).1 calls
