-- ===== src/VaultClient/Timestamps.antt =====
-- The timestamps of consecutive requests.
use simply_ip_exporter.Prelude.{ℕ, ◌+◌, ◌<◌, ◌≤◌, ◌≢◌, ◌⊎◌, arith}
use simply_ip_exporter.VaultClient.{next_timestamp}

-- Unless the clock has gone back by five seconds or more, a request's timestamp is larger than the last
-- one; it is never equal to the last one, and never more than five seconds ahead of the clock.
pub next_timestamp_lem :
    (now last : ℕ)
    → ((last < next_timestamp now last) ⊎ (now + 5 ≤ last))
      × (next_timestamp now last ≢ last)
      × (now ≤ next_timestamp now last)
      × (next_timestamp now last ≤ now + 5)
unfolding next_timestamp
next_timestamp_lem now last = (ground arith, ground arith, ground arith, ground arith)
