-- ===== src/Tests/Limits.antt =====
-- The limiter and the replay guard.
use simply_ip_exporter.Prelude.{
  ℕ, ◌+◌, ◌-◌, ◌≡◌, refl, true, false, not, ◌&&◌, List, [], ◌∷◌, arith,
}
use simply_ip_exporter.Prelude.HashMap.{get}
use simply_ip_exporter.Prelude.Int.{pos}
use simply_ip_exporter.Prelude.Net.{IpAddr}
use simply_ip_exporter.Prelude.Result.{ok, err}
use simply_ip_exporter.RateLimit
use simply_ip_exporter.RateLimit.{rate_limit_window}
use simply_ip_exporter.RateLimit.Bounds.{IsBounded, run-IsBounded}
use simply_ip_exporter.RateLimit.Throttle.{throttled_within_window}
use simply_ip_exporter.Replay
use simply_ip_exporter.Replay.{SignatureId, SignatureId-discrete, ReplayGuard}
use simply_ip_exporter.Replay.SingleUse.{accepted_once}
use simply_ip_exporter.Replay.Verdict.{check_and_record-verdict, is_unused}
use simply_ip_exporter.Tests.Fixtures.{host}

new-IsBounded : IsBounded RateLimit.new.state
new-IsBounded = record { queued = refl; distinct = tt; bounded = omega arith }

abbrev three_calls : List (IpAddr × ℕ)
three_calls = (host 8 1, 0) ∷ (host 8 2, 5) ∷ (host 8 1, 9) ∷ []

run-IsBounded_example : IsBounded (RateLimit.run RateLimit.new three_calls).state
run-IsBounded_example = run-IsBounded three_calls RateLimit.new new-IsBounded

throttled_within_window_example :
    ((RateLimit.check_and_record (host 8 1) 7 RateLimit.new).0 ≡ ok tt)
    × ((RateLimit.check_and_record (host 8 1) 10 (
          RateLimit.run
            (RateLimit.check_and_record (host 8 1) 7 RateLimit.new).1
            ((host 8 2, 8) ∷ []))).0
        ≡ err (7 + rate_limit_window - 10))
unfolding get
throttled_within_window_example =
    throttled_within_window (host 8 1) 7 10 ((host 8 2, 8) ∷ []) RateLimit.new new-IsBounded refl
      refl (omega arith) (omega arith, tt) (omega arith)

abbrev guard : ReplayGuard
guard = Replay.new (pos 300) 0

abbrev signature : SignatureId
signature = record { key_id = 1; digest = 7 ∷ [] }

fresh_accepted : (Replay.check_and_record signature 5 guard).0 ≡ true
unfolding Replay.check_and_record Replay.new get
fresh_accepted = refl

accepted_once_example :
    (Replay.check_and_record signature 9 (
      Replay.run
        (Replay.check_and_record signature 5 guard).1
        ((record { key_id = 2; digest = 7 ∷ [] }, 8) ∷ []))).0
    ≡ false
unfolding Replay.new
accepted_once_example =
    accepted_once signature 5 9 ((record { key_id = 2; digest = 7 ∷ [] }, 8) ∷ []) guard
      fresh_accepted (omega arith, tt) (omega arith)

check_and_record-verdict_example :
    (Replay.check_and_record signature 5 guard).0
    ≡ (not guard.seen_poisoned && is_unused 5 (get SignatureId-discrete signature guard.seen))
unfolding Replay.new
check_and_record-verdict_example = check_and_record-verdict signature 5 guard tt
