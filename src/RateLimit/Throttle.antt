-- ===== src/RateLimit/Throttle.antt =====
-- How long an accepted address stays refused, under any traffic of other addresses.
use simply_ip_exporter.Prelude.{
  ℕ, suc, ◌+◌, ◌∙◌, subst, ◌-◌, ◌≤◌, ◌<◌, ◌≡◌, refl, true, false, none, some, List, [], ◌∷◌, arith,
  length, leb, ltb, Option-cases, Bool-cases, inl, inr, is_some, ite,
}
use simply_ip_exporter.Prelude.HashMap.{
  HashMap, keys, get, insert, IsDistinct, remove-head, length-insert_known, length-insert_new,
  get-insert, get-insert_self,
}
use simply_ip_exporter.Prelude.Net.{IpAddr, IpAddr-discrete}
use simply_ip_exporter.Prelude.Result.{ok, err}
use simply_ip_exporter.RateLimit.{
  Inner, RateLimiter, evict, make_room, admit, check_and_record, run, max_tracked_ips,
  rate_limit_window,
}
use simply_ip_exporter.RateLimit.Bounds.{IsBounded, check_and_record-IsBounded, make_room-untracked}

-- How many entries stand behind that of `ip`, and so were first seen later.
newer : IpAddr → HashMap IpAddr ℕ → ℕ
newer ip [] = 0
newer ip ((k, v) ∷ m) = ite (IpAddr-discrete k ip) (length m) (newer ip m)

newer-insert_known :
    (ip k : IpAddr) (v : ℕ) (m : HashMap IpAddr ℕ)
    → is_some (get IpAddr-discrete k m) ≡ true
    → newer ip (insert IpAddr-discrete k v m) ≡ newer ip m
unfolding newer get insert
newer-insert_known ip k v [] h = cc
newer-insert_known ip k v ((j, w) ∷ m) h =
    ground (arith, newer-insert_known ip k v m, length-insert_known IpAddr-discrete k v m)

newer-insert_new :
    (ip k : IpAddr) (v : ℕ) (m : HashMap IpAddr ℕ)
    → get IpAddr-discrete k m ≡ none
    → newer ip (insert IpAddr-discrete k v m) ≤ newer ip m + 1
unfolding newer get insert
newer-insert_new ip k v [] h = ground arith
newer-insert_new ip k v ((j, w) ∷ m) h =
    ground (arith, newer-insert_new ip k v m, length-insert_new IpAddr-discrete k v m)

newer-insert_last :
    (ip : IpAddr) (v : ℕ) (m : HashMap IpAddr ℕ)
    → get IpAddr-discrete ip m ≡ none
    → newer ip (insert IpAddr-discrete ip v m) ≡ 0
unfolding newer get insert
newer-insert_last ip v [] h = ground arith
newer-insert_last ip v ((j, w) ∷ m) h = ground (arith, newer-insert_last ip v m)

-- `ip` is tracked until `until`, with at most `n` addresses first seen after it.
record Held (ip : IpAddr) (until n : ℕ) (i : Inner) : Type 0 where
  pub bounded : IsBounded i
  pub tracked : get IpAddr-discrete ip i.next_allowed ≡ some until
  pub recent : newer ip i.next_allowed ≤ n

evict-keeps :
    (ip : IpAddr) (until : ℕ) (m : HashMap IpAddr ℕ)
    → IsDistinct IpAddr-discrete m
    → get IpAddr-discrete ip m ≡ some until
    → newer ip m + 1 < max_tracked_ips
    → (get IpAddr-discrete ip (evict (keys m) m).next_allowed ≡ some until)
      × (newer ip (evict (keys m) m).next_allowed ≡ newer ip m)
unfolding evict get newer
evict-keeps ip until [] d h r = cc
evict-keeps ip until ((k, v) ∷ m) d h r =
    elim (Bool-cases (leb max_tracked_ips (length ((k, v) ∷ m)))) [
      | inl full ↦
          rw (full, evict)
            (rw (remove-head IpAddr-discrete k v m d.0)
              (ground (arith, evict-keeps ip until m d.1)))
      | inr room ↦ rw (room, evict) (h, refl)
    ]

make_room-keeps :
    (ip : IpAddr) (until n : ℕ) (i : Inner)
    → n + 1 < max_tracked_ips
    → Held ip until n i
    → (get IpAddr-discrete ip (make_room i).next_allowed ≡ some until)
      × (newer ip (make_room i).next_allowed ≤ n)
unfolding make_room
make_room-keeps ip until n i r h =
    rw h.bounded.queued
      (ground (arith, evict-keeps ip until i.next_allowed h.bounded.distinct h.tracked))

-- What a call of another address, or an early one, leaves of the hold.
abbrev Kept : IpAddr → ℕ → ℕ → Inner → Type 0
Kept ip until n i =
    (get IpAddr-discrete ip i.next_allowed ≡ some until) × (newer ip i.next_allowed ≤ n)

admit_new-Kept :
    (ip other : IpAddr) (until n now : ℕ) (i : Inner)
    → get IpAddr-discrete other i.next_allowed ≡ none
    → Kept ip until n i
    → Kept ip until (n + 1) (admit other now true i)
unfolding admit
admit_new-Kept ip other until n now i e k = ground (
  arith,
  get-insert IpAddr-discrete other ip (now + rate_limit_window) i.next_allowed,
  newer-insert_new ip other (now + rate_limit_window) i.next_allowed,
)

admit_known-Kept :
    (ip other : IpAddr) (until n now next : ℕ) (i : Inner)
    → get IpAddr-discrete other i.next_allowed ≡ some next
    → now < until
    → next ≤ now
    → Kept ip until n i
    → Kept ip until (n + 1) (admit other now false i)
unfolding admit
admit_known-Kept ip other until n now next i e early due k =
    let known : is_some (get IpAddr-discrete other i.next_allowed) ≡ true = rw e in
    ground (
      arith,
      get-insert IpAddr-discrete other ip (now + rate_limit_window) i.next_allowed,
      newer-insert_known ip other (now + rate_limit_window) i.next_allowed known,
    )

check_and_record-Kept :
    (ip other : IpAddr) (until n now : ℕ) (s : RateLimiter)
    → now < until
    → n + 1 < max_tracked_ips
    → Held ip until n s.state
    → Kept ip until (n + 1) (check_and_record other now s).1.state
unfolding check_and_record
check_and_record-Kept ip other until n now s early r h = elim (Bool-cases s.poisoned) [
  | inl p ↦ rw p (h.tracked, omega arith)
  | inr p ↦ rw p (elim (Option-cases (get IpAddr-discrete other s.next_allowed)) [
    | inl e ↦
        rw (e, check_and_record)
          (admit_new-Kept ip other until n now (make_room s.state)
            (make_room-untracked other s.state h.bounded e)
            (make_room-keeps ip until n s.state r h))
    | inr (next, e) ↦
        rw (e, check_and_record)
          (elim (Bool-cases (ltb now next)) [
            | inl soon ↦ rw soon (h.tracked, omega arith)
            | inr due ↦ rw due (
                admit_known-Kept ip other until n now next s.state e early (ground arith)
                  (h.tracked, h.recent))
          ])
  ])
]

check_and_record-Held :
    (ip other : IpAddr) (until n now : ℕ) (s : RateLimiter)
    → now < until
    → n + 1 < max_tracked_ips
    → Held ip until n s.state
    → Held ip until (n + 1) (check_and_record other now s).1.state
check_and_record-Held ip other until n now s early r h =
    let k = check_and_record-Kept ip other until n now s early r h in
    record {
      bounded = check_and_record-IsBounded other now s h.bounded;
      tracked = k.0;
      recent = k.1;
    }

-- Every call comes before `until`.
abbrev pub AllBefore : ℕ → List (IpAddr × ℕ) → Type 0
AllBefore until [] = Unit
AllBefore until ((ip, now) ∷ calls) = (now < until) × AllBefore until calls

run-Held :
    (ip : IpAddr) (until n : ℕ) (calls : List (IpAddr × ℕ)) (s : RateLimiter)
    → AllBefore until calls
    → n + length calls < max_tracked_ips
    → Held ip until n s.state
    → Held ip until (n + length calls) (run s calls).state
unfolding run
run-Held ip until n [] s b r h = record {
  bounded = h.bounded;
  tracked = h.tracked;
  recent = omega (arith, h.recent);
}
run-Held ip until n ((other, now) ∷ calls) s b r h =
    let e : n + 1 + length calls ≡ n + suc (length calls) = omega arith in
    subst (λ k. Held ip until k (run (check_and_record other now s).1 calls).state) e
      (run-Held ip until (n + 1) calls (check_and_record other now s).1 b.1 (omega arith)
        (check_and_record-Held ip other until n now s b.0 (omega arith) h))

admitted-Held :
    (ip : IpAddr) (now : ℕ) (s : RateLimiter)
    → IsBounded s.state
    → s.poisoned ≡ false
    → get IpAddr-discrete ip s.next_allowed ≡ none
    → Held ip (now + rate_limit_window) 0 (check_and_record ip now s).1.state
unfolding check_and_record admit
admitted-Held ip now s v p e = record {
  bounded = check_and_record-IsBounded ip now s v;
  tracked = rw (p, e, check_and_record) (get-insert_self IpAddr-discrete ip _ _);
  recent =
      rw (p, e, check_and_record)
        (omega (
          arith,
          newer-insert_last ip (now + rate_limit_window) (make_room s.state).next_allowed
              (make_room-untracked ip s.state v e),
        ));
}

poisoned-check_and_record :
    (ip : IpAddr) (now : ℕ) (s : RateLimiter) → (check_and_record ip now s).1.poisoned ≡ s.poisoned
unfolding check_and_record
poisoned-check_and_record ip now s = ground arith

poisoned-run : (calls : List (IpAddr × ℕ)) (s : RateLimiter) → (run s calls).poisoned ≡ s.poisoned
unfolding run
poisoned-run [] s = refl
poisoned-run ((ip, now) ∷ calls) s =
    poisoned-run calls (check_and_record ip now s).1 ∙ poisoned-check_and_record ip now s

untracked_served :
    (ip : IpAddr) (now : ℕ) (s : RateLimiter)
    → s.poisoned ≡ false
    → get IpAddr-discrete ip s.next_allowed ≡ none
    → (check_and_record ip now s).0 ≡ ok tt
unfolding check_and_record
untracked_served ip now s p e = ground arith

held_refused :
    (ip : IpAddr) (until later : ℕ) (s : RateLimiter)
    → s.poisoned ≡ false
    → get IpAddr-discrete ip s.next_allowed ≡ some until
    → later < until
    → (check_and_record ip later s).0 ≡ err (until - later)
unfolding check_and_record
held_refused ip until later s p e soon = ground arith

-- An address that was not tracked is served; then, whatever fewer than `max_tracked_ips` other calls follow within the window, a second
-- request of the address inside the window is refused with exactly the time that is left.
pub throttled_within_window :
    (ip : IpAddr) (now later : ℕ) (calls : List (IpAddr × ℕ)) (s : RateLimiter)
    → IsBounded s.state
    → s.poisoned ≡ false
    → get IpAddr-discrete ip s.next_allowed ≡ none
    → length calls < max_tracked_ips
    → AllBefore (now + rate_limit_window) calls
    → later < now + rate_limit_window
    → ((check_and_record ip now s).0 ≡ ok tt)
      × ((check_and_record ip later (run (check_and_record ip now s).1 calls)).0
          ≡ err (now + rate_limit_window - later))
throttled_within_window ip now later calls s v p e few b soon =
    let s' = (check_and_record ip now s).1 in
    let h =
      run-Held ip (now + rate_limit_window) 0 calls s' b (omega arith)
        (admitted-Held ip now s v p e) in
    (
      untracked_served ip now s p e,
      held_refused ip (now + rate_limit_window) later (run s' calls)
          (poisoned-run calls s' ∙ poisoned-check_and_record ip now s ∙ p) h.tracked soon,
    )
