-- ===== src/RateLimit/Bounds.antt =====
-- The bound on memory: map and queue never pass the ceiling and stay in step.
use simply_ip_exporter.Prelude.{
  ℕ, ◌≤◌, ◌<◌, ◌≡◌, refl, true, false, none, List, [], ◌∷◌, arith, length, leb, ltb, Option-cases,
  Bool-cases, inl, inr, is_some,
}
use simply_ip_exporter.Prelude.HashMap.{
  HashMap, keys, get, IsDistinct, IsDistinct-insert, remove-head, keys-insert_known,
  keys-insert_new, length-insert_known, length-insert_new,
}
use simply_ip_exporter.Prelude.Net.{IpAddr, IpAddr-discrete}
use simply_ip_exporter.RateLimit.{
  Inner, RateLimiter, evict, make_room, admit, check_and_record, run, max_tracked_ips,
}

-- The queue holds every tracked address once, in the order of first sight, and there are at most
-- `max_tracked_ips`.
pub record IsBounded (i : Inner) : Type 0 where
  pub queued : i.order ≡ keys i.next_allowed
  pub distinct : IsDistinct IpAddr-discrete i.next_allowed
  pub bounded : length i.next_allowed ≤ max_tracked_ips

evict-IsBounded :
    (m : HashMap IpAddr ℕ)
    → IsDistinct IpAddr-discrete m
    → IsBounded (evict (keys m) m) × (length (evict (keys m) m).next_allowed < max_tracked_ips)
unfolding evict
evict-IsBounded [] d = (record { queued = refl; distinct = tt; bounded = omega arith }, omega arith)
evict-IsBounded ((k, v) ∷ m) d = elim (Bool-cases (leb max_tracked_ips (length ((k, v) ∷ m)))) [
  | inl full ↦ rw (full, evict) (rw (remove-head IpAddr-discrete k v m d.0) (evict-IsBounded m d.1))
  | inr room ↦
      rw (room, evict)
        (record { queued = refl; distinct = d; bounded = ground arith }, ground arith)
]

pub make_room-IsBounded :
    (i : Inner)
    → IsBounded i
    → IsBounded (make_room i) × (length (make_room i).next_allowed < max_tracked_ips)
unfolding make_room
make_room-IsBounded i v = rw v.queued (ground (arith, evict-IsBounded i.next_allowed v.distinct))

admit_new-IsBounded :
    (ip : IpAddr) (now : ℕ) (i : Inner)
    → get IpAddr-discrete ip i.next_allowed ≡ none
    → length i.next_allowed < max_tracked_ips
    → IsBounded i
    → IsBounded (admit ip now true i)
unfolding admit
admit_new-IsBounded ip now i h room v = record {
  queued = rw (keys-insert_new IpAddr-discrete ip _ i.next_allowed h, v.queued);
  distinct = IsDistinct-insert IpAddr-discrete ip _ i.next_allowed v.distinct;
  bounded = omega (arith, length-insert_new IpAddr-discrete ip _ i.next_allowed h);
}

admit_known-IsBounded :
    (ip : IpAddr) (now : ℕ) (i : Inner)
    → is_some (get IpAddr-discrete ip i.next_allowed) ≡ true
    → IsBounded i
    → IsBounded (admit ip now false i)
unfolding admit
admit_known-IsBounded ip now i h v = record {
  queued = rw (keys-insert_known IpAddr-discrete ip _ i.next_allowed h, v.queued);
  distinct = IsDistinct-insert IpAddr-discrete ip _ i.next_allowed v.distinct;
  bounded = rw (length-insert_known IpAddr-discrete ip _ i.next_allowed h) v.bounded;
}

-- An address that is not tracked is not tracked after an eviction.
evict-untracked :
    (ip : IpAddr) (m : HashMap IpAddr ℕ)
    → IsDistinct IpAddr-discrete m
    → get IpAddr-discrete ip m ≡ none
    → get IpAddr-discrete ip (evict (keys m) m).next_allowed ≡ none
unfolding evict
evict-untracked ip [] d h = h
evict-untracked ip ((k, v) ∷ m) d h =
    elim (Bool-cases (leb max_tracked_ips (length ((k, v) ∷ m)))) [
      | inl full ↦
          rw (full, evict)
            (rw (remove-head IpAddr-discrete k v m d.0)
              (evict-untracked ip m d.1 (unfold get in ground arith)))
      | inr room ↦ rw (room, evict) h
    ]

pub make_room-untracked :
    (ip : IpAddr) (i : Inner)
    → IsBounded i
    → get IpAddr-discrete ip i.next_allowed ≡ none
    → get IpAddr-discrete ip (make_room i).next_allowed ≡ none
unfolding make_room
make_room-untracked ip i v h =
    rw v.queued (ground (arith, evict-untracked ip i.next_allowed v.distinct))

pub check_and_record-IsBounded :
    (ip : IpAddr) (now : ℕ) (s : RateLimiter)
    → IsBounded s.state
    → IsBounded (check_and_record ip now s).1.state
unfolding check_and_record
check_and_record-IsBounded ip now s v = elim (Bool-cases s.poisoned) [
  | inl p ↦ rw p v
  | inr p ↦ rw p (elim (Option-cases (get IpAddr-discrete ip s.next_allowed)) [
    | inl e ↦
        rw (e, check_and_record)
          (admit_new-IsBounded ip now (make_room s.state) (make_room-untracked ip s.state v e)
            (make_room-IsBounded s.state v).1 (make_room-IsBounded s.state v).0)
    | inr (next, e) ↦
        rw (e, check_and_record)
          (elim (Bool-cases (ltb now next)) [
            | inl early ↦ rw early v
            | inr due ↦ rw due (admit_known-IsBounded ip now s.state (rw e) v)
          ])
  ])
]

-- Whatever the calls, the limiter never tracks more than `max_tracked_ips` addresses, and its
-- queue holds exactly the tracked addresses, each once, in the order of first sight.
pub run-IsBounded :
    (calls : List (IpAddr × ℕ)) (s : RateLimiter)
    → IsBounded s.state
    → IsBounded (run s calls).state
unfolding run
run-IsBounded [] s v = v
run-IsBounded ((ip, now) ∷ calls) s v =
    run-IsBounded calls (check_and_record ip now s).1 (check_and_record-IsBounded ip now s v)
