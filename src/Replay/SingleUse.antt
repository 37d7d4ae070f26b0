-- ===== src/Replay/SingleUse.antt =====
-- A signature is accepted once in a window, whatever happens in between.
use simply_ip_exporter.Prelude.{
  ℕ, ◌+◌, ◌<◌, ◌≡◌, subst, true, false, some, List, [], ◌∷◌, arith, ltb, lt→ltb, inl, inr,
  Bool-cases,
}
use simply_ip_exporter.Prelude.HashMap.{get, get-insert, get-insert_self, get-retain-some}
use simply_ip_exporter.Replay.{
  SignatureId, SignatureId-discrete, ReplayGuard, prune_if_due, record_id, check_and_record, run,
}

-- `id` is remembered until `until`.
abbrev pub Remembers : SignatureId → ℕ → ReplayGuard → Type 0
Remembers id until g = get SignatureId-discrete id g.seen ≡ some until

prune_if_due-Remembers :
    (id : SignatureId) (until now : ℕ) (g : ReplayGuard)
    → now < until
    → Remembers id until g
    → Remembers id until (prune_if_due now g)
unfolding prune_if_due
prune_if_due-Remembers id until now g early h = ground (
  arith,
  get-retain-some SignatureId-discrete (λ (e : ℕ). ltb now e) id until g.seen h
      (lt→ltb now until early),
)

record_id-Remembers :
    (id other : SignatureId) (until now : ℕ) (g : ReplayGuard)
    → now < until
    → Remembers id until g
    → Remembers id until (record_id other now g).1
unfolding record_id
record_id-Remembers id other until now g early h =
    ground (arith, get-insert SignatureId-discrete other id (now + g.window) g.seen)

check_and_record-Remembers :
    (id other : SignatureId) (until now : ℕ) (g : ReplayGuard)
    → now < until
    → Remembers id until g
    → Remembers id until (check_and_record other now g).1
check_and_record-Remembers id other until now g early h =
    let p = prune_if_due-Remembers id until now g early h in
    elim (Bool-cases (prune_if_due now g).seen_poisoned) [
      | inl bad ↦ unfold check_and_record in rw bad p
      | inr good ↦
          unfold check_and_record in
          rw good (record_id-Remembers id other until now (prune_if_due now g) early p)
    ]

-- Every call comes before `until`.
abbrev pub AllBefore : ℕ → List (SignatureId × ℕ) → Type 0
AllBefore until [] = Unit
AllBefore until ((id, now) ∷ calls) = (now < until) × AllBefore until calls

run-Remembers :
    (id : SignatureId) (until : ℕ) (calls : List (SignatureId × ℕ)) (g : ReplayGuard)
    → AllBefore until calls
    → Remembers id until g
    → Remembers id until (run g calls)
unfolding run
run-Remembers id until [] g b h = h
run-Remembers id until ((other, now) ∷ calls) g b h =
    run-Remembers id until calls (check_and_record other now g).1 b.1
      (check_and_record-Remembers id other until now g b.0 h)

window-prune_if_due : (now : ℕ) (g : ReplayGuard) → (prune_if_due now g).window ≡ g.window
unfolding prune_if_due
window-prune_if_due now g = ground arith

record_id-accepted :
    (id : SignatureId) (now : ℕ) (g : ReplayGuard)
    → (record_id id now g).0 ≡ true
    → Remembers id (now + g.window) (record_id id now g).1
unfolding record_id
record_id-accepted id now g h =
    ground (arith, get-insert_self SignatureId-discrete id (now + g.window) g.seen)

accepted-Remembers :
    (id : SignatureId) (now : ℕ) (g : ReplayGuard)
    → (check_and_record id now g).0 ≡ true
    → Remembers id (now + g.window) (check_and_record id now g).1
unfolding check_and_record
accepted-Remembers id now g h = elim (Bool-cases (prune_if_due now g).seen_poisoned) [
  | inl bad ↦ cc
  | inr good ↦ rw good (
      subst (λ w. Remembers id (now + w) (record_id id now (prune_if_due now g)).1)
        (window-prune_if_due now g) (record_id-accepted id now (prune_if_due now g) (rw good at h)))
]

record_id-refused :
    (id : SignatureId) (until now : ℕ) (g : ReplayGuard)
    → now < until
    → Remembers id until g
    → (record_id id now g).0 ≡ false
unfolding record_id
record_id-refused id until now g early h = ground arith

remembered_refused :
    (id : SignatureId) (until now : ℕ) (g : ReplayGuard)
    → now < until
    → Remembers id until g
    → (check_and_record id now g).0 ≡ false
unfolding check_and_record
remembered_refused id until now g early h = elim (Bool-cases (prune_if_due now g).seen_poisoned) [
  | inl bad ↦ rw bad
  | inr good ↦ rw good (
      record_id-refused id until now (prune_if_due now g) early
        (prune_if_due-Remembers id until now g early h))
]

-- Once a signature is accepted at `now`, it is refused at every later instant before
-- `now + window`, whatever other calls come before that instant and whatever they prune.
pub accepted_once :
    (id : SignatureId) (now later : ℕ) (calls : List (SignatureId × ℕ)) (g : ReplayGuard)
    → (check_and_record id now g).0 ≡ true
    → AllBefore (now + g.window) calls
    → later < now + g.window
    → (check_and_record id later (run (check_and_record id now g).1 calls)).0 ≡ false
accepted_once id now later calls g h b soon =
    remembered_refused id (now + g.window) later (run (check_and_record id now g).1 calls) soon (
      run-Remembers id (now + g.window) calls (check_and_record id now g).1 b
        (accepted-Remembers id now g h))
