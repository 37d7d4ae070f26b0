-- ===== src/Replay/Verdict.antt =====
-- Pruning is invisible: it changes no verdict.
use simply_ip_exporter.Prelude.{
  ℕ, ◌+◌, ◌≡◌, Bool, true, not, ◌&&◌, Option, none, some, List, [], ◌∷◌, arith, ltb,
}
use simply_ip_exporter.Prelude.HashMap.{
  get, IsDistinct, get-retain, IsDistinct-retain, IsDistinct-insert,
}
use simply_ip_exporter.Replay.{
  SignatureId, SignatureId-discrete, ReplayGuard, prune_if_due, record_id, check_and_record, run,
}

-- No unexpired use is on record.
abbrev pub is_unused : ℕ → Option ℕ → Bool
is_unused now none = true
is_unused now (some expires_at) = not (ltb now expires_at)

abbrev pub IsValid : ReplayGuard → Type 0
IsValid g = IsDistinct SignatureId-discrete g.seen

prune_if_due-IsValid : (now : ℕ) (g : ReplayGuard) → IsValid g → IsValid (prune_if_due now g)
unfolding prune_if_due
prune_if_due-IsValid now g v =
    ground (arith, IsDistinct-retain SignatureId-discrete (λ (e : ℕ). ltb now e) g.seen v)

record_id-IsValid :
    (id : SignatureId) (now : ℕ) (g : ReplayGuard) → IsValid g → IsValid (record_id id now g).1
unfolding record_id
record_id-IsValid id now g v =
    ground (arith, IsDistinct-insert SignatureId-discrete id (now + g.window) g.seen v)

check_and_record-IsValid :
    (id : SignatureId) (now : ℕ) (g : ReplayGuard)
    → IsValid g
    → IsValid (check_and_record id now g).1
unfolding check_and_record
check_and_record-IsValid id now g v = ground (
  arith,
  record_id-IsValid id now (prune_if_due now g) (prune_if_due-IsValid now g v),
  prune_if_due-IsValid now g v,
)

pub run-IsValid :
    (calls : List (SignatureId × ℕ)) (g : ReplayGuard) → IsValid g → IsValid (run g calls)
unfolding run
run-IsValid [] g v = v
run-IsValid ((id, now) ∷ calls) g v =
    run-IsValid calls (check_and_record id now g).1 (check_and_record-IsValid id now g v)

is_unused-prune_if_due :
    (id : SignatureId) (now : ℕ) (g : ReplayGuard)
    → IsValid g
    → is_unused now (get SignatureId-discrete id (prune_if_due now g).seen)
      ≡ is_unused now (get SignatureId-discrete id g.seen)
unfolding prune_if_due
is_unused-prune_if_due id now g v =
    ground (arith, get-retain SignatureId-discrete (λ (e : ℕ). ltb now e) id g.seen v)

record_id-verdict :
    (id : SignatureId) (now : ℕ) (g : ReplayGuard)
    → (record_id id now g).0 ≡ is_unused now (get SignatureId-discrete id g.seen)
unfolding record_id
record_id-verdict id now g = ground arith

poisoned-prune_if_due :
    (now : ℕ) (g : ReplayGuard) → (prune_if_due now g).seen_poisoned ≡ g.seen_poisoned
unfolding prune_if_due
poisoned-prune_if_due now g = ground arith

-- In a guard whose map has each key once, a call accepts exactly when the lock is sound and no unexpired use
-- of the signature is on record before the call: whether the call prunes never matters.
pub check_and_record-verdict :
    (id : SignatureId) (now : ℕ) (g : ReplayGuard)
    → IsValid g
    → (check_and_record id now g).0
      ≡ (not g.seen_poisoned && is_unused now (get SignatureId-discrete id g.seen))
unfolding check_and_record
check_and_record-verdict id now g v = ground (
  arith,
  poisoned-prune_if_due now g,
  record_id-verdict id now (prune_if_due now g),
  is_unused-prune_if_due id now g v,
)
