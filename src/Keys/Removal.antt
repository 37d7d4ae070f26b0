-- ===== src/Keys/Removal.antt =====
-- The deletion of a key never removes the Master.
use simply_ip_exporter.Prelude.{
  ℕ, ◌≡◌, refl, sym, ap, subst, false, true, not, Option, none, some, filter, inl, inr, ◌==◌,
}
use simply_ip_exporter.Prelude.Net.{IpNets}
use simply_ip_exporter.Prelude.Result.{
  Result-cases, ok, Holds, Holds-of, Holds_of_eq-ok, Holds-trivial, >>=-Holds, >>-Holds, >>-eq-ok,
  ok-injective, refuse_if-ok, refuse_if,
}
use simply_ip_exporter.Crypto.{Primitives, SecretCipher}
use simply_ip_exporter.Entities.{ApiKey, Db}
use simply_ip_exporter.Error.{forbidden, master_not_deleted, invalid_input, reassign_to_self}
use simply_ip_exporter.Keys.{
  existing, deletable, commit_deletion, delete_key, reassign_target, reassign_endpoints,
  delete_transaction, delete_api_key,
}
use simply_ip_exporter.Keys.Immutable.{IsKept, other_than, remove-IsKept}
use simply_ip_exporter.Keys.MasterRow.{Found, existing-Found}
use simply_ip_exporter.Support.{
  Call, Display, query, guard_master_delete_or_rotate, create_audit_log, is_owned,
}

module _ (nets : IpNets) (prims : Primitives) (cipher : SecretCipher prims.Cipher)
    (display : Display) where
  deletable-plain :
      (c : Call) (id : ℕ) (reassign_to : Option ℕ) (key : ApiKey) (u : Unit {0})
      → deletable nets prims cipher display c id reassign_to key ≡ ok u
      → key.is_master ≡ false
  unfolding deletable guard_master_delete_or_rotate
  deletable-plain c id reassign_to key u h =
      let ((u₃, h₃), p₃) = >>-eq-ok _ (query c 2) h in
      let ((u₂, h₂), p₂) = >>-eq-ok _ (query c 1) h₃ in
      let ((u₁, h₁), p₁) =
        >>-eq-ok (refuse_if key.is_master (forbidden master_not_deleted))
          (refuse_if (is_owned id reassign_to) (invalid_input reassign_to_self)) h₂ in
      refuse_if-ok key.is_master (forbidden master_not_deleted) u₁ h₁

  -- The keys are those that they were.
  abbrev SameKeys : Db → Db → Type 0
  SameKeys db db' = db'.api_keys ≡ db.api_keys

  reassign_endpoints-SameKeys :
      (c : Call) (id : ℕ) (target : Option ApiKey) (db : Db)
      → Holds (SameKeys db) (reassign_endpoints nets prims cipher display c id target db)
  unfolding reassign_endpoints
  reassign_endpoints-SameKeys c id none db = refl
  reassign_endpoints-SameKeys c id (some target) db =
      >>-Holds (SameKeys db) (query c 4) _ λ u answered. refl

  abbrev Without : ℕ → Db → Db → Type 0
  Without id db db' = db'.api_keys ≡ filter (λ k. not (k.id == id)) db.api_keys

  commit_deletion-Without :
      (c : Call) (id : ℕ) (key : ApiKey) (target : Option ApiKey) (count : ℕ) (db : Db)
      → Holds (Without id db) (commit_deletion nets prims cipher display c id key target count db)
  unfolding commit_deletion delete_key create_audit_log
  commit_deletion-Without c id key target count db =
      Holds-of (Without id db) (commit_deletion nets prims cipher display c id key target count db)
        λ db' e. let (u, p) = >>-eq-ok _ _ e in sym (ap (λ (d : Db). d.api_keys) (ok-injective p))

  module _ (m : ApiKey) (master : m.is_master ≡ true) (db : Db) (kept : IsKept m db.api_keys)
      (c : Call) where
    abbrev KeepsMaster : Db → Type 0
    KeepsMaster db' = IsKept m db'.api_keys

    delete_transaction-IsKept :
        (id : ℕ) (reassign_to : Option ℕ)
        → Holds KeepsMaster (delete_transaction nets prims cipher display c id reassign_to db)
    unfolding delete_transaction
    delete_transaction-IsKept id reassign_to =
        >>=-Holds (Found nets prims cipher display id db) KeepsMaster
          (existing nets prims cipher display c id db) _
          (existing-Found nets prims cipher display c id db)
          λ key found.
            >>-Holds KeepsMaster (deletable nets prims cipher display c id reassign_to key) _ λ u h.
              >>=-Holds (λ target. Unit {0}) KeepsMaster
                (reassign_target nets prims cipher display c id reassign_to db) _
                (Holds-trivial (reassign_target nets prims cipher display c id reassign_to db))
                λ target named.
                  >>=-Holds (SameKeys db) KeepsMaster
                    (reassign_endpoints nets prims cipher display c id target db)
                    (λ reassigned.
                      commit_deletion nets prims cipher display c id key target _ reassigned)
                    (reassign_endpoints-SameKeys c id target db)
                    λ reassigned same.
                      Holds-of KeepsMaster
                        (commit_deletion nets prims cipher display c id key target _ reassigned)
                        λ db' e.
                          let left =
                            Holds_of_eq-ok (Without id reassigned)
                              (commit_deletion nets prims cipher display c id key target _
                                reassigned)
                              (commit_deletion-Without c id key target _ reassigned) e in
                          let other =
                            other_than m master db.api_keys kept id key found
                              (deletable-plain c id reassign_to key u h) in
                          subst (IsKept m) (sym left) (
                            subst (λ ks. IsKept m (filter (λ k. not (k.id == id)) ks)) (sym same)
                              (remove-IsKept m master db.api_keys kept id other))

    pub delete_api_key-IsKept :
        (id : ℕ) (reassign_to : Option ℕ)
        → IsKept m (delete_api_key nets prims cipher display c id reassign_to db).1.api_keys
    unfolding delete_api_key
    delete_api_key-IsKept id reassign_to =
        elim (Result-cases (delete_transaction nets prims cipher display c id reassign_to db)) [
          | inl (e, p) ↦ rw (p, delete_api_key) kept
          | inr (db', p) ↦
              rw (p, delete_api_key)
                (Holds_of_eq-ok KeepsMaster
                  (delete_transaction nets prims cipher display c id reassign_to db)
                  (delete_transaction-IsKept id reassign_to) p)
        ]
