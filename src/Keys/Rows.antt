-- ===== src/Keys/Rows.antt =====
-- What the handlers for keys do to the rows of the other tables.
use simply_ip_exporter.Prelude.{
  ℕ, ◌≡◌, ap, subst, Option, none, some, List, All, All-mapped, arith, inl, inr, Bool-cases,
}
use simply_ip_exporter.Prelude.Net.{IpNets}
use simply_ip_exporter.Prelude.Result.{
  Result-cases, Holds, >>-Holds, >>=-Holds, Holds-trivial, Holds-of, Holds_of_eq-ok, >>-eq-ok,
  ok-injective,
}
use simply_ip_exporter.Crypto.{Primitives, SecretCipher}
use simply_ip_exporter.Entities.{ApiKey, Endpoint, Db}
use simply_ip_exporter.Keys.{
  CreateKeyPayload, UpdateKeyPayload, create_api_key, update_api_key, rotate_api_key,
  rotate_signing_secret, write_and_audit, delete_api_key, delete_transaction, reassign_endpoints,
  reassign, unown_endpoint, delete_key, reassign_target, existing, deletable, commit_deletion,
}
use simply_ip_exporter.Support.{Call, Display, create_audit_log, query, is_owned}

-- Endpoints and grants as they were.
abbrev pub Untouched : Db → Db → Type 0
Untouched db db' =
    (db'.endpoints ≡ db.endpoints) × (db'.vault_group_permissions ≡ db.vault_group_permissions)

module _ (nets : IpNets) (prims : Primitives) (cipher : SecretCipher prims.Cipher)
    (display : Display) where
  module _ (c : Call) (db : Db) where
    pub create_api_key-Untouched :
        (payload : CreateKeyPayload)
        → Untouched db (create_api_key nets prims cipher display c payload db).1
    unfolding create_api_key write_and_audit create_audit_log
    create_api_key-Untouched payload = ground arith

    pub update_api_key-Untouched :
        (id : ℕ) (payload : UpdateKeyPayload)
        → Untouched db (update_api_key nets prims cipher display c id payload db).1
    unfolding update_api_key write_and_audit create_audit_log
    update_api_key-Untouched id payload = ground arith

    pub rotate_api_key-Untouched :
        (id : ℕ) → Untouched db (rotate_api_key nets prims cipher display c id db).1
    unfolding rotate_api_key write_and_audit create_audit_log
    rotate_api_key-Untouched id = ground arith

    pub rotate_signing_secret-Untouched :
        (id : ℕ) → Untouched db (rotate_signing_secret nets prims cipher display c id db).1
    unfolding rotate_signing_secret write_and_audit create_audit_log
    rotate_signing_secret-Untouched id = ground arith

  -- A deletion changes of an endpoint the owner and the date of its last change.
  module _ (P : Endpoint → Type 0)
      (reowned : (e : Endpoint) (owner : Option ℕ) (at : ℕ)
        → P e
        → P (record e { owner_key_id = owner; updated_at = at })) where
    reassign-All :
        (id target now : ℕ) (es : List Endpoint) → All P es → All P (reassign id target now es)
    unfolding reassign
    reassign-All id target now es h =
        All-mapped P P _
          (λ e p. elim (Bool-cases (is_owned id e.owner_key_id)) [
            | inl q ↦ rw q (reowned e (some target) now p)
            | inr q ↦ rw q p
          ])
          es h

    reassign_endpoints-All :
        (c : Call) (id : ℕ) (target : Option ApiKey) (db : Db)
        → All P db.endpoints
        → Holds
            (λ (db' : Db). All P db'.endpoints)
            (reassign_endpoints nets prims cipher display c id target db)
    unfolding reassign_endpoints
    reassign_endpoints-All c id none db h = h
    reassign_endpoints-All c id (some target) db h =
        >>-Holds (λ (db' : Db). All P db'.endpoints) (query c 4) _
          λ u answered. reassign-All id target.id c.now db.endpoints h

    -- The property of the endpoints of a database.
    abbrev Kept : Db → Type 0
    Kept db = All P db.endpoints

    commit_deletion-All :
        (c : Call) (id : ℕ) (key : ApiKey) (target : Option ApiKey) (count : ℕ) (db : Db)
        → All P db.endpoints
        → Holds Kept (commit_deletion nets prims cipher display c id key target count db)
    unfolding commit_deletion delete_key create_audit_log
    commit_deletion-All c id key target count db h =
        Holds-of Kept (commit_deletion nets prims cipher display c id key target count db) λ db' e.
          let (u, p) = >>-eq-ok _ _ e in
          subst (λ es. All P es) (ap (λ (d : Db). d.endpoints) (ok-injective p))
            (All-mapped P P (unown_endpoint id) (λ e p. reowned e _ e.updated_at p) db.endpoints h)

    delete_transaction-All :
        (c : Call) (id : ℕ) (reassign_to : Option ℕ) (db : Db)
        → All P db.endpoints
        → Holds Kept (delete_transaction nets prims cipher display c id reassign_to db)
    unfolding delete_transaction
    delete_transaction-All c id reassign_to db h =
        >>=-Holds (λ key. Unit {0}) Kept (existing nets prims cipher display c id db) _
          (Holds-trivial (existing nets prims cipher display c id db))
          λ key found.
            >>-Holds Kept (deletable nets prims cipher display c id reassign_to key) _ λ u guarded.
              >>=-Holds (λ target. Unit {0}) Kept
                (reassign_target nets prims cipher display c id reassign_to db) _
                (Holds-trivial (reassign_target nets prims cipher display c id reassign_to db))
                λ target named.
                  >>=-Holds Kept Kept (reassign_endpoints nets prims cipher display c id target db)
                    (λ reassigned.
                      commit_deletion nets prims cipher display c id key target _ reassigned)
                    (reassign_endpoints-All c id target db h)
                    λ reassigned kept. commit_deletion-All c id key target _ reassigned kept

    pub delete_api_key-All :
        (c : Call) (id : ℕ) (reassign_to : Option ℕ) (db : Db)
        → All P db.endpoints
        → All P (delete_api_key nets prims cipher display c id reassign_to db).1.endpoints
    unfolding delete_api_key
    delete_api_key-All c id reassign_to db h =
        elim (Result-cases (delete_transaction nets prims cipher display c id reassign_to db)) [
          | inl (e, p) ↦ rw (p, delete_api_key) h
          | inr (db', p) ↦
              rw (p, delete_api_key)
                (Holds_of_eq-ok Kept
                  (delete_transaction nets prims cipher display c id reassign_to db)
                  (delete_transaction-All c id reassign_to db h) p)
        ]
