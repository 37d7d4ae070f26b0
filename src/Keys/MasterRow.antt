-- ===== src/Keys/MasterRow.antt =====
-- Each handler for keys, against the row of the Master.
use simply_ip_exporter.Prelude.{
  ℕ, ◌≡◌, ◌≢◌, refl, sym, ap, subst, ◌∙◌, Bool, true, false, ◌&&◌, ◌||◌, Option, none, some,
  is_some, is_empty, arith, inl, inr, Bool-cases,
}
use simply_ip_exporter.Prelude.Net.{IpNets}
use simply_ip_exporter.Prelude.Result.{
  Result-cases, ok, ok_or, ok_or-ok, refuse_if, refuse_if-ok, map_err, ◌>>◌, Holds, Holds-of,
  Holds_of_eq-ok, Holds-trivial, >>=-Holds, >>-Holds,
}
use simply_ip_exporter.Prelude.Text.{Text, trim}
use simply_ip_exporter.Crypto.{Primitives, SecretCipher, seal}
use simply_ip_exporter.Entities.{ApiKey, Db}
use simply_ip_exporter.Error.{not_found, forbidden, master_immutable, master_not_rotated, internal}
use simply_ip_exporter.Keys.{
  CreateKeyPayload, UpdateKeyPayload, new_key, create_api_key, update_api_key, rotate_api_key,
  rotate_signing_secret, write_and_audit, existing, updated_key, rotated_key, resigned_key,
  update_name, update_bound_ips, update_can_manage, set_key,
}
use simply_ip_exporter.Keys.Immutable.{IsKept, Allowed, with_binding, set_key-IsKept, insert-IsKept}
use simply_ip_exporter.Support.{
  Call, Display, find_by_id, query, require_master, guard_master_update,
  guard_master_delete_or_rotate, create_audit_log, check_bound_ips, check_all,
}

module _ (nets : IpNets) (prims : Primitives) (cipher : SecretCipher prims.Cipher)
    (display : Display) where
  -- The row with the id of a call.
  abbrev pub Found : ℕ → Db → ApiKey → Type 0
  Found id db key = find_by_id id db.api_keys ≡ some key

  -- A row that the call may write in place of the one that it found.
  abbrev Rewrites : ℕ → Db → ApiKey → Type 0
  Rewrites id db key = (old : ApiKey) × Found id db old × Allowed old key

  pub existing-Found :
      (c : Call) (id : ℕ) (db : Db)
      → Holds (Found id db) (existing nets prims cipher display c id db)
  unfolding existing
  existing-Found c id db =
      >>-Holds (Found id db) (require_master c.caller >> query c 0) _ λ u answered.
        Holds-of (Found id db) (ok_or (find_by_id id db.api_keys) not_found)
          λ key e. ok_or-ok (find_by_id id db.api_keys) not_found e

  -- With no name given the row stays.
  abbrev Named : Option Text → ApiKey → ApiKey → Type 0
  Named name key k =
      (k.id ≡ key.id) × (k.is_master ≡ key.is_master) × (is_some name ≡ false → k ≡ key)

  update_name-Named :
      (name : Option Text) (key : ApiKey)
      → Holds (Named name key) (update_name nets prims cipher display name key)
  unfolding update_name
  update_name-Named none key = (refl, refl, λ h. refl)
  update_name-Named (some name) key =
      >>-Holds (Named (some name) key) (refuse_if (is_empty (trim name)) _) _
        λ u h. (refl, refl, λ z. absurd cc)

  abbrev Rebound : ApiKey → ApiKey → Type 0
  Rebound key k =
      (k.id ≡ key.id)
      × (k.is_master ≡ key.is_master)
      × ((x : ApiKey) → with_binding x k ≡ with_binding x key)

  update_bound_ips-Rebound :
      (given : Option Text) (key : ApiKey)
      → Holds (Rebound key) (update_bound_ips nets prims cipher display given key)
  unfolding update_bound_ips
  update_bound_ips-Rebound none key = (refl, refl, λ x. refl)
  update_bound_ips-Rebound (some given) key = elim (Bool-cases (is_empty (trim given))) [
    | inl p ↦ rw p (refl, refl, λ x. refl)
    | inr p ↦ rw p (
        >>-Holds (Rebound key) (check_bound_ips nets (trim given)) _ λ u h. (refl, refl, λ x. refl))
  ]

  -- An update of a Master names neither field that it must keep.
  guarded :
      (key : ApiKey) (a b : Bool) (u : Unit {0})
      → guard_master_update key a b ≡ ok u
      → key.is_master ≡ true
      → (a ≡ false) × (b ≡ false)
  unfolding guard_master_update
  guarded key a b u h r =
      let g = refuse_if-ok (key.is_master && (a || b)) (forbidden master_immutable) u h in
      (ground arith, ground arith)

  can_manage-rank :
      (given : Option Bool) (key : ApiKey)
      → ((update_can_manage nets prims cipher display given key).id ≡ key.id)
        × ((update_can_manage nets prims cipher display given key).is_master ≡ key.is_master)
        × (is_some given ≡ false → update_can_manage nets prims cipher display given key ≡ key)
  unfolding update_can_manage
  can_manage-rank none key = (refl, refl, λ h. refl)
  can_manage-rank (some b) key = (refl, refl, λ h. absurd cc)

  updated_key-Rewrites :
      (c : Call) (id : ℕ) (payload : UpdateKeyPayload) (db : Db)
      → Holds (Rewrites id db) (updated_key nets prims cipher display c id payload db)
  unfolding updated_key
  updated_key-Rewrites c id payload db =
      >>=-Holds (Found id db) (Rewrites id db) (existing nets prims cipher display c id db) _
        (existing-Found c id db)
        λ key found.
          >>-Holds (Rewrites id db)
            (guard_master_update key (is_some payload.name) (is_some payload.can_manage_keys)) _
            λ u h.
              >>=-Holds (Named payload.name key) (Rewrites id db)
                (update_name nets prims cipher display payload.name key) _
                (update_name-Named payload.name key)
                λ named n.
                  >>=-Holds (Rebound named) (Rewrites id db)
                    (update_bound_ips nets prims cipher display payload.bound_ips named) _
                    (update_bound_ips-Rebound payload.bound_ips named)
                    λ bound b. >>-Holds (Rewrites id db) (query c 1) _ λ v answered.
                      let m = can_manage-rank payload.can_manage_keys bound in
                      (
                        key,
                        found,
                        record {
                          same_id = m.0 ∙ b.0 ∙ n.0;
                          same_rank = m.1 ∙ b.1 ∙ n.1;
                          master_bound = λ r.
                              let g =
                                guarded key (is_some payload.name) (is_some payload.can_manage_keys)
                                  u h r in
                              ap (with_binding key) (m.2 g.1)
                              ∙ b.2 key
                              ∙ ap (with_binding key) (n.2 g.0);
                        },
                      )

  -- A guarded row is no Master, and neither is what is written for it.
  guard-plain :
      (key : ApiKey) (u : Unit {0})
      → guard_master_delete_or_rotate key master_not_rotated ≡ ok u
      → key.is_master ≡ false
  unfolding guard_master_delete_or_rotate
  guard-plain key u h = refuse_if-ok key.is_master (forbidden master_not_rotated) u h

  plain-Allowed :
      (old key : ApiKey)
      → old.is_master ≡ false
      → key.id ≡ old.id
      → key.is_master ≡ old.is_master
      → Allowed old key
  plain-Allowed old key plain i r = record {
    same_id = i;
    same_rank = r;
    master_bound = λ master. absurd (let z : true ≡ false = sym master ∙ plain in cc);
  }

  rotated_key-Rewrites :
      (c : Call) (id : ℕ) (db : Db)
      → Holds (Rewrites id db) (rotated_key nets prims cipher display c id db)
  unfolding rotated_key
  rotated_key-Rewrites c id db =
      >>=-Holds (Found id db) (Rewrites id db) (existing nets prims cipher display c id db) _
        (existing-Found c id db)
        λ key found.
          >>-Holds (Rewrites id db) (guard_master_delete_or_rotate key master_not_rotated) _ λ u h.
            >>=-Holds (λ sealed. Unit {0}) (Rewrites id db)
              (map_err (λ e. internal) (seal prims cipher c.nonce c.signing_secret)) _
              (Holds-trivial (map_err (λ e. internal) (seal prims cipher c.nonce c.signing_secret)))
              λ sealed t.
                >>-Holds (Rewrites id db) (query c 1) _
                  λ v answered. (key, found, plain-Allowed key _ (guard-plain key u h) refl refl)

  resigned_key-Rewrites :
      (c : Call) (id : ℕ) (db : Db)
      → Holds (Rewrites id db) (resigned_key nets prims cipher display c id db)
  unfolding resigned_key
  resigned_key-Rewrites c id db =
      >>=-Holds (Found id db) (Rewrites id db) (existing nets prims cipher display c id db) _
        (existing-Found c id db)
        λ key found.
          >>-Holds (Rewrites id db) (guard_master_delete_or_rotate key master_not_rotated) _ λ u h.
            >>=-Holds (λ sealed. Unit {0}) (Rewrites id db)
              (map_err (λ e. internal) (seal prims cipher c.nonce c.signing_secret)) _
              (Holds-trivial (map_err (λ e. internal) (seal prims cipher c.nonce c.signing_secret)))
              λ sealed t.
                >>-Holds (Rewrites id db) (query c 1) _
                  λ v answered. (key, found, plain-Allowed key _ (guard-plain key u h) refl refl)

  -- A new key has the fresh id and is no Master.
  abbrev Plain : ℕ → ApiKey → Type 0
  Plain fresh key = (key.id ≡ fresh) × (key.is_master ≡ false)

  new_key-Plain :
      (c : Call) (payload : CreateKeyPayload)
      → Holds (Plain c.fresh_id) (new_key nets prims cipher display c payload)
  unfolding new_key
  new_key-Plain c payload =
      >>-Holds (Plain c.fresh_id)
        (require_master c.caller >> refuse_if (is_empty (trim payload.name)) _) _
        λ u named. >>-Holds (Plain c.fresh_id) (check_all nets _) _ λ v checked.
          >>=-Holds (λ sealed. Unit {0}) (Plain c.fresh_id)
            (map_err (λ e. internal) (seal prims cipher c.nonce c.signing_secret)) _
            (Holds-trivial (map_err (λ e. internal) (seal prims cipher c.nonce c.signing_secret)))
            λ sealed t. >>-Holds (Plain c.fresh_id) (query c 1) _ λ w answered. (refl, refl)

  keys-write_and_audit :
      (c : Call) (action details : Text) (key : ApiKey) (written : Db)
      → (write_and_audit nets prims cipher display c action details key written).1.api_keys
        ≡ written.api_keys
  unfolding write_and_audit create_audit_log
  keys-write_and_audit c action details key written = ground arith

  module _ (m : ApiKey) (master : m.is_master ≡ true) (db : Db) (kept : IsKept m db.api_keys)
      (c : Call) where
    rewritten :
        (id : ℕ) (key : ApiKey) (action details : Text)
        → Rewrites id db key
        → IsKept m
            (write_and_audit nets prims cipher display c action details key
              (record db { api_keys = set_key key db.api_keys })).1.api_keys
    rewritten id key action details (old, found, allowed) =
        subst (IsKept m) (sym (keys-write_and_audit c action details key _))
          (set_key-IsKept m master db.api_keys kept id old key found allowed)

    pub create_api_key-IsKept :
        (payload : CreateKeyPayload)
        → c.fresh_id ≢ m.id
        → IsKept m (create_api_key nets prims cipher display c payload db).1.api_keys
    unfolding create_api_key
    create_api_key-IsKept payload fresh =
        elim (Result-cases (new_key nets prims cipher display c payload)) [
          | inl (e, p) ↦ rw (p, create_api_key) kept
          | inr (key, p) ↦
              let (i, r) =
                Holds_of_eq-ok (Plain c.fresh_id) (new_key nets prims cipher display c payload)
                  (new_key-Plain c payload) p in
              rw (p, create_api_key)
                (subst (IsKept m) (sym (keys-write_and_audit c _ _ key _))
                  (insert-IsKept m master db.api_keys kept key (λ s. fresh (sym i ∙ s)) r))
        ]

    pub update_api_key-IsKept :
        (id : ℕ) (payload : UpdateKeyPayload)
        → IsKept m (update_api_key nets prims cipher display c id payload db).1.api_keys
    unfolding update_api_key
    update_api_key-IsKept id payload =
        elim (Result-cases (updated_key nets prims cipher display c id payload db)) [
          | inl (e, p) ↦ rw (p, update_api_key) kept
          | inr (key, p) ↦
              rw (p, update_api_key)
                (rewritten id key _ _ (
                  Holds_of_eq-ok (Rewrites id db)
                    (updated_key nets prims cipher display c id payload db)
                    (updated_key-Rewrites c id payload db) p))
        ]

    pub rotate_api_key-IsKept :
        (id : ℕ) → IsKept m (rotate_api_key nets prims cipher display c id db).1.api_keys
    unfolding rotate_api_key
    rotate_api_key-IsKept id = elim (Result-cases (rotated_key nets prims cipher display c id db)) [
      | inl (e, p) ↦ rw (p, rotate_api_key) kept
      | inr (key, p) ↦
          rw (p, rotate_api_key)
            (rewritten id key _ _ (
              Holds_of_eq-ok (Rewrites id db) (rotated_key nets prims cipher display c id db)
                (rotated_key-Rewrites c id db) p))
    ]

    pub rotate_signing_secret-IsKept :
        (id : ℕ) → IsKept m (rotate_signing_secret nets prims cipher display c id db).1.api_keys
    unfolding rotate_signing_secret
    rotate_signing_secret-IsKept id =
        elim (Result-cases (resigned_key nets prims cipher display c id db)) [
          | inl (e, p) ↦ rw (p, rotate_signing_secret) kept
          | inr (key, p) ↦
              rw (p, rotate_signing_secret)
                (rewritten id key _ _ (
                  Holds_of_eq-ok (Rewrites id db) (resigned_key nets prims cipher display c id db)
                    (resigned_key-Rewrites c id db) p))
        ]
