-- ===== src/Keys/Ownership.antt =====
-- Endpoints keep an owner when a key is deleted.
use simply_ip_exporter.Prelude.{
  ℕ, ◌≡◌, refl, sym, subst, ap, ap₂, ◌∙◌, true, false, not, Option, none, some, List, [], ◌∷◌, map,
  filter, is_empty, arith, Bool-cases, inl, inr, ◌==◌, ==_iff, if◌then◌else◌,
}
use simply_ip_exporter.Prelude.Result.{
  ok, err, Result-cases, >>=-eq-ok, ok_or, ok_or-ok, ok-injective, ◌>>=◌,
}
use simply_ip_exporter.Prelude.Net.{IpNets}
use simply_ip_exporter.Crypto.{Primitives, SecretCipher}
use simply_ip_exporter.Entities.{ApiKey, Endpoint, Db}
use simply_ip_exporter.Error.{conflict_with_details, invalid_input, reassign_to_missing}
use simply_ip_exporter.Keys.{
  set_null, delete_key, reassign, unown_endpoint, reassign_target, reassign_endpoints,
  delete_transaction, delete_api_key, deletable, commit_deletion,
}
use simply_ip_exporter.Support.{Display, Call, query, create_audit_log, find_by_id, is_owned}

pub owners : List Endpoint → List (Option ℕ)
owners es = map (λ e. e.owner_key_id) es

abbrev moved : ℕ → ℕ → Option ℕ → Option ℕ
moved id target owner = if is_owned id owner then some target else owner

-- The owners after the deletion of the key `id`: those of its endpoints are the named key, and all
-- others stay.
abbrev pub handed_over : ℕ → Option ℕ → List (Option ℕ) → List (Option ℕ)
handed_over id none os = os
handed_over id (some target) os = map (moved id target) os

pub find_by_id-id : (id : ℕ) (ks : List ApiKey) (k : ApiKey) → find_by_id id ks ≡ some k → k.id ≡ id
unfolding find_by_id
find_by_id-id id [] k h = cc
find_by_id-id id (j ∷ ks) k h = elim (Bool-cases (j.id == id)) [
  | inl p ↦
      let h' : some j ≡ some k = rw p at h in
      let e : j ≡ k = cc in ap (λ k. k.id) (sym e) ∙ (==_iff j.id id).0 p
  | inr p ↦ find_by_id-id id ks k (rw p at h)
]

find_by_id-deleted :
    (id : ℕ) (ks : List ApiKey) → find_by_id id (filter (λ k. not (k.id == id)) ks) ≡ none
unfolding find_by_id
find_by_id-deleted id [] = refl
find_by_id-deleted id (k ∷ ks) = elim (Bool-cases (k.id == id)) [
  | inl p ↦ rw p (find_by_id-deleted id ks)
  | inr p ↦ rw p (rw p (find_by_id-deleted id ks))
]

-- With a target, its endpoints are the target's.
owners-reassign :
    (id target now : ℕ) (es : List Endpoint)
    → is_owned id (some target) ≡ false
    → owners (map (unown_endpoint id) (reassign id target now es))
      ≡ map (moved id target) (owners es)
unfolding owners reassign set_null is_owned
owners-reassign id target now [] h = refl
owners-reassign id target now (e ∷ es) h = ground (arith, owners-reassign id target now es h)

-- Without one, there are none.
unowned : (id : ℕ) (o : Option ℕ) → is_owned id o ≡ false → set_null id o ≡ o
unfolding set_null is_owned
unowned id none h = refl
unowned id (some owner) h = rw h

owners-unowned :
    (id : ℕ) (es : List Endpoint)
    → is_empty (filter (λ e. is_owned id e.owner_key_id) es) ≡ true
    → owners (map (unown_endpoint id) es) ≡ owners es
unfolding owners set_null is_owned
owners-unowned id [] h = refl
owners-unowned id (e ∷ es) h = elim (Bool-cases (is_owned id e.owner_key_id)) [
  | inl p ↦ absurd (let h' : false ≡ true = rw p at h in cc)
  | inr p ↦ ap₂ (◌∷◌) (unowned id e.owner_key_id p) (owners-unowned id es (rw p at h))
]

module _ (nets : IpNets) (prims : Primitives) (cipher : SecretCipher prims.Cipher)
    (display : Display) where
  reassigned-owners :
      (c : Call) (id : ℕ) (reassign_to : Option ℕ) (db : Db) (target : Option ApiKey) (db' : Db)
      → is_owned id reassign_to ≡ false
      → reassign_target nets prims cipher display c id reassign_to db ≡ ok target
      → reassign_endpoints nets prims cipher display c id target db ≡ ok db'
      → owners (map (unown_endpoint id) db'.endpoints)
        ≡ handed_over id reassign_to (owners db.endpoints)
  unfolding reassign_target reassign_endpoints
  reassigned-owners c id none db target db' h p q =
      let owned = filter (λ e. is_owned id e.owner_key_id) db.endpoints in
      elim (Bool-cases (is_empty owned)) [
        | inr f ↦ absurd (
            let h' : err (conflict_with_details (map (λ e. (e.id, e.name)) owned)) ≡ ok target =
              rw (f, reassign_target) at p in
            cc)
        | inl f ↦
            let h' : ok none ≡ ok target = rw (f, reassign_target) at p in
            let e : none ≡ target = cc in
            let q' : reassign_endpoints nets prims cipher display c id none db ≡ ok db' =
              subst (λ t. reassign_endpoints nets prims cipher display c id t db ≡ ok db') (sym e)
                q in
            let e' : db ≡ db' = ok-injective q' in
            subst (λ d. owners (map (unown_endpoint id) d.endpoints) ≡ owners db.endpoints) e'
              (owners-unowned id db.endpoints f)
      ]
  reassigned-owners c id (some target_id) db target db' h p q =
      let (u, a, p₁) =
        >>=-eq-ok (query c 3)
          (λ u.
            ok_or (find_by_id target_id db.api_keys) (invalid_input reassign_to_missing) >>= λ t.
            ok (some t))
          p in
      let (t, b, p₂) =
        >>=-eq-ok (ok_or (find_by_id target_id db.api_keys) (invalid_input reassign_to_missing))
          (λ t. ok (some t)) p₁ in
      let same : t.id ≡ target_id =
        find_by_id-id target_id db.api_keys t
          (ok_or-ok (find_by_id target_id db.api_keys) (invalid_input reassign_to_missing) b) in
      let q' : reassign_endpoints nets prims cipher display c id (some t) db ≡ ok db' =
        subst (λ t. reassign_endpoints nets prims cipher display c id t db ≡ ok db')
          (sym (ok-injective p₂)) q in
      let (u', d, q₁) =
        >>=-eq-ok (query c 4)
          (λ u. ok (record db { endpoints = reassign id t.id c.now db.endpoints })) q' in
      let e : reassign id t.id c.now db.endpoints ≡ db'.endpoints =
        ap (λ d. d.endpoints) (ok-injective q₁) in
      rw (← e) (rw same (owners-reassign id target_id c.now db.endpoints h))

  -- What a successful transaction went through.
  deleted :
      (c : Call) (id : ℕ) (reassign_to : Option ℕ) (db db' : Db)
      → delete_transaction nets prims cipher display c id reassign_to db ≡ ok db'
      → (target : Option ApiKey) × (between : Db) × (is_owned id reassign_to ≡ false)
        × (reassign_target nets prims cipher display c id reassign_to db ≡ ok target)
        × (reassign_endpoints nets prims cipher display c id target db ≡ ok between)
        × (db'.api_keys ≡ filter (λ k. not (k.id == id)) between.api_keys)
        × (db'.endpoints ≡ map (unown_endpoint id) between.endpoints)
  unfolding delete_transaction deletable commit_deletion delete_key create_audit_log
  deleted c id reassign_to db db' h =
      elim (Result-cases (reassign_target nets prims cipher display c id reassign_to db)) [
        | inl (e, p) ↦ absurd (ground arith)
        | inr (target, p) ↦
            elim (Result-cases (reassign_endpoints nets prims cipher display c id target db)) [
              | inl (e, q) ↦ absurd (ground arith)
              | inr (between, q) ↦ (target, between, ground arith, p, q, ground arith, ground arith)
            ]
      ]

  -- When a key is deleted, it is gone and every endpoint has the owner that it had, but for its own
  -- endpoints, which belong to the key that the request names; with none named, it owned none.
  pub delete_api_key_lem :
      (c : Call) (id : ℕ) (reassign_to : Option ℕ) (db : Db)
      → (delete_api_key nets prims cipher display c id reassign_to db).0 ≡ ok tt
      → (find_by_id id (delete_api_key nets prims cipher display c id reassign_to db).1.api_keys
          ≡ none)
        × (owners (delete_api_key nets prims cipher display c id reassign_to db).1.endpoints
            ≡ handed_over id reassign_to (owners db.endpoints))
  unfolding delete_api_key
  delete_api_key_lem c id reassign_to db h =
      elim (Result-cases (delete_transaction nets prims cipher display c id reassign_to db)) [
        | inl (e, p) ↦ absurd (let h' : err e ≡ ok tt = rw (p, delete_api_key) at h in cc)
        | inr (db', p) ↦
            let (target, between, other, t, r, keys, rows) = deleted c id reassign_to db db' p in
            rw (p, delete_api_key)
              (
                rw keys (find_by_id-deleted id between.api_keys),
                rw rows (reassigned-owners c id reassign_to db target between other t r),
              )
      ]
