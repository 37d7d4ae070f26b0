-- ===== src/Keys/Immutable.antt =====
-- No handler for keys touches the Master's credentials, removes the Master or makes another one.
use simply_ip_exporter.Prelude.{
  ℕ, ◌≡◌, ◌≢◌, refl, sym, ap, subst, ◌∙◌, true, false, not, some, some-injective, List, [], ◌∷◌,
  filter, All, All-mapped, All-filter, arith, inl, inr, Bool-cases, ◌==◌, ==_iff,
}
use simply_ip_exporter.Entities.{ApiKey}
use simply_ip_exporter.Keys.{set_key}
use simply_ip_exporter.Keys.Ownership.{find_by_id-id}
use simply_ip_exporter.Support.{find_by_id}

-- The two fields that an update of the Master may change are taken from `m`.
abbrev pub with_binding : ApiKey → ApiKey → ApiKey
with_binding m k = record k { bound_ips = m.bound_ips; updated_at = m.updated_at }

-- `m` is in the table, unchanged but for its networks and the date of that change, and no other key is
-- a Master.
pub record IsKept (m : ApiKey) (ks : List ApiKey) : Type 0 where
  pub stored : ApiKey
  pub found : find_by_id m.id ks ≡ some stored
  pub unchanged : with_binding m stored ≡ m
  pub sole : All (λ k. k.is_master ≡ true → k.id ≡ m.id) ks

-- What a handler may make of the row `old`.
pub record Allowed (old key : ApiKey) : Type 0 where
  pub same_id : key.id ≡ old.id
  pub same_rank : key.is_master ≡ old.is_master
  pub master_bound : old.is_master ≡ true → with_binding old key ≡ old

find_by_id-set_key :
    (key : ApiKey) (ks : List ApiKey) {k : ApiKey}
    → find_by_id key.id ks ≡ some k
    → find_by_id key.id (set_key key ks) ≡ some key
unfolding find_by_id set_key
find_by_id-set_key key [] h = absurd cc
find_by_id-set_key key (j ∷ ks) h = elim (Bool-cases (j.id == key.id)) [
  | inl p ↦ rw p (rw ((==_iff key.id key.id).1 refl))
  | inr p ↦ rw p (rw p (find_by_id-set_key key ks (rw p at h)))
]

find_by_id-set_key_ne :
    (id : ℕ) (key : ApiKey) (ks : List ApiKey)
    → key.id ≢ id
    → find_by_id id (set_key key ks) ≡ find_by_id id ks
unfolding find_by_id set_key
find_by_id-set_key_ne id key [] h = refl
find_by_id-set_key_ne id key (j ∷ ks) h = ground (arith, find_by_id-set_key_ne id key ks h)

pub find_by_id-filter_ne :
    (id other : ℕ) (ks : List ApiKey)
    → other ≢ id
    → find_by_id id (filter (λ k. not (k.id == other)) ks) ≡ find_by_id id ks
unfolding find_by_id
find_by_id-filter_ne id other [] h = refl
find_by_id-filter_ne id other (j ∷ ks) h = elim (Bool-cases (j.id == other)) [
  | inl p ↦ rw p (ground (arith, find_by_id-filter_ne id other ks h))
  | inr p ↦ rw p (ground (arith, find_by_id-filter_ne id other ks h))
]

All-found :
    (P : ApiKey → Type 0) (id : ℕ) (ks : List ApiKey) (k : ApiKey)
    → All P ks
    → find_by_id id ks ≡ some k
    → P k
unfolding find_by_id
All-found P id [] k h e = absurd cc
All-found P id (j ∷ ks) k h e = elim (Bool-cases (j.id == id)) [
  | inl p ↦ subst P (some-injective (rw p at e)) h.0
  | inr p ↦ All-found P id ks k h.1 (rw p at e)
]

module _ (m : ApiKey) (master : m.is_master ≡ true) (ks : List ApiKey) (kept : IsKept m ks) where
  open kept use {stored, found, unchanged, sole}

  stored-rank : stored.is_master ≡ true
  stored-rank = ap (λ (k : ApiKey). k.is_master) unchanged ∙ master

  -- A row that is no Master is not the Master's.
  pub other_than :
      (id : ℕ) (old : ApiKey) → find_by_id id ks ≡ some old → old.is_master ≡ false → id ≢ m.id
  other_than id old e rank same =
      let f : find_by_id m.id ks ≡ some old = subst (λ i. find_by_id i ks ≡ some old) same e in
      let o : stored ≡ old = some-injective (sym found ∙ f) in
      let r : old.is_master ≡ true = subst (λ (k : ApiKey). k.is_master ≡ true) o stored-rank in
      let z : true ≡ false = sym r ∙ rank in cc

  pub set_key-IsKept :
      (id : ℕ) (old key : ApiKey)
      → find_by_id id ks ≡ some old
      → Allowed old key
      → IsKept m (set_key key ks)
  unfolding set_key
  set_key-IsKept id old key e allowed =
      let rank : key.is_master ≡ true → key.id ≡ m.id = λ r.
        allowed.same_id
        ∙ All-found (λ k. k.is_master ≡ true → k.id ≡ m.id) id ks old sole e
            (sym allowed.same_rank ∙ r) in
      let others : All (λ k. k.is_master ≡ true → k.id ≡ m.id) (set_key key ks) =
        All-mapped (λ k. k.is_master ≡ true → k.id ≡ m.id) (λ k. k.is_master ≡ true → k.id ≡ m.id) _
          (λ k h. elim (Bool-cases (k.id == key.id)) [ inl q ↦ rw q rank | inr q ↦ rw q h ]) ks
          sole in
      elim (Bool-cases (key.id == m.id)) [
        | inr q ↦ record {
          stored = stored;
          found = find_by_id-set_key_ne m.id key ks (λ s. ground arith) ∙ found;
          unchanged = unchanged;
          sole = others;
        }
        | inl q ↦
            let same : key.id ≡ m.id = (==_iff key.id m.id).0 q in
            let f : find_by_id key.id ks ≡ some stored =
              subst (λ i. find_by_id i ks ≡ some stored) (sym same) found in
            let i : old.id ≡ id = find_by_id-id id ks old e in
            let o : old ≡ stored = some-injective (
              sym e
              ∙ subst (λ i. find_by_id i ks ≡ some stored)
                  (sym (sym i ∙ sym allowed.same_id ∙ same)) found) in
            let r : old.is_master ≡ true = ap (λ (k : ApiKey). k.is_master) o ∙ stored-rank in
            record {
              stored = key;
              found =
                  subst (λ i. find_by_id i (set_key key ks) ≡ some key) same
                    (find_by_id-set_key key ks f);
              unchanged =
                  ap (with_binding m) (allowed.master_bound r) ∙ ap (with_binding m) o ∙ unchanged;
              sole = others;
            }
      ]

  pub insert-IsKept : (key : ApiKey) → key.id ≢ m.id → key.is_master ≡ false → IsKept m (key ∷ ks)
  unfolding find_by_id
  insert-IsKept key other rank = record {
    stored = stored;
    found = elim (Bool-cases (key.id == m.id)) [
      | inl q ↦ absurd (other ((==_iff key.id m.id).0 q))
      | inr q ↦ rw q found
    ];
    unchanged = unchanged;
    sole = (λ r. absurd (let z : true ≡ false = sym r ∙ rank in cc), sole);
  }

  pub remove-IsKept : (id : ℕ) → id ≢ m.id → IsKept m (filter (λ k. not (k.id == id)) ks)
  remove-IsKept id other = record {
    stored = stored;
    found = find_by_id-filter_ne m.id id ks other ∙ found;
    unchanged = unchanged;
    sole = All-filter (λ k. k.is_master ≡ true → k.id ≡ m.id) (λ k. not (k.id == id)) ks sole;
  }
