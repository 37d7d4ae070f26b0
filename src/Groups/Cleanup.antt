-- ===== src/Groups/Cleanup.antt =====
-- The cleanup removes exactly the grants of groups that a successful listing no longer has.
use simply_ip_exporter.Prelude.{
  ℕ, ◌≡◌, refl, sym, ap, subst, Bool, true, false, not, none, some, List, [], ◌∷◌, map, filter, any,
  is_empty, All, arith, inl, inr, Bool-cases, ◌==◌, ==-refl,
}
use simply_ip_exporter.Prelude.Result.{ok, err}
use simply_ip_exporter.Entities.{VaultGroupPermission, Db}
use simply_ip_exporter.Groups.{Listing, is_live, cleanup_stale_group_permissions}
use simply_ip_exporter.VaultClient.{VaultGroup}

abbrev HasId : VaultGroupPermission → VaultGroupPermission → Type 0
HasId g h = (g.id == h.id) ≡ false

-- Every id stands once: the primary key.
abbrev pub HasDistinctGrants : List VaultGroupPermission → Type 0
HasDistinctGrants [] = Unit
HasDistinctGrants (g ∷ gs) = All (HasId g) gs × HasDistinctGrants gs

-- The grants that a cleanup leaves.
abbrev pub survivors : Listing → Bool → Bool → List VaultGroupPermission → List VaultGroupPermission
survivors (some (ok live_groups)) true true grants = filter (is_live live_groups) grants
survivors (some (ok live_groups)) true false grants = grants
survivors (some (ok live_groups)) false deleted grants = grants
survivors (some (err e)) listed deleted grants = grants
survivors none listed deleted grants = grants

module _ (live_groups : List VaultGroup) where
  -- The ids that are deleted.
  abbrev stale : List VaultGroupPermission → List ℕ
  stale gs = map (λ g. g.id) (filter (λ g. not (is_live live_groups g)) gs)

  abbrev listed_among : List ℕ → VaultGroupPermission → Bool
  listed_among ids g = any (λ id. id == g.id) ids

  unlisted :
      (g : VaultGroupPermission) (gs : List VaultGroupPermission)
      → All (HasId g) gs
      → listed_among (stale gs) g ≡ false
  unlisted g [] h = refl
  unlisted g (x ∷ gs) h = elim (Bool-cases (is_live live_groups x)) [
    | inl p ↦ rw p (unlisted g gs h.1)
    | inr p ↦ let e : (x.id == g.id) ≡ false = ground arith in rw p (rw e (unlisted g gs h.1))
  ]

  -- A row is on the list exactly when its group is gone.
  abbrev Exact : List ℕ → VaultGroupPermission → Type 0
  Exact ids x = listed_among ids x ≡ not (is_live live_groups x)

  -- One more id, which is that of none of the rows.
  one_more :
      (g : VaultGroupPermission) (ids : List ℕ) (xs : List VaultGroupPermission)
      → All (HasId g) xs
      → All (Exact ids) xs
      → All (Exact (g.id ∷ ids)) xs
  one_more g ids [] d h = tt
  one_more g ids (x ∷ xs) d h = (rw d.0 h.0, one_more g ids xs d.1 h.1)

  exact : (gs : List VaultGroupPermission) → HasDistinctGrants gs → All (Exact (stale gs)) gs
  exact [] d = tt
  exact (g ∷ gs) d = elim (Bool-cases (is_live live_groups g)) [
    | inl p ↦
        let e : stale (g ∷ gs) ≡ stale gs = rw p in
        subst (λ ids. All (Exact ids) (g ∷ gs)) (sym e) (rw p (unlisted g gs d.0), exact gs d.1)
    | inr p ↦
        let e : stale (g ∷ gs) ≡ g.id ∷ stale gs = rw p in
        subst (λ ids. All (Exact ids) (g ∷ gs)) (sym e)
          (rw p (rw (==-refl g.id)), one_more g (stale gs) gs d.0 (exact gs d.1))
  ]

  same_filter :
      (p q : VaultGroupPermission → Bool) (gs : List VaultGroupPermission)
      → All (λ x. p x ≡ not (q x)) gs
      → filter (λ x. not (p x)) gs ≡ filter q gs
  same_filter p q [] h = refl
  same_filter p q (x ∷ gs) h = elim (Bool-cases (q x)) [
    | inl e ↦ rw h.0 (rw e (ap (◌∷◌ x) (same_filter p q gs h.1)))
    | inr e ↦ rw h.0 (rw e (same_filter p q gs h.1))
  ]

  none_stale :
      (gs : List VaultGroupPermission)
      → is_empty (stale gs) ≡ true
      → filter (is_live live_groups) gs ≡ gs
  none_stale [] h = refl
  none_stale (x ∷ gs) h = elim (Bool-cases (is_live live_groups x)) [
    | inl e ↦ rw e (ap (◌∷◌ x) (none_stale gs (rw e at h)))
    | inr e ↦ absurd (let h' : false ≡ true = rw e at h in cc)
  ]

  answered :
      (db : Db)
      → HasDistinctGrants db.vault_group_permissions
      → cleanup_stale_group_permissions (some (ok live_groups)) true true db ≡ record db {
        vault_group_permissions = filter (is_live live_groups) db.vault_group_permissions;
      }
  unfolding cleanup_stale_group_permissions
  answered db d =
      let gs = db.vault_group_permissions in
      elim (Bool-cases (is_empty (stale gs))) [
        | inl e ↦ rw e (
            ap (λ (g : List VaultGroupPermission). record db { vault_group_permissions = g })
              (sym (none_stale gs e)))
        | inr e ↦ rw e (
            ap (λ (g : List VaultGroupPermission). record db { vault_group_permissions = g })
              (same_filter (listed_among (stale gs)) (is_live live_groups) gs (exact gs d)))
      ]

-- A cleanup leaves exactly the grants of the groups that Vault lists, if Vault answers with a listing
-- and both queries succeed, where the ids of the grants are distinct; otherwise, with no client, a
-- failed listing or a failed query, it leaves every grant. It touches no other table.
pub cleanup_stale_group_permissions_lem :
    (vault : Listing) (found removed : Bool) (db : Db)
    → HasDistinctGrants db.vault_group_permissions
    → cleanup_stale_group_permissions vault found removed db ≡ record db {
      vault_group_permissions = survivors vault found removed db.vault_group_permissions;
    }
unfolding cleanup_stale_group_permissions
cleanup_stale_group_permissions_lem none found removed db d = refl
cleanup_stale_group_permissions_lem (some (err e)) found removed db d = refl
cleanup_stale_group_permissions_lem (some (ok live_groups)) false removed db d = refl
cleanup_stale_group_permissions_lem (some (ok live_groups)) true true db d =
    answered live_groups db d
cleanup_stale_group_permissions_lem (some (ok live_groups)) true false db d = ground arith
