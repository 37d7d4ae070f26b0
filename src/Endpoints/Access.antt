-- ===== src/Endpoints/Access.antt =====
-- A key that is not the Master publishes only groups that it was granted.
use simply_ip_exporter.Prelude.{
  ℕ, ◌≡◌, refl, sym, subst, ◌∙◌, Bool, true, false, not, ◌||◌, Option, none, some, List, [], ◌∷◌,
  filter, any, is_empty, is_yes, yes_of, All, All-map, Any, ◌⊎◌, inl, inr, Bool-cases, ◌==◌, ==_iff,
  if◌then◌else◌,
}
use simply_ip_exporter.Prelude.Net.{IpNets}
use simply_ip_exporter.Prelude.Result.{
  ok, refuse_if, refuse_if-ok, ◌>>◌, Holds, >>=-Holds, >>-Holds, >>-eq-ok,
}
use simply_ip_exporter.Prelude.Text.{Text, Text-discrete, entries_of}
use simply_ip_exporter.Endpoints.Payload.{UpdateEndpointPayload}
use simply_ip_exporter.Endpoints.Rules.{
  granted_group_names, contains_name, validate_groups, validate_group_access, managed,
}
use simply_ip_exporter.Endpoints.Changes.{
  update_name, update_description, update_groups, update_ttl, update_max_age, update_bound_ips,
  update_filters, updated_endpoint,
}
use simply_ip_exporter.Endpoints.Owned.{
  SameRow, Mine, managed-Mine, update_name-SameRow, update_description-SameRow, update_ttl-SameRow,
  update_max_age-SameRow, update_bound_ips-SameRow, written-SameRow,
}
use simply_ip_exporter.Entities.{ApiKey, Endpoint, VaultGroupPermission, Db}
use simply_ip_exporter.Error.{forbidden, groups_not_granted}
use simply_ip_exporter.Support.{Call, query}

-- A grant of the key names the group.
abbrev pub Granted : ApiKey → List VaultGroupPermission → Text → Type 0
Granted caller grants name =
    Any (λ g. (g.api_key_id ≡ caller.id) × (g.vault_group_name ≡ name)) grants

-- All groups of a `vault_groups` text are granted.
abbrev pub AllGranted : ApiKey → List VaultGroupPermission → Text → Type 0
AllGranted caller grants vault_groups = All (Granted caller grants) (entries_of vault_groups)

Granted-of :
    (caller : ApiKey) (name : Text) (grants : List VaultGroupPermission)
    → contains_name (granted_group_names caller.id grants) name ≡ true
    → Granted caller grants name
unfolding granted_group_names contains_name
Granted-of caller name [] h = absurd cc
Granted-of caller name (g ∷ grants) h = elim (Bool-cases (g.api_key_id == caller.id)) [
  | inr p ↦ inr (Granted-of caller name grants (rw p at h))
  | inl p ↦
      let t : is_yes (Text-discrete g.vault_group_name name)
            || any (λ n. is_yes (Text-discrete n name)) (granted_group_names caller.id grants)
          ≡ true =
        rw p at h in
      elim (Bool-cases (is_yes (Text-discrete g.vault_group_name name))) [
        | inl q ↦
            inl (
              (==_iff g.api_key_id caller.id).0 p,
              yes_of (Text-discrete g.vault_group_name name) q,
            )
        | inr q ↦ inr (Granted-of caller name grants (rw q at t))
      ]
]

none_refused :
    (p : Text → Bool) (names : List Text)
    → is_empty (filter (λ g. not (p g)) names) ≡ true
    → All (λ g. p g ≡ true) names
none_refused p [] h = tt
none_refused p (n ∷ names) h = elim (Bool-cases (p n)) [
  | inl q ↦ (q, none_refused p names (rw q at h))
  | inr q ↦ absurd (let h' : false ≡ true = rw q at h in cc)
]

not-false : (b : Bool) → not b ≡ false → b ≡ true
not-false true h = refl
not-false false h = absurd cc

module _ (c : Call) (daughter : c.caller.is_master ≡ false) (db : Db) where
  pub access_granted :
      (n : ℕ) (vault_groups : Text) (u : Unit {0})
      → validate_group_access c n vault_groups db ≡ ok u
      → AllGranted c.caller db.vault_group_permissions vault_groups
  unfolding validate_group_access
  access_granted n vault_groups u h =
      let granted = granted_group_names c.caller.id db.vault_group_permissions in
      let h' : (query c n
            >> refuse_if
                (not (
                  is_empty (filter (λ g. not (contains_name granted g)) (entries_of vault_groups))))
                (forbidden groups_not_granted))
          ≡ ok u =
        subst
          (λ b.
            (if b
              then ok tt
              else (query c n
                  >> refuse_if
                      (not (
                        is_empty
                          (filter (λ g. not (contains_name granted g)) (entries_of vault_groups))))
                      (forbidden groups_not_granted)))
            ≡ ok u)
          daughter h in
      let (_, k) = >>-eq-ok (query c n) _ h' in
      All-map (λ name e. Granted-of c.caller name db.vault_group_permissions e)
        (entries_of vault_groups)
        (none_refused (contains_name granted) (entries_of vault_groups)
          (not-false _ (refuse_if-ok _ (forbidden groups_not_granted) u k)))

  -- The groups stay, or the caller may name them all.
  abbrev pub Fair : Endpoint → Endpoint → Type 0
  Fair old ep =
      (ep.id ≡ old.id)
      × ((ep.vault_groups ≡ old.vault_groups)
          ⊎ AllGranted c.caller db.vault_group_permissions ep.vault_groups)

  update_groups-Fair :
      (groups : Option Text) (ep : Endpoint) → Holds (Fair ep) (update_groups c groups db ep)
  unfolding update_groups
  update_groups-Fair none ep = (refl, inl refl)
  update_groups-Fair (some groups) ep =
      >>-Holds (Fair ep) (validate_groups groups >> validate_group_access c 1 groups db) _
        λ u h. (refl, inr (access_granted 1 groups _ (>>-eq-ok (validate_groups groups) _ h).1))

  Fair-SameRow : (a b d : Endpoint) → SameRow a b → Fair b d → Fair a d
  Fair-SameRow a b d s (i, inl same) = (i ∙ s.0, inl (same ∙ s.2))
  Fair-SameRow a b d s (i, inr granted) = (i ∙ s.0, inr granted)

  SameRow-Fair : (a b d : Endpoint) → Fair a b → SameRow b d → Fair a d
  SameRow-Fair a b d (i, inl same) s = (s.0 ∙ i, inl (s.2 ∙ same))
  SameRow-Fair a b d (i, inr granted) s =
      (s.0 ∙ i, inr (subst (AllGranted c.caller db.vault_group_permissions) (sym s.2) granted))

  module _ (nets : IpNets) (id : ℕ) where
    abbrev pub FairChange : Endpoint → Type 0
    FairChange ep = (old : Endpoint) × Mine nets c daughter id db old × Fair old ep

    pub updated_endpoint-Fair :
        (payload : UpdateEndpointPayload) → Holds FairChange (updated_endpoint nets c id payload db)
    unfolding updated_endpoint
    updated_endpoint-Fair payload =
        >>=-Holds (Mine nets c daughter id db) FairChange (managed c id db) _
          (managed-Mine nets c daughter id db)
          λ ep mine.
            >>=-Holds (SameRow ep) FairChange (update_name payload.name ep) _
              (update_name-SameRow payload.name ep)
              λ named n.
                let described = update_description payload.description named in
                let d = update_description-SameRow payload.description named in
                >>=-Holds (Fair described) FairChange
                  (update_groups c payload.vault_groups db described) _
                  (update_groups-Fair payload.vault_groups described)
                  λ grouped g.
                    let f =
                      Fair-SameRow ep named grouped n (Fair-SameRow named described grouped d g) in
                    >>=-Holds (SameRow grouped) FairChange (update_ttl payload.ttl_seconds grouped)
                      _ (update_ttl-SameRow payload.ttl_seconds grouped)
                      λ timed t.
                        >>=-Holds (SameRow timed) FairChange
                          (update_max_age payload.max_age_seconds timed) _
                          (update_max_age-SameRow payload.max_age_seconds timed)
                          λ aged a.
                            >>=-Holds (SameRow aged) FairChange
                              (update_bound_ips nets payload.bound_ips aged) _
                              (update_bound_ips-SameRow nets payload.bound_ips aged)
                              λ bound b. >>-Holds FairChange (query c 2) _ λ u answered. (
                                ep,
                                mine,
                                SameRow-Fair ep bound
                                    (record (update_filters payload bound) { updated_at = c.now })
                                    (SameRow-Fair ep aged bound
                                      (SameRow-Fair ep timed aged
                                        (SameRow-Fair ep grouped timed f t) a)
                                      b)
                                    (written-SameRow nets payload c.now bound),
                              )
