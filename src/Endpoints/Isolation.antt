-- ===== src/Endpoints/Isolation.antt =====
-- A caller that is not the Master reaches only the endpoints that it owns.
use simply_ip_exporter.Prelude.{
  ℕ, ◌≡◌, refl, sym, ap, subst, ◌∙◌, true, false, not, none, some, some-injective, List, [], ◌∷◌,
  filter, arith, inl, inr, Bool-cases, ◌==◌, ==_iff,
}
use simply_ip_exporter.Endpoints.{delete_endpoint_row}
use simply_ip_exporter.Endpoints.Rules.{find_endpoint, set_endpoint}
use simply_ip_exporter.Entities.{ApiKey, Endpoint}
use simply_ip_exporter.Support.{is_owned}

-- The endpoints that are not the caller's.
abbrev pub foreign : ApiKey → List Endpoint → List Endpoint
foreign caller es = filter (λ e. not (is_owned caller.id e.owner_key_id)) es

-- Every id stands once: the primary key.
abbrev pub HasDistinctIds : List Endpoint → Type 0
HasDistinctIds [] = Unit
HasDistinctIds (e ∷ es) = (find_endpoint e.id es ≡ none) × HasDistinctIds es

pub find_endpoint-id :
    (id : ℕ) (es : List Endpoint) (ep : Endpoint) → find_endpoint id es ≡ some ep → ep.id ≡ id
unfolding find_endpoint
find_endpoint-id id [] ep h = absurd cc
find_endpoint-id id (e ∷ es) ep h = elim (Bool-cases (e.id == id)) [
  | inl p ↦
      let q : e ≡ ep = some-injective (rw p at h) in
      ap (λ (e : Endpoint). e.id) (sym q) ∙ (==_iff e.id id).0 p
  | inr p ↦ find_endpoint-id id es ep (rw p at h)
]

set_absent :
    (ep : Endpoint) (es : List Endpoint) → find_endpoint ep.id es ≡ none → set_endpoint ep es ≡ es
unfolding find_endpoint set_endpoint
set_absent ep [] h = refl
set_absent ep (e ∷ es) h = ground (arith, set_absent ep es)

delete_absent :
    (id : ℕ) (es : List Endpoint) → find_endpoint id es ≡ none → delete_endpoint_row id es ≡ es
unfolding find_endpoint delete_endpoint_row
delete_absent id [] h = refl
delete_absent id (e ∷ es) h = ground (arith, delete_absent id es)

module _ (caller : ApiKey) (id : ℕ) (old : Endpoint)
    (owned : is_owned caller.id old.owner_key_id ≡ true) where
  -- An owned row is replaced by an owned row.
  pub foreign-set_endpoint :
      (ep : Endpoint) (es : List Endpoint)
      → find_endpoint id es ≡ some old
      → HasDistinctIds es
      → ep.id ≡ id
      → is_owned caller.id ep.owner_key_id ≡ true
      → foreign caller (set_endpoint ep es) ≡ foreign caller es
  unfolding find_endpoint set_endpoint
  foreign-set_endpoint ep [] h d i o = refl
  foreign-set_endpoint ep (e ∷ es) h d i o = elim (Bool-cases (e.id == id)) [
    | inl p ↦
        let q : e ≡ old = some-injective (rw p at h) in
        let same : e.id ≡ ep.id = (==_iff e.id id).0 p ∙ sym i in
        let mine : is_owned caller.id e.owner_key_id ≡ true =
          subst (λ (x : Endpoint). is_owned caller.id x.owner_key_id ≡ true) (sym q) owned in
        let rest : set_endpoint ep es ≡ es =
          set_absent ep es (subst (λ j. find_endpoint j es ≡ none) same d.0) in
        rw ((==_iff e.id ep.id).1 same) (rw o (rw mine (ap (λ xs. foreign caller xs) rest)))
    | inr p ↦
        let other : (e.id == ep.id) ≡ false = rw i p in
        let rest : foreign caller (set_endpoint ep es) ≡ foreign caller es =
          foreign-set_endpoint ep es (rw p at h) d.1 i o in
        rw other (elim (Bool-cases (is_owned caller.id e.owner_key_id)) [
          | inl q ↦ rw q rest
          | inr q ↦ rw q (ap (◌∷◌ e) rest)
        ])
  ]

  -- An owned row goes.
  pub foreign-delete_endpoint_row :
      (es : List Endpoint)
      → find_endpoint id es ≡ some old
      → HasDistinctIds es
      → foreign caller (delete_endpoint_row id es) ≡ foreign caller es
  unfolding find_endpoint delete_endpoint_row
  foreign-delete_endpoint_row [] h d = refl
  foreign-delete_endpoint_row (e ∷ es) h d = elim (Bool-cases (e.id == id)) [
    | inl p ↦
        let q : e ≡ old = some-injective (rw p at h) in
        let mine : is_owned caller.id e.owner_key_id ≡ true =
          subst (λ (x : Endpoint). is_owned caller.id x.owner_key_id ≡ true) (sym q) owned in
        let rest : delete_endpoint_row id es ≡ es =
          delete_absent id es (subst (λ j. find_endpoint j es ≡ none) ((==_iff e.id id).0 p) d.0) in
        rw p (rw mine (ap (λ xs. foreign caller xs) rest))
    | inr p ↦
        let rest : foreign caller (delete_endpoint_row id es) ≡ foreign caller es =
          foreign-delete_endpoint_row es (rw p at h) d.1 in
        rw p (elim (Bool-cases (is_owned caller.id e.owner_key_id)) [
          | inl q ↦ rw q rest
          | inr q ↦ rw q (ap (◌∷◌ e) rest)
        ])
  ]
