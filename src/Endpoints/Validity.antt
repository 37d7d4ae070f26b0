-- ===== src/Endpoints/Validity.antt =====
-- What every stored endpoint has, and that the handlers keep it.
use simply_ip_exporter.Prelude.{
  ℕ, zero, suc, ◌<◌, ◌≡◌, ◌≢◌, subst, some-injective, false, not, Option, none, some, List, [], ◌∷◌,
  all, filter, is_empty, All, arith, Bool-cases, inl, inr, ◌==◌,
}
use simply_ip_exporter.Prelude.Int.{ℤ, pos, negsuc, is_nonpositive, is_negative}
use simply_ip_exporter.Prelude.Net.{IpNets}
use simply_ip_exporter.Prelude.Result.{
  ok, ◌>>◌, Holds, >>=-Holds, >>-Holds, >>-eq-ok, refuse_if-Holds, map_err-ok, >>=-eq-ok,
  refuse_if-ok, Holds-of, ok_or, ok_or-ok,
}
use simply_ip_exporter.Prelude.Text.{Text, trim, trim_all, split, entries_of}
use simply_ip_exporter.BoundIps.{BoundIpEntry, parse_bound_ips, validate_bound_ips}
use simply_ip_exporter.Entities.{Endpoint, Db}
use simply_ip_exporter.Error.{
  name_empty, ttl_not_positive, max_age_negative, invalid_input, bad_bound_ips, groups_empty,
  not_found,
}
use simply_ip_exporter.Crypto.{Primitives}
use simply_ip_exporter.Endpoints.{check_payload, endpoint_row}
use simply_ip_exporter.Support.{Display, Call, query, check_bound_ips, check_all, not_blank}
use simply_ip_exporter.Endpoints.Payload.{CreateEndpointPayload, UpdateEndpointPayload}
use simply_ip_exporter.Endpoints.Rules.{
  find_endpoint, validate_groups, validate_ttl, validate_max_age, validate_group_access, existing,
  managed, may_manage, unwrap_or,
}
use simply_ip_exporter.Endpoints.Changes.{
  update_name, update_description, update_groups, update_ttl, update_max_age, update_bound_ips,
  update_filters, updated_endpoint,
}

abbrev IsPositive : ℤ → Type 0
IsPositive (pos n) = 0 < n
IsPositive (negsuc n) = ⊥

abbrev IsNatural : ℤ → Type 0
IsNatural (pos n) = Unit
IsNatural (negsuc n) = ⊥

IsPositive-of : (n : ℤ) → is_nonpositive n ≡ false → IsPositive n
IsPositive-of (pos zero) h = absurd cc
IsPositive-of (pos (suc n)) h = omega arith
IsPositive-of (negsuc n) h = absurd cc

IsNatural-of : (n : ℤ) → is_negative n ≡ false → IsNatural n
IsNatural-of (pos n) h = tt
IsNatural-of (negsuc n) h = absurd cc

nonempty_of : (s : Text) → is_empty s ≡ false → s ≢ []
nonempty_of [] h e = cc
nonempty_of (c ∷ s) h e = cc

some_entry : (ss : List Text) → all is_empty ss ≡ false → filter (λ s. not (is_empty s)) ss ≢ []
some_entry [] h e = cc
some_entry ([] ∷ ss) h e = some_entry ss h e
some_entry ((c ∷ s) ∷ ss) h e = cc

groups_given : (raw : Text) → all is_empty (trim_all (split b',' raw)) ≡ false → entries_of raw ≢ []
unfolding entries_of
groups_given raw h = some_entry (trim_all (split b',' raw)) h

validated : (raw : Text) (u : Unit {0}) → validate_groups raw ≡ ok u → entries_of raw ≢ []
unfolding validate_groups
validated raw u h =
    groups_given raw
      (refuse_if-ok (all is_empty (trim_all (split b',' raw))) (invalid_input groups_empty) u h)

module _ (nets : IpNets) where
  open nets use {IpNet}

  -- A list of networks that the feed can read.
  abbrev Parses : Option Text → Type 0
  Parses none = Unit
  Parses (some raw) =
      (entries : List (BoundIpEntry IpNet)) × (parse_bound_ips nets raw ≡ ok entries)

  -- An endpoint that can be synced and served: it has a name and a group, its times are in range, and
  -- its list of networks parses.
  pub record IsValid (ep : Endpoint) : Type 0 where
    pub named : trim ep.name ≢ []
    pub grouped : entries_of ep.vault_groups ≢ []
    pub positive : IsPositive ep.ttl_seconds
    pub natural : IsNatural ep.max_age_seconds
    pub parses : Parses ep.bound_ips

  Parses-of : (raw : Text) (u : Unit {0}) → check_bound_ips nets raw ≡ ok u → Parses (some raw)
  unfolding check_bound_ips validate_bound_ips
  Parses-of raw u h =
      let v : validate_bound_ips nets raw ≡ ok u =
        map_err-ok (λ e. invalid_input bad_bound_ips) (validate_bound_ips nets raw) h in
      let (entries, p, q) = >>=-eq-ok (parse_bound_ips nets raw) (λ entries. ok tt) v in
      (entries, p)

  Parses-of_all : (given : Option Text) (u : Unit {0}) → check_all nets given ≡ ok u → Parses given
  unfolding check_all
  Parses-of_all none u h = tt
  Parses-of_all (some raw) u h = Parses-of raw u h

  -- Each block of an update keeps the rest of the row.
  module _ (ep : Endpoint) (valid : IsValid ep) where
    open valid use {named, grouped, positive, natural, parses}

    update_name-IsValid : (name : Option Text) → Holds IsValid (update_name name ep)
    unfolding update_name
    update_name-IsValid none = valid
    update_name-IsValid (some name) = refuse_if-Holds IsValid (is_empty (trim name)) _ _ λ h.
        record {
          named = nonempty_of (trim name) h;
          grouped = grouped;
          positive = positive;
          natural = natural;
          parses = parses;
        }

    update_description-IsValid :
        (description : Option Text) → IsValid (update_description description ep)
    unfolding update_description
    update_description-IsValid none = valid
    update_description-IsValid (some description) = record {
      named = named;
      grouped = grouped;
      positive = positive;
      natural = natural;
      parses = parses;
    }

    update_groups-IsValid :
        (c : Call) (groups : Option Text) (db : Db) → Holds IsValid (update_groups c groups db ep)
    unfolding update_groups
    update_groups-IsValid c none db = valid
    update_groups-IsValid c (some groups) db =
        >>-Holds IsValid (validate_groups groups >> validate_group_access c 1 groups db) _ λ u h.
          let ((v, given), access) =
            >>-eq-ok (validate_groups groups) (validate_group_access c 1 groups db) h in
          record {
            named = named;
            grouped = validated groups v given;
            positive = positive;
            natural = natural;
            parses = parses;
          }

    update_ttl-IsValid : (ttl : Option ℤ) → Holds IsValid (update_ttl ttl ep)
    unfolding update_ttl validate_ttl
    update_ttl-IsValid none = valid
    update_ttl-IsValid (some ttl) = refuse_if-Holds IsValid (is_nonpositive ttl) _ _ λ h. record {
      named = named;
      grouped = grouped;
      positive = IsPositive-of ttl h;
      natural = natural;
      parses = parses;
    }

    update_max_age-IsValid : (max_age : Option ℤ) → Holds IsValid (update_max_age max_age ep)
    unfolding update_max_age validate_max_age
    update_max_age-IsValid none = valid
    update_max_age-IsValid (some max_age) = refuse_if-Holds IsValid (is_negative max_age) _ _ λ h.
        record {
          named = named;
          grouped = grouped;
          positive = positive;
          natural = IsNatural-of max_age h;
          parses = parses;
        }

    with_bound_ips :
        (given : Option Text) → Parses given → IsValid (record ep { bound_ips = given })
    with_bound_ips given p = record {
      named = named;
      grouped = grouped;
      positive = positive;
      natural = natural;
      parses = p;
    }

    update_bound_ips-IsValid :
        (given : Option Text) → Holds IsValid (update_bound_ips nets given ep)
    unfolding update_bound_ips
    update_bound_ips-IsValid none = valid
    update_bound_ips-IsValid (some given) = elim (Bool-cases (is_empty (trim given))) [
      | inl blank ↦ rw blank (with_bound_ips none tt)
      | inr text ↦ rw text (
          >>-Holds IsValid (check_bound_ips nets (trim given)) _
            λ u h. with_bound_ips (some (trim given)) (Parses-of (trim given) u h))
    ]

    written-IsValid :
        (payload : UpdateEndpointPayload) (now : ℕ)
        → IsValid (record (update_filters payload ep) { updated_at = now })
    unfolding update_filters
    written-IsValid payload now = record {
      named = named;
      grouped = grouped;
      positive = positive;
      natural = natural;
      parses = parses;
    }

  find_endpoint-IsValid :
      (id : ℕ) (es : List Endpoint) (ep : Endpoint)
      → All IsValid es
      → find_endpoint id es ≡ some ep
      → IsValid ep
  unfolding find_endpoint
  find_endpoint-IsValid id [] ep v h = absurd cc
  find_endpoint-IsValid id (e ∷ es) ep v h = elim (Bool-cases (e.id == id)) [
    | inl p ↦ subst IsValid (some-injective (rw p at h)) v.0
    | inr p ↦ find_endpoint-IsValid id es ep v.1 (rw p at h)
  ]

  pub existing-IsValid :
      (c : Call) (id : ℕ) (db : Db) → All IsValid db.endpoints → Holds IsValid (existing c id db)
  unfolding existing
  existing-IsValid c id db v = >>-Holds IsValid (query c 0) _ λ u answered.
      Holds-of IsValid (ok_or (find_endpoint id db.endpoints) not_found) λ ep found.
        find_endpoint-IsValid id db.endpoints ep v
          (ok_or-ok (find_endpoint id db.endpoints) not_found found)

  -- The owner and the date of the last change are free.
  pub reowned-IsValid :
      (ep : Endpoint) (owner : Option ℕ) (at : ℕ)
      → IsValid ep
      → IsValid (record ep { owner_key_id = owner; updated_at = at })
  reowned-IsValid ep owner at v = record {
    named = v.named;
    grouped = v.grouped;
    positive = v.positive;
    natural = v.natural;
    parses = v.parses;
  }

  pub synced-IsValid :
      (ep : Endpoint) (at : Option ℕ) → IsValid ep → IsValid (record ep { last_synced_at = at })
  synced-IsValid ep at v = record {
    named = v.named;
    grouped = v.grouped;
    positive = v.positive;
    natural = v.natural;
    parses = v.parses;
  }

  pub updated_endpoint-IsValid :
      (c : Call) (id : ℕ) (payload : UpdateEndpointPayload) (db : Db)
      → All IsValid db.endpoints
      → Holds IsValid (updated_endpoint nets c id payload db)
  unfolding updated_endpoint managed
  updated_endpoint-IsValid c id payload db v =
      >>=-Holds IsValid IsValid (managed c id db) _
        (>>=-Holds IsValid IsValid (existing c id db) _ (existing-IsValid c id db v)
          λ ep h. refuse_if-Holds IsValid (not (may_manage c.caller ep)) _ _ λ allowed. h)
        λ ep h.
          >>=-Holds IsValid IsValid (update_name payload.name ep) _
            (update_name-IsValid ep h payload.name)
            λ named h₁.
              >>=-Holds IsValid IsValid
                (update_groups c payload.vault_groups db
                  (update_description payload.description named))
                _
                (update_groups-IsValid _ (update_description-IsValid named h₁ payload.description) c
                  payload.vault_groups db)
                λ grouped h₂.
                  >>=-Holds IsValid IsValid (update_ttl payload.ttl_seconds grouped) _
                    (update_ttl-IsValid grouped h₂ payload.ttl_seconds)
                    λ timed h₃.
                      >>=-Holds IsValid IsValid (update_max_age payload.max_age_seconds timed) _
                        (update_max_age-IsValid timed h₃ payload.max_age_seconds)
                        λ aged h₄.
                          >>=-Holds IsValid IsValid (update_bound_ips nets payload.bound_ips aged) _
                            (update_bound_ips-IsValid aged h₄ payload.bound_ips)
                            λ bound h₅.
                              >>-Holds IsValid (query c 2) _
                                λ u answered. written-IsValid bound h₅ payload c.now

  -- The row of a new endpoint, from the guards in front of it.
  module _ (prims : Primitives) (display : Display) where
    pub check_payload-IsValid :
        (c : Call) (payload : CreateEndpointPayload) (db : Db) (u : Unit {0})
        → check_payload nets prims display c payload db ≡ ok u
        → IsValid (endpoint_row nets prims display c payload)
    unfolding check_payload validate_ttl validate_max_age
    check_payload-IsValid c payload db u h =
        let ttl = unwrap_or payload.ttl_seconds (pos 3_600) in
        let max_age = unwrap_or payload.max_age_seconds (pos 0) in
        let ((u₆, h₆), p₇) = >>-eq-ok _ (query c 1) h in
        let ((u₅, h₅), p₆) = >>-eq-ok _ (validate_max_age max_age) h₆ in
        let ((u₄, h₄), p₅) = >>-eq-ok _ (validate_ttl ttl) h₅ in
        let ((u₃, h₃), p₄) = >>-eq-ok _ (check_all nets (not_blank payload.bound_ips)) h₄ in
        let ((u₂, h₂), p₃) = >>-eq-ok _ (validate_group_access c 0 payload.vault_groups db) h₃ in
        let ((u₁, h₁), p₂) = >>-eq-ok _ (validate_groups payload.vault_groups) h₂ in
        record {
          named =
              nonempty_of (trim payload.name)
                (refuse_if-ok (is_empty (trim payload.name)) (invalid_input name_empty) u₁ h₁);
          grouped = validated payload.vault_groups _ p₂;
          positive =
              IsPositive-of ttl
                (refuse_if-ok (is_nonpositive ttl) (invalid_input ttl_not_positive) _ p₅);
          natural =
              IsNatural-of max_age
                (refuse_if-ok (is_negative max_age) (invalid_input max_age_negative) _ p₆);
          parses = Parses-of_all (not_blank payload.bound_ips) _ p₄;
        }
