-- ===== src/Endpoints/Stored.antt =====
-- Each handler for endpoints, and each sync pass, keeps every stored endpoint valid.
use simply_ip_exporter.Prelude.{
  ℕ, ◌≡◌, sym, subst, Option, List, All, All-mapped, All-filter, arith, inl, inr, Bool-cases, not,
  ◌==◌,
}
use simply_ip_exporter.Prelude.Net.{IpNets}
use simply_ip_exporter.Prelude.Result.{
  Result-cases, ◌>>◌, Holds, Holds_of_eq-ok, >>-Holds, >>=-Holds, refuse_if-Holds,
}
use simply_ip_exporter.Prelude.Text.{Text}
use simply_ip_exporter.Crypto.{Primitives}
use simply_ip_exporter.Entities.{Endpoint, Db}
use simply_ip_exporter.Support.{Call, Display, create_audit_log, query}
use simply_ip_exporter.Endpoints.{
  ApiState, write_and_audit, create_endpoint, check_payload, update_endpoint, delete_checked,
  delete_endpoint, delete_endpoint_row, rows_affected, reassigned_endpoint, reassign_endpoint_owner,
  new_owner,
}
use simply_ip_exporter.Endpoints.Payload.{CreateEndpointPayload, UpdateEndpointPayload}
use simply_ip_exporter.Endpoints.Rules.{set_endpoint, existing, managed}
use simply_ip_exporter.Endpoints.Changes.{updated_endpoint}
use simply_ip_exporter.Endpoints.Validity.{
  IsValid, existing-IsValid, updated_endpoint-IsValid, check_payload-IsValid, reowned-IsValid,
}

module _ (nets : IpNets) (prims : Primitives) (display : Display) where
  open nets use {IpNet}

  pub endpoints-write_and_audit :
      (c : Call) (n : ℕ) (action details : Text) (ep : Endpoint) (written : Db)
      → (write_and_audit nets prims display c n action details ep written).1.endpoints
        ≡ written.endpoints
  unfolding write_and_audit create_audit_log
  endpoints-write_and_audit c n action details ep written = ground arith

  abbrev Stored : Db → Type 0
  Stored db = All (IsValid nets) db.endpoints

  written-Stored :
      (c : Call) (n : ℕ) (action details : Text) (ep : Endpoint) (written : Db)
      → Stored written
      → Stored (write_and_audit nets prims display c n action details ep written).1
  written-Stored c n action details ep written h =
      subst (All (IsValid nets)) (sym (endpoints-write_and_audit c n action details ep written)) h

  set_endpoint-All :
      (ep : Endpoint) (es : List Endpoint)
      → IsValid nets ep
      → All (IsValid nets) es
      → All (IsValid nets) (set_endpoint ep es)
  unfolding set_endpoint
  set_endpoint-All ep es v h =
      All-mapped (IsValid nets) (IsValid nets) _
        (λ e p. elim (Bool-cases (e.id == ep.id)) [ inl q ↦ rw q v | inr q ↦ rw q p ]) es h

  pub create_endpoint-Stored :
      (c : Call) (payload : CreateEndpointPayload) (db : Db)
      → Stored db
      → Stored (create_endpoint nets prims display c payload db).1
  unfolding create_endpoint
  create_endpoint-Stored c payload db h =
      elim (Result-cases (check_payload nets prims display c payload db)) [
        | inl (e, p) ↦ rw (p, create_endpoint) h
        | inr (u, p) ↦
            rw (p, create_endpoint)
              (written-Stored c 2 _ _ _ _
                (check_payload-IsValid nets prims display c payload db u p, h))
      ]

  pub update_endpoint-Stored :
      (c : Call) (id : ℕ) (payload : UpdateEndpointPayload) (db : Db)
      → Stored db
      → Stored (update_endpoint nets prims display c id payload db).1
  unfolding update_endpoint
  update_endpoint-Stored c id payload db h =
      elim (Result-cases (updated_endpoint nets c id payload db)) [
        | inl (e, p) ↦ rw (p, update_endpoint) h
        | inr (ep, p) ↦
            rw (p, update_endpoint)
              (written-Stored c 3 _ _ _ _ (
                set_endpoint-All ep db.endpoints
                  (Holds_of_eq-ok (IsValid nets) (updated_endpoint nets c id payload db)
                    (updated_endpoint-IsValid nets c id payload db h) p)
                  h))
      ]

  reassigned_endpoint-IsValid :
      (c : Call) (id : ℕ) (owner : Option ℕ) (db : Db)
      → Stored db
      → Holds (IsValid nets) (reassigned_endpoint nets prims display c id owner db)
  unfolding reassigned_endpoint
  reassigned_endpoint-IsValid c id owner db h =
      refuse_if-Holds (IsValid nets) (not c.caller.is_master) _ _ λ master.
        >>=-Holds (IsValid nets) (IsValid nets) (existing c id db) _
          (existing-IsValid nets c id db h)
          λ ep v.
            >>-Holds (IsValid nets) (new_owner nets prims display c owner db >> query c 2) _
              λ u answered. reowned-IsValid nets ep owner c.now v

  pub reassign_endpoint_owner-Stored :
      (c : Call) (id : ℕ) (owner : Option ℕ) (db : Db)
      → Stored db
      → Stored (reassign_endpoint_owner nets prims display c id owner db).1
  unfolding reassign_endpoint_owner
  reassign_endpoint_owner-Stored c id owner db h =
      elim (Result-cases (reassigned_endpoint nets prims display c id owner db)) [
        | inl (e, p) ↦ rw (p, reassign_endpoint_owner) h
        | inr (ep, p) ↦
            rw (p, reassign_endpoint_owner)
              (written-Stored c 3 _ _ _ _ (
                set_endpoint-All ep db.endpoints
                  (Holds_of_eq-ok (IsValid nets)
                    (reassigned_endpoint nets prims display c id owner db)
                    (reassigned_endpoint-IsValid c id owner db h) p)
                  h))
      ]

  -- A deletion keeps what all endpoints have.
  module _ (P : Endpoint → Type 0) where
    delete_checked-All :
        (c : Call) (id : ℕ) (ep : Endpoint) (s : ApiState IpNet)
        → All P s.db.endpoints
        → All P (delete_checked nets prims display c id ep s).1.db.endpoints
    unfolding delete_checked delete_endpoint_row create_audit_log
    delete_checked-All c id ep s h =
        let kept = All-filter P (λ e. not (e.id == id)) s.db.endpoints h in
        elim (Bool-cases (c.answers 1)) [
          | inr a ↦ rw a h
          | inl a ↦ rw a (elim (Bool-cases (rows_affected id s.db.endpoints == 0)) [
            | inl b ↦ rw b h
            | inr b ↦
                rw b (elim (Bool-cases (c.answers 2)) [ inl d ↦ rw d kept | inr d ↦ rw d kept ])
          ])
        ]

    pub delete_endpoint-All :
        (c : Call) (id : ℕ) (between : ApiState IpNet → ApiState IpNet) (s : ApiState IpNet)
        → All P s.db.endpoints
        → All P (between s).db.endpoints
        → All P (delete_endpoint nets prims display c id between s).1.db.endpoints
    unfolding delete_endpoint
    delete_endpoint-All c id between s h k = elim (Result-cases (managed c id s.db)) [
      | inl (e, p) ↦ rw (p, delete_endpoint) h
      | inr (ep, p) ↦ rw (p, delete_endpoint) (delete_checked-All c id ep (between s) k)
    ]
