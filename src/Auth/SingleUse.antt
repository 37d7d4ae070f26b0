-- ===== src/Auth/SingleUse.antt =====
-- A signature opens one request in its window.
use simply_ip_exporter.Prelude.{
  ℕ, ◌+◌, ◌<◌, ◌≡◌, ◌≢◌, refl, sym, subst, ap, ◌∙◌, ◌⊎◌, inl, inr, true, false, List, [], ◌∷◌, ap₂,
  some-injective,
}
use simply_ip_exporter.Prelude.Result.{ok, Result-cases, ok-injective}
use simply_ip_exporter.Prelude.Net.{IpAddr}
use simply_ip_exporter.Entities.{ApiKey}
use simply_ip_exporter.Config.{resolved, resolve_client_ip}
use simply_ip_exporter.Master.{authenticate}
use simply_ip_exporter.Master.Pinned.{authenticate-kept}
use simply_ip_exporter.Crypto.{canonical_v1_payload, open_secret}
use simply_ip_exporter.Replay.{ReplayGuard, SignatureId, check_and_record}
use simply_ip_exporter.Replay
use simply_ip_exporter.Replay.SingleUse.{AllBefore, accepted_once}
use simply_ip_exporter.Auth.{
  Request, Moment, AuthState, Environment, Credentials, Authenticated, find_by_hash, credentials,
  find_key, verify_request, authenticate_request, auth_middleware, serve,
}
use simply_ip_exporter.Auth.Authentic.{IsAuthentic, admit-guard, auth_middleware-IsAuthentic}

module _ (env : Environment) where
  open env use {nets, prims, lookup_host, cipher}
  open nets use {IpNet}
  open prims use {hmac, sha256, hex_encode}

  -- The guard is left alone, or it is asked about one signature.
  abbrev Asked : ℕ → ReplayGuard → ReplayGuard → Type 0
  Asked now g g' = (g' ≡ g) ⊎ ((id : SignatureId) × (g' ≡ (check_and_record id now g).1))

  authenticate_request-Asked :
      (m : Moment) (req : Request) (client_ip : IpAddr) (c : Credentials) (found : ApiKey)
      (s : AuthState IpNet)
      → Asked m.now s.replay_guard
          (authenticate_request env m req client_ip c found s).1.replay_guard
  unfolding authenticate_request
  authenticate_request-Asked m req client_ip c found s =
      let p = authenticate m.master_answers m.api_keys found s.master_pin in
      elim (Result-cases (verify_request env req c p.0)) [
        | inl (e, q) ↦ inl (rw (q, authenticate_request))
        | inr (digest, q) ↦ inr (
          record { key_id = p.0.id; digest = digest },
          rw (q, authenticate_request)
              (admit-guard env m client_ip p.0 digest (record s { master_pin = p.1 })),
        )
      ]

  auth_middleware-Asked :
      (m : Moment) (req : Request) (s : AuthState IpNet)
      → Asked m.now s.replay_guard (auth_middleware env m req s).1.replay_guard
  unfolding auth_middleware
  auth_middleware-Asked m req s =
      let t = resolved nets lookup_host m.now s.trusted_proxies in
      elim (Result-cases (credentials env m req)) [
        | inl (e, p) ↦ inl (rw (p, auth_middleware))
        | inr (c, p) ↦ elim (Result-cases (find_key env m c.presented_key)) [
          | inl (e, q) ↦ inl (rw (p, auth_middleware) (rw (q, auth_middleware)))
          | inr (found, q) ↦
              rw (p, auth_middleware)
                (rw (q, auth_middleware)
                  (authenticate_request-Asked m req
                    (resolve_client_ip nets req.peer req.forwarding t.0) c found
                    (record s { trusted_proxies = t.1 })))
        ]
      ]

  -- Every request comes before `until`.
  abbrev pub Before : ℕ → List (Moment × Request) → Type 0
  Before until [] = Unit
  Before until ((m, req) ∷ reqs) = (m.now < until) × Before until reqs

  serve-guard :
      (until : ℕ) (reqs : List (Moment × Request)) (s : AuthState IpNet)
      → Before until reqs
      → (calls : List (SignatureId × ℕ)) × AllBefore until calls
        × ((serve env reqs s).replay_guard ≡ Replay.run s.replay_guard calls)
  unfolding serve Replay.run
  serve-guard until [] s b = ([], tt, refl)
  serve-guard until ((m, req) ∷ reqs) s (b, bs) =
      let (calls, before, e) = serve-guard until reqs (auth_middleware env m req s).1 bs in
      elim (auth_middleware-Asked m req s) [
        | inl p ↦ (calls, before, e ∙ ap (λ g. Replay.run g calls) p)
        | inr (id, p) ↦ ((id, m.now) ∷ calls, (b, before), e ∙ ap (λ g. Replay.run g calls) p)
      ]

  auth_middleware-single_use :
      (m m' : Moment) (req req' : Request) (s : AuthState IpNet) (a a' : Authenticated)
      (reqs : List (Moment × Request))
      (first : IsAuthentic env m req s (auth_middleware env m req s).1 a)
      → Before (m.now + s.replay_guard.window) reqs
      → m'.now < m.now + s.replay_guard.window
      → (again : IsAuthentic env m' req'
          (serve env reqs (auth_middleware env m req s).1)
          (auth_middleware env m' req' (serve env reqs (auth_middleware env m req s).1)).1
          a')
      → again.digest ≡ first.digest
      → a'.key_record.id ≢ a.key_record.id
  auth_middleware-single_use m m' req req' s a a' reqs first before soon again same key =
      let g = s.replay_guard in
      let id : SignatureId = record { key_id = a.key_record.id; digest = first.digest } in
      let id' : SignatureId = record { key_id = a'.key_record.id; digest = again.digest } in
      let e : id' ≡ id = cc in
      let (calls, b, run_eq) =
        serve-guard (m.now + g.window) reqs (auth_middleware env m req s).1 before in
      let refused = accepted_once id m.now m'.now calls g first.is_fresh b soon in
      let guard_eq = run_eq ∙ ap (λ h. Replay.run h calls) first.is_recorded in
      let taken : (check_and_record id m'.now (Replay.run (check_and_record id m.now g).1 calls)).0
          ≡ true =
        subst (λ h. (check_and_record id m'.now h).0 ≡ true) guard_eq
          (subst
            (λ i.
              (check_and_record i m'.now
                (serve env reqs (auth_middleware env m req s).1).replay_guard).0
              ≡ true)
            e again.is_fresh) in
      let clash : true ≡ false = sym taken ∙ refused in cc

  -- The same request with the same keys in the database is the same signature under the same key.
  same_signature :
      (m m' : Moment) (req : Request) (s₁ s₂ s₃ s₄ : AuthState IpNet) (a a' : Authenticated)
      → m'.api_keys ≡ m.api_keys
      → (h : IsAuthentic env m req s₁ s₂ a) (h' : IsAuthentic env m' req s₃ s₄ a')
      → (h'.digest ≡ h.digest) × (a'.key_record.id ≡ a.key_record.id)
  same_signature m m' req s₁ s₂ s₃ s₄ a a' keys h h' =
      let kept = authenticate-kept m.master_answers m.api_keys h.found s₁.master_pin in
      let kept' = authenticate-kept m'.master_answers m'.api_keys h'.found s₃.master_pin in
      let e₁ : h'.presented_key ≡ h.presented_key = some-injective (sym h'.has_key ∙ h.has_key) in
      let e₂ : h'.timestamp_header ≡ h.timestamp_header =
        some-injective (sym h'.has_timestamp ∙ h.has_timestamp) in
      let e₃ : h'.bytes ≡ h.bytes = some-injective (sym h'.has_body ∙ h.has_body) in
      let e₄ : h'.found ≡ h.found = some-injective (
        sym h'.is_known
        ∙ ap₂ (λ k ks. find_by_hash (hex_encode (sha256 k)) ks) e₁ keys
        ∙ h.is_known) in
      let id_eq : a'.key_record.id ≡ a.key_record.id =
        ap (λ k. k.id) h'.is_pinned
        ∙ kept'.0
        ∙ ap (λ k. k.id) e₄
        ∙ sym kept.0
        ∙ sym (ap (λ k. k.id) h.is_pinned) in
      let secret_eq : a'.key_record.signing_secret ≡ a.key_record.signing_secret =
        ap (λ k. k.signing_secret) h'.is_pinned
        ∙ kept'.1
        ∙ ap (λ k. k.signing_secret) e₄
        ∙ sym kept.1
        ∙ sym (ap (λ k. k.signing_secret) h.is_pinned) in
      let e₅ : h'.stored ≡ h.stored =
        some-injective (sym h'.has_secret ∙ secret_eq ∙ h.has_secret) in
      let e₆ : h'.secret ≡ h.secret =
        ok-injective (sym h'.opens ∙ ap (open_secret prims cipher) e₅ ∙ h.opens) in
      let payload = ap₂ (λ t b. canonical_v1_payload req.method req.path_and_query t b) e₂ e₃ in
      (some-injective (sym h'.is_signed ∙ ap₂ hmac e₆ payload ∙ h.is_signed), id_eq)

  -- Once a request is accepted, sending it again before the end of the window is refused, whatever
  -- requests are served in between, while the keys in the database stay as they are.
  pub auth_middleware-replayed :
      (m m' : Moment) (req : Request) (s : AuthState IpNet) (a a' : Authenticated)
      (reqs : List (Moment × Request))
      → (auth_middleware env m req s).0 ≡ ok a
      → Before (m.now + s.replay_guard.window) reqs
      → m'.now < m.now + s.replay_guard.window
      → m'.api_keys ≡ m.api_keys
      → (auth_middleware env m' req (serve env reqs (auth_middleware env m req s).1)).0 ≢ ok a'
  auth_middleware-replayed m m' req s a a' reqs h before soon keys h' =
      let s₁ = (auth_middleware env m req s).1 in
      let s₂ = serve env reqs s₁ in
      let first = auth_middleware-IsAuthentic env m req s a h in
      let again = auth_middleware-IsAuthentic env m' req s₂ a' h' in
      let same =
        same_signature m m' req s s₁ s₂ (auth_middleware env m' req s₂).1 a a' keys first again in
      auth_middleware-single_use m m' req req s a a' reqs first before soon again same.0 same.1
