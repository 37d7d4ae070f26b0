-- ===== src/RateLimit/Recovery.antt =====
-- A refused client that waits is served.
use simply_ip_exporter.Prelude.{
  ℕ, ◌+◌, ◌≤◌, ◌≡◌, ◌≢◌, refl, subst, ◌∙◌, Bool, true, false, none, some, Option, List, [], ◌∷◌,
  length, leb, ltb, All, arith, ◌⊎◌, inl, inr, Bool-cases, Option-cases, if_pos, if_neg,
}
use simply_ip_exporter.Prelude.HashMap.{HashMap, get, remove, get-insert_ne, get-remove}
use simply_ip_exporter.Prelude.Net.{IpAddr, IpAddr-discrete}
use simply_ip_exporter.Prelude.Result.{ok, err}
use simply_ip_exporter.RateLimit.{
  Inner, RateLimiter, rate_limit_window, max_tracked_ips, evict, make_room, admit, check_and_record,
  run,
}

-- An entry is kept or dropped.
abbrev Fades : Option ℕ → Option ℕ → Type 0
Fades old now = (now ≡ none) ⊎ (now ≡ old)

Fades-twice : {a b c : Option ℕ} → Fades a b → Fades b c → Fades a c
Fades-twice f (inl p) = inl p
Fades-twice (inl p) (inr q) = inl (q ∙ p)
Fades-twice (inr p) (inr q) = inr (q ∙ p)

module _ (ip : IpAddr) where
  abbrev entry_of : Inner → Option ℕ
  entry_of i = get IpAddr-discrete ip i.next_allowed

  evict-Fades :
      (order : List IpAddr) (m : HashMap IpAddr ℕ)
      → Fades (get IpAddr-discrete ip m) (entry_of (evict order m))
  unfolding evict
  evict-Fades [] m = inr refl
  evict-Fades (oldest ∷ rest) m = elim (Bool-cases (leb max_tracked_ips (length m))) [
    | inr p ↦ rw (p, evict) (inr refl)
    | inl p ↦
        let step : Fades (get IpAddr-discrete ip m)
            (get IpAddr-discrete ip (remove IpAddr-discrete oldest m)) =
          elim (IpAddr-discrete oldest ip) [
            | yes e ↦
                inl (
                  get-remove IpAddr-discrete oldest ip m ∙ if_pos (IpAddr-discrete oldest ip) e _ _)
            | no e ↦
                inr (
                  get-remove IpAddr-discrete oldest ip m ∙ if_neg (IpAddr-discrete oldest ip) e _ _)
          ] in
        rw (p, evict) (Fades-twice step (evict-Fades rest (remove IpAddr-discrete oldest m)))
  ]

  make_room-Fades : (i : Inner) → Fades (entry_of i) (entry_of (make_room i))
  unfolding make_room
  make_room-Fades i = elim (Bool-cases (leb max_tracked_ips (length i.next_allowed))) [
    | inl p ↦ rw p (evict-Fades i.order i.next_allowed)
    | inr p ↦ rw p (inr refl)
  ]

  admit-Fades :
      (other : IpAddr) (now : ℕ) (is_new : Bool) (i : Inner)
      → other ≢ ip
      → Fades (entry_of i) (entry_of (admit other now is_new i))
  unfolding admit
  admit-Fades other now is_new i ne =
      inr (get-insert_ne IpAddr-discrete other ip (now + rate_limit_window) i.next_allowed ne)

  -- A call of another client, on a sound limiter.
  call-Fades :
      (other : IpAddr) (now : ℕ) (s : RateLimiter)
      → other ≢ ip
      → s.poisoned ≡ false
      → Fades (entry_of s.state) (entry_of (check_and_record other now s).1.state)
        × ((check_and_record other now s).1.poisoned ≡ false)
  unfolding check_and_record
  call-Fades other now s ne sound =
      rw sound (elim (Option-cases (get IpAddr-discrete other s.state.next_allowed)) [
        | inl p ↦ rw p (
          Fades-twice (make_room-Fades s.state) (admit-Fades other now true (make_room s.state) ne),
          sound,
        )
        | inr (next, p) ↦ rw p (elim (Bool-cases (ltb now next)) [
          | inl q ↦ rw q (inr refl, sound)
          | inr q ↦ rw q (admit-Fades other now false s.state ne, sound)
        ])
      ])

  run-Fades :
      (calls : List (IpAddr × ℕ)) (s : RateLimiter)
      → All (λ call. call.0 ≢ ip) calls
      → s.poisoned ≡ false
      → Fades (entry_of s.state) (entry_of (run s calls).state) × ((run s calls).poisoned ≡ false)
  unfolding run
  run-Fades [] s h sound = (inr refl, sound)
  run-Fades ((other, now) ∷ calls) s h sound =
      let (f, k) = call-Fades other now s h.0 sound in
      let (g, l) = run-Fades calls (check_and_record other now s).1 h.1 k in (Fades-twice f g, l)

  -- A call is served when the entry is gone or over.
  served :
      (t : ℕ) (s : RateLimiter) (next : ℕ)
      → s.poisoned ≡ false
      → next ≤ t
      → Fades (some next) (entry_of s.state)
      → (check_and_record ip t s).0 ≡ ok tt
  unfolding check_and_record
  served t s next sound over (inl p) = rw sound (rw p)
  served t s next sound over (inr p) =
      let late : ltb t next ≡ false = ground arith in rw sound (rw p (rw late))

  -- What a refusal says, and that it changes nothing.
  refusal :
      (now remaining : ℕ) (s : RateLimiter)
      → s.poisoned ≡ false
      → (check_and_record ip now s).0 ≡ err remaining
      → (next : ℕ) × (entry_of s.state ≡ some next)
        × (now + remaining ≡ next)
        × ((check_and_record ip now s).1 ≡ s)
  unfolding check_and_record
  refusal now remaining s sound h =
      elim (Option-cases (get IpAddr-discrete ip s.state.next_allowed)) [
        | inl p ↦ absurd (ground arith)
        | inr (next, p) ↦ (next, p, ground arith, ground arith)
      ]

  -- A client that a sound limiter refuses is served by any call of it at or after the end of the time
  -- that the refusal names, whatever calls of other clients come in between.
  pub served_after_wait :
      (now t remaining : ℕ) (s : RateLimiter) (calls : List (IpAddr × ℕ))
      → s.poisoned ≡ false
      → (check_and_record ip now s).0 ≡ err remaining
      → All (λ call. call.0 ≢ ip) calls
      → now + remaining ≤ t
      → (check_and_record ip t (run (check_and_record ip now s).1 calls)).0 ≡ ok tt
  served_after_wait now t remaining s calls sound refused others wait =
      let (next, entry, sum, same) = refusal now remaining s sound refused in
      let (f, k) = run-Fades calls s others sound in
      let f' : Fades (some next) (entry_of (run s calls).state) =
        subst (λ o. Fades o (entry_of (run s calls).state)) entry f in
      rw same (served t (run s calls) next k (omega arith) f')
