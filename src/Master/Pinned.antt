-- ===== src/Master/Pinned.antt =====
-- One Master for the life of the process.
use simply_ip_exporter.Prelude.{ℕ, Bool, true, some, List, [], ◌∷◌, ◌≡◌, All, arith}
use simply_ip_exporter.Entities.{ApiKey}
use simply_ip_exporter.Master.{MasterPin, resolve, authenticate, run}

-- A pin that is set stays.
resolve-cell :
    (answers : Bool) (api_keys : List ApiKey) (pin : MasterPin) (id : ℕ)
    → pin.cell ≡ some id
    → (resolve answers api_keys pin).1.cell ≡ some id
unfolding resolve
resolve-cell answers api_keys pin id h = ground arith

-- What `resolve` returns is the pin.
resolve-pinned :
    (answers : Bool) (api_keys : List ApiKey) (pin : MasterPin)
    → (resolve answers api_keys pin).1.cell ≡ (resolve answers api_keys pin).0
unfolding resolve
resolve-pinned answers api_keys pin = ground arith

authenticate-cell :
    (answers : Bool) (api_keys : List ApiKey) (key : ApiKey) (pin : MasterPin) (id : ℕ)
    → pin.cell ≡ some id
    → (authenticate answers api_keys key pin).1.cell ≡ some id
unfolding authenticate
authenticate-cell answers api_keys key pin id h =
    ground (arith, resolve-cell answers api_keys pin id h)

authenticate-pinned :
    (answers : Bool) (api_keys : List ApiKey) (key : ApiKey) (pin : MasterPin)
    → (authenticate answers api_keys key pin).0.is_master ≡ true
    → (authenticate answers api_keys key pin).1.cell
      ≡ some (authenticate answers api_keys key pin).0.id
unfolding authenticate
authenticate-pinned answers api_keys key pin h = ground (arith, resolve-pinned answers api_keys pin)

run-cell :
    (calls : List (Bool × List ApiKey × ApiKey)) (pin : MasterPin) (id : ℕ)
    → pin.cell ≡ some id
    → (run pin calls).1.cell ≡ some id
unfolding run
run-cell [] pin id h = h
run-cell ((answers, api_keys, key) ∷ calls) pin id h =
    run-cell calls (authenticate answers api_keys key pin).1 id
      (authenticate-cell answers api_keys key pin id h)

-- However the database changes between the requests, every key that comes out of a run of
-- authentications as the Master has the one id that is pinned at the end.
pub run-pinned :
    (calls : List (Bool × List ApiKey × ApiKey)) (pin : MasterPin)
    → All (λ k. k.is_master ≡ true → (run pin calls).1.cell ≡ some k.id) (run pin calls).0
unfolding run
run-pinned [] pin = tt
run-pinned ((answers, api_keys, key) ∷ calls) pin = (
  λ h.
      run-cell calls (authenticate answers api_keys key pin).1
        (authenticate answers api_keys key pin).0.id
        (authenticate-pinned answers api_keys key pin h),
  run-pinned calls (authenticate answers api_keys key pin).1,
)

-- Nothing but the mark of the Master is taken from a key.
pub authenticate-kept :
    (answers : Bool) (api_keys : List ApiKey) (key : ApiKey) (pin : MasterPin)
    → ((authenticate answers api_keys key pin).0.id ≡ key.id)
      × ((authenticate answers api_keys key pin).0.signing_secret ≡ key.signing_secret)
unfolding authenticate
authenticate-kept answers api_keys key pin = ground arith
