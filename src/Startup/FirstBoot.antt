-- ===== src/Startup/FirstBoot.antt =====
-- The first start makes a Master that can sign in, and later starts find it.
use simply_ip_exporter.Prelude.{
  ℕ, ◌≡◌, refl, Bool, true, Option, none, some, List, [], ◌∷◌, filter, length, inl, inr, Bool-cases,
  is_yes_of,
}
use simply_ip_exporter.Prelude.Result.{Result, ok, err, map_err, Result-cases, ◌>>=◌}
use simply_ip_exporter.Prelude.Text.{Text, Text-discrete}
use simply_ip_exporter.Auth.{find_by_hash}
use simply_ip_exporter.Crypto.{Primitives, SecretCipher, CryptoError, seal, open_secret, nonce_len}
use simply_ip_exporter.Crypto.AtRest.{Decrypts, open_secret-seal}
use simply_ip_exporter.Crypto.Signing.{IsHex}
use simply_ip_exporter.Entities.{ApiKey, Db}
use simply_ip_exporter.Master.{MasterPin, pin_at_boot, resolve_inner}
use simply_ip_exporter.Startup.{
  InitialMasterKeyError, StartError, bad_master_key, encryption_key_mismatch, Environment, Fresh,
  find_master, master_row, or_else, chosen_secret, bootstrap_master_key, verify_encryption_key,
  settle, validate_initial_master_key, start,
}

no_masters : (ks : List ApiKey) → find_master ks ≡ none → filter (λ k. k.is_master) ks ≡ []
unfolding find_master
no_masters [] h = refl
no_masters (k ∷ ks) h = elim (Bool-cases k.is_master) [
  | inl p ↦ absurd (let h' : some (record k { is_master = true }) ≡ none = rw p at h in cc)
  | inr p ↦ rw p (no_masters ks (rw p at h))
]

-- What the check of the encryption key makes of a start, from what the key opens the secret to.
abbrev unlocked : ℕ → Result CryptoError Text → Result StartError MasterPin
unlocked id (err e) = err (encryption_key_mismatch e)
unlocked id (ok secret) = ok (record { cell = some id })

-- What a start comes to once there is a Master, from its two checks.
abbrev pub restarted :
    ℕ
    → Result InitialMasterKeyError (Option Text)
    → Result CryptoError Text
    → Result StartError MasterPin
restarted id (err e) opened = err (bad_master_key e)
restarted id (ok key) (err e) = err (encryption_key_mismatch e)
restarted id (ok key) (ok secret) = ok (record { cell = some id })

module _ (prims : Primitives) (hex : IsHex prims) (decrypts : Decrypts prims)
    (cipher : SecretCipher prims.Cipher) where
  open prims use {sha256, hex_encode, from_utf8}

  module _ (db : Db) (empty : find_master db.api_keys ≡ none) (master : ApiKey) (stored : Text)
      (rank : master.is_master ≡ true) (kept : master.signing_secret ≡ some stored) where
    abbrev with_master : Db
    with_master = record db { api_keys = master ∷ db.api_keys }

    found : find_master (master ∷ db.api_keys) ≡ some master
    unfolding find_master
    found = rw rank

    canary :
        (cipher' : SecretCipher prims.Cipher)
        → verify_encryption_key prims cipher' true with_master
          ≡ (map_err encryption_key_mismatch (open_secret prims cipher' stored) >>= λ secret. ok tt)
    unfolding verify_encryption_key
    canary cipher' = rw found (rw kept)

    pinned :
        pin_at_boot (some true) true (master ∷ db.api_keys) (record { cell = none })
        ≡ (ok master.id, record { cell = some master.id })
    unfolding pin_at_boot resolve_inner
    pinned = rw rank (rw (no_masters db.api_keys empty))

    settled :
        (cipher' : SecretCipher prims.Cipher) (answers : ℕ → Bool)
        → ((n : ℕ) → answers n ≡ true)
        → settle prims cipher' answers (some true) with_master
          ≡ unlocked master.id (open_secret prims cipher' stored)
    unfolding settle
    settled cipher' answers up = elim (Result-cases (open_secret prims cipher' stored)) [
      | inl (e, p) ↦ rw (up 2) (rw (canary cipher') (rw p))
      | inr (secret, p) ↦ rw (up 2) (rw (canary cipher') (rw p (rw (up 3) (rw pinned))))
    ]

    not_again :
        (cipher' : SecretCipher prims.Cipher) (env : Environment) (key : Option Text)
        (fresh : Fresh) (answers : ℕ → Bool)
        → ((n : ℕ) → answers n ≡ true)
        → bootstrap_master_key prims cipher' env key fresh answers with_master
          ≡ (ok tt, with_master)
    unfolding bootstrap_master_key
    not_again cipher' env key fresh answers up = rw (up 0) (rw found)

    -- A start that finds the Master changes nothing.
    later :
        (cipher' : SecretCipher prims.Cipher) (env : Environment) (fresh : Fresh)
        (answers : ℕ → Bool)
        → ((n : ℕ) → answers n ≡ true)
        → start prims cipher' env fresh answers (some true) with_master ≡ (
          restarted master.id
              (validate_initial_master_key env.initial_master_key)
              (open_secret prims cipher' stored),
          with_master,
        )
    unfolding start
    later cipher' env fresh answers up =
        elim (Result-cases (validate_initial_master_key env.initial_master_key)) [
          | inl (e, p) ↦ rw (p, start)
          | inr (key, p) ↦
              rw (p, start)
                (rw (not_again cipher' env key fresh answers up) (rw (settled cipher' answers up)))
        ]

  -- In a table without a Master, with its unique index in place, a usable environment and every query
  -- answered, the first start inserts a Master and pins it; its key finds the row, whose stored secret
  -- opens to the secret that was chosen. A later start, with whatever variables and cipher, leaves the
  -- rows as they are: it is refused where its INITIAL_MASTER_KEY is malformed or its cipher does not open
  -- the stored secret, and otherwise pins the same Master.
  pub start_lem :
      (env env' : Environment) (cipher' : SecretCipher prims.Cipher) (key : Option Text)
      (fresh fresh' : Fresh) (answers answers' : ℕ → Bool) (stored : Text) (db : Db)
      → find_master db.api_keys ≡ none
      → ((n : ℕ) → answers n ≡ true)
      → ((n : ℕ) → answers' n ≡ true)
      → validate_initial_master_key env.initial_master_key ≡ ok key
      → length fresh.nonce ≡ nonce_len
      → from_utf8 (chosen_secret env.initial_master_signing_secret fresh.signing_secret)
        ≡ some (chosen_secret env.initial_master_signing_secret fresh.signing_secret)
      → seal prims cipher fresh.nonce
          (chosen_secret env.initial_master_signing_secret fresh.signing_secret)
        ≡ ok stored
      → let master = master_row prims cipher env key fresh stored in
        let booted : Db = record db { api_keys = master ∷ db.api_keys } in
        (start prims cipher env fresh answers (some true) db
          ≡ (ok (record { cell = some fresh.id }), booted))
        × (start prims cipher' env' fresh' answers' (some true) booted ≡ (
          restarted fresh.id
              (validate_initial_master_key env'.initial_master_key)
              (open_secret prims cipher' stored),
          booted,
        ))
        × (find_by_hash (hex_encode (sha256 (or_else key fresh.random_key))) booted.api_keys
            ≡ some master)
        × (open_secret prims cipher stored
            ≡ ok (chosen_secret env.initial_master_signing_secret fresh.signing_secret))
  unfolding start bootstrap_master_key find_by_hash
  start_lem env env' cipher' key fresh fresh' answers answers' stored db none_yet up up' valid n u
        s =
      let secret = chosen_secret env.initial_master_signing_secret fresh.signing_secret in
      let master = master_row prims cipher env key fresh stored in
      let readable : open_secret prims cipher stored ≡ ok secret =
        open_secret-seal prims hex decrypts cipher cipher fresh.nonce secret stored (inr refl) n u
          s in
      let made : bootstrap_master_key prims cipher env key fresh answers db
          ≡ (ok tt, record db { api_keys = master ∷ db.api_keys }) =
        rw (up 0) (rw none_yet (rw s (rw (up 1)))) in
      (
        rw (valid, start)
            (rw made
              (rw (settled db none_yet master stored refl refl cipher answers up) (rw readable))),
        later db none_yet master stored refl refl cipher' env' fresh' answers' up',
        rw (
            is_yes_of
              (Text-discrete master.key_hash (hex_encode (sha256 (or_else key fresh.random_key))))
              refl),
        readable,
      )
