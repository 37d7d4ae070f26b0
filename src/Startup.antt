-- ===== src/Startup.antt =====
-- src/main.rs: the start of the process, up to the pinned Master, with the INITIAL_MASTER_KEY check
-- of src/config.rs. The environment, the random values and the answers of the database are arguments.
pub mod FirstBoot
use simply_ip_exporter.Prelude.{
  ℕ, suc, ◌+◌, Bool, true, false, not, ◌==◌, Option, none, some, List, [], ◌∷◌, length, take,
  is_empty, if◌then◌else◌,
}
use simply_ip_exporter.Prelude.Result.{Result, ok, err, ◌>>=◌, ◌>>◌, refuse_if, map_err}
use simply_ip_exporter.Prelude.Text.{Text, codes, trim, is_ascii_hexdigit}
use simply_ip_exporter.Crypto.{Primitives, SecretCipher, CryptoError, seal, open_secret}
use simply_ip_exporter.Entities.{ApiKey, Db}
use simply_ip_exporter.Master.{MasterPin, MasterPinError, pin_at_boot, new}

-- src/config.rs. `non_hex` carries the byte that was found and its position.
pub data InitialMasterKeyError : Type 0 where
  empty : InitialMasterKeyError
  bad_length : ℕ → InitialMasterKeyError
  non_hex : ℕ → ℕ → InitialMasterKeyError

abbrev pub initial_master_key_hex_len : ℕ
initial_master_key_hex_len = 64

-- `char_indices().find(|(_, c)| !c.is_ascii_hexdigit())`, from the position `index`.
pub find_non_hex : ℕ → Text → Option (ℕ × ℕ)
find_non_hex index [] = none
find_non_hex index (c ∷ s) =
    let rest = find_non_hex (suc index) s in
    if not (is_ascii_hexdigit c) then some (index, c) else rest

unfoldable pub validate_initial_master_key :
    Option Text → Result InitialMasterKeyError (Option Text)
validate_initial_master_key none = ok none
validate_initial_master_key (some raw) =
    let candidate = trim raw in
    if is_empty candidate then err empty else elim (find_non_hex 0 candidate) [
      | some (index, found) ↦ err (non_hex found index)
      | none ↦
          if not (length candidate == initial_master_key_hex_len)
          then err (bad_length (length candidate))
          else ok (some candidate)
    ]

-- Why the process does not start.
pub data StartError : Type 0 where
  bad_master_key : InitialMasterKeyError → StartError
  db_failed : StartError
  crypto : CryptoError → StartError
  encryption_key_mismatch : CryptoError → StartError
  pin : MasterPinError → StartError

-- The variables that the bootstrap reads.
pub record Environment : Type 0 where
  pub initial_master_key : Option Text
  pub bootstrap_subnet : Option Text
  pub initial_master_signing_secret : Option Text

-- The random values and the time.
pub record Fresh : Type 0 where
  pub id : ℕ
  pub random_key : Text
  pub signing_secret : Text
  pub nonce : Text
  pub now : ℕ

-- `find().filter(IsMaster.eq(true)).one(db)`.
unfoldable pub find_master : List ApiKey → Option ApiKey
find_master [] = none
find_master (k ∷ ks) = let rest = find_master ks in if k.is_master then some k else rest

abbrev pub or_else : Option Text → Text → Text
or_else none default = default
or_else (some given) default = given

-- An empty INITIAL_MASTER_SIGNING_SECRET is as good as none.
abbrev pub chosen_secret : Option Text → Text → Text
chosen_secret none random = random
chosen_secret (some fixed) random = if is_empty fixed then random else fixed

module _ (prims : Primitives) (cipher : SecretCipher prims.Cipher) where
  open prims use {sha256, hex_encode}

  -- The row of the new Master.
  abbrev pub master_row : Environment → Option Text → Fresh → Text → ApiKey
  master_row env initial_master_key fresh sealed =
      let plaintext_key = or_else initial_master_key fresh.random_key in
      record {
        id = fresh.id;
        name = codes "System Master";
        prefix = take 8 plaintext_key;
        key_hash = hex_encode (sha256 plaintext_key);
        signing_secret = some sealed;
        bound_ips = some (or_else env.bootstrap_subnet (codes "0.0.0.0/0,::/0"));
        is_master = true;
        can_manage_keys = true;
        parent_key_id = none;
        owner_key_id = none;
        created_at = fresh.now;
        updated_at = fresh.now;
      }

  -- `answers n` says whether the n-th query succeeds.
  pub bootstrap_master_key :
      Environment → Option Text → Fresh → (ℕ → Bool) → Db → Result StartError (Unit {0}) × Db
  bootstrap_master_key env initial_master_key fresh answers db =
      if not (answers 0) then (err db_failed, db) else elim (find_master db.api_keys) [
        | some master ↦ (ok tt, db)
        | none ↦
            let secret = chosen_secret env.initial_master_signing_secret fresh.signing_secret in
            elim (seal prims cipher fresh.nonce secret) [
              | err e ↦ (err (crypto e), db)
              | ok sealed ↦ if not (answers 1) then (err db_failed, db) else (
                ok tt,
                record db {
                  api_keys = master_row env initial_master_key fresh sealed ∷ db.api_keys;
                },
              )
            ]
      ]

  pub verify_encryption_key : Bool → Db → Result StartError (Unit {0})
  verify_encryption_key answers db =
      refuse_if (not answers) db_failed >> elim (find_master db.api_keys) [
        | none ↦ ok tt
        | some master ↦ elim master.signing_secret [
          | none ↦ ok tt
          | some stored ↦
              map_err encryption_key_mismatch (open_secret prims cipher stored) >>= λ secret. ok tt
        ]
      ]

  -- The order of `main` after the variables are read; `index` is what the query for the unique index
  -- finds. Queries 0 and 1 are those of the bootstrap, 2 that of the canary, 3 that of the pin.
  pub settle : (ℕ → Bool) → Option Bool → Db → Result StartError MasterPin
  settle answers index db =
      verify_encryption_key (answers 2) db
      >> (let pinned = pin_at_boot index (answers 3) db.api_keys new in
          map_err pin pinned.0 >>= λ id. ok pinned.1)

  pub start : Environment → Fresh → (ℕ → Bool) → Option Bool → Db → Result StartError MasterPin × Db
  start env fresh answers index db = elim (validate_initial_master_key env.initial_master_key) [
    | err e ↦ (err (bad_master_key e), db)
    | ok initial_master_key ↦
        let booted = bootstrap_master_key env initial_master_key fresh answers db in
        (booted.0 >> settle answers index booted.1, booted.1)
  ]
