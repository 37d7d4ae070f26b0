-- ===== src/Keys/Guarded.antt =====
-- Who may manage keys.
use simply_ip_exporter.Prelude.{ℕ, ◌≡◌, false, Option, arith}
use simply_ip_exporter.Prelude.Result.{err}
use simply_ip_exporter.Prelude.Net.{IpNets}
use simply_ip_exporter.Crypto.{Primitives, SecretCipher}
use simply_ip_exporter.Entities.{Db}
use simply_ip_exporter.Error.{forbidden, only_master_manages_keys}
use simply_ip_exporter.Keys.{
  CreateKeyPayload, UpdateKeyPayload, new_key, create_api_key, existing, updated_key,
  update_api_key, rotated_key, rotate_api_key, resigned_key, rotate_signing_secret,
  delete_transaction, delete_api_key,
}
use simply_ip_exporter.Support.{Display, Call, require_master}

module _ (nets : IpNets) (prims : Primitives) (cipher : SecretCipher prims.Cipher)
    (display : Display) where
  -- A caller that is not the Master creates, updates, rotates and deletes nothing: each call is refused
  -- with 403 and leaves every row as it is.
  pub require_master_lem :
      (c : Call) (id : ℕ) (new : CreateKeyPayload) (change : UpdateKeyPayload)
      (reassign_to : Option ℕ) (db : Db)
      → c.caller.is_master ≡ false
      → (create_api_key nets prims cipher display c new db
          ≡ (err (forbidden only_master_manages_keys), db))
        × (update_api_key nets prims cipher display c id change db
            ≡ (err (forbidden only_master_manages_keys), db))
        × (rotate_api_key nets prims cipher display c id db
            ≡ (err (forbidden only_master_manages_keys), db))
        × (rotate_signing_secret nets prims cipher display c id db
            ≡ (err (forbidden only_master_manages_keys), db))
        × (delete_api_key nets prims cipher display c id reassign_to db
            ≡ (err (forbidden only_master_manages_keys), db))
  unfolding create_api_key new_key update_api_key updated_key existing rotate_api_key rotated_key
      rotate_signing_secret resigned_key delete_api_key delete_transaction require_master
  require_master_lem c id new change reassign_to db h =
      (ground arith, ground arith, ground arith, ground arith, ground arith)
