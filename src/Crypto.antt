-- ===== src/Crypto.antt =====
-- src/crypto.rs: request signing, and secrets at rest. The `hmac`, `sha2`, `hex` and
-- `chacha20poly1305` crates and `String::from_utf8` are an interface; randomness is an argument.
pub mod Signing
pub mod AtRest
use simply_ip_exporter.Prelude.{
  ℕ, ◌*◌, Bool, true, false, not, ◌&&◌, ◌||◌, Option, none, some, List, [], ◌∷◌, ◌++◌, length, ◌==◌,
  is_empty, is_yes, if◌then◌else◌,
}
use simply_ip_exporter.Prelude.Result.{Result, ok, err, ◌>>=◌, ◌>>◌, ok_or, refuse_if}
use simply_ip_exporter.Prelude.Text.{Text, Text-discrete, codes, trim, strip_prefix, split_once}

-- `hmac` has no answer when the secret is no key material; `decrypt` has none when the text is not
-- authentic.
pub record Primitives : Type 1 where
  pub Cipher : Type 0
  pub hmac : Text → Text → Option Text
  pub sha256 : Text → Text
  pub hex_encode : Text → Text
  pub hex_decode : Text → Option Text
  pub from_utf8 : Text → Option Text
  pub new_cipher : Text → Cipher
  pub encrypt : Cipher → Text → Text → Option Text
  pub decrypt : Cipher → Text → Text → Option Text

abbrev pub signature_prefix : Text
signature_prefix = codes "sha256="

unfoldable pub canonical_v1_payload : Text → Text → Text → Text → Text
canonical_v1_payload method target timestamp body =
    method ++ b'\n' ∷ (target ++ b'\n' ∷ (timestamp ++ b'\n' ∷ body))

pub data SignatureRejection : Type 0 where
  missing_prefix malformed_hex mismatch key_unusable : SignatureRejection

pub data CryptoError : Type 0 where
  invalid_key malformed_ciphertext decryption_failed encryption_failed : CryptoError

abbrev pub plaintext_prefix : Text
plaintext_prefix = codes "v1.plain."

abbrev pub sealed_prefix : Text
sealed_prefix = codes "v1.xchacha20poly1305."

abbrev pub nonce_len : ℕ
nonce_len = 24

abbrev pub key_len : ℕ
key_len = 32

pub data SecretCipher (Cipher : Type 0) : Type 0 where
  plaintext : SecretCipher Cipher
  sealed : Cipher → SecretCipher Cipher

module _ (prims : Primitives) where
  open prims use {
    Cipher, hmac, sha256, hex_encode, hex_decode, from_utf8, new_cipher, encrypt, decrypt,
  }

  unfoldable pub compute_signature : Text → Text → Option Text
  compute_signature secret payload = elim (hmac secret payload) [
    | none ↦ none
    | some digest ↦ some (signature_prefix ++ hex_encode digest)
  ]

  unfoldable pub verify_signature : Text → Text → Text → Result SignatureRejection Text
  verify_signature secret payload provided =
      ok_or (strip_prefix signature_prefix (trim provided)) missing_prefix >>= λ hex_digest.
      ok_or (hex_decode (trim hex_digest)) malformed_hex >>= λ provided_bytes.
      ok_or (hmac secret payload) key_unusable >>= λ digest.
      refuse_if (not (is_yes (Text-discrete digest provided_bytes))) mismatch >> ok provided_bytes

  pub from_hex_key : Text → Result CryptoError (SecretCipher Cipher)
  from_hex_key hex_key = ok_or (hex_decode hex_key) invalid_key >>= λ bytes.
      refuse_if (not (length bytes == key_len)) invalid_key >> ok (sealed (new_cipher bytes))

  -- The environment variable is the argument.
  pub from_env : Option Text → Result CryptoError (SecretCipher Cipher)
  from_env none = ok plaintext
  from_env (some raw) = if is_empty (trim raw) then ok plaintext else from_hex_key (trim raw)

  unfoldable pub seal : SecretCipher Cipher → Text → Text → Result CryptoError Text
  seal plaintext nonce_bytes secret = ok (plaintext_prefix ++ hex_encode secret)
  seal (sealed cipher) nonce_bytes secret =
      ok_or (encrypt cipher nonce_bytes secret) encryption_failed >>= λ ciphertext.
      ok (sealed_prefix ++ (hex_encode nonce_bytes ++ b'.' ∷ hex_encode ciphertext))

  -- The row is sealed: without a key it stays shut.
  pub decrypt_with : SecretCipher Cipher → Text → Text → Result CryptoError Text
  decrypt_with plaintext nonce ciphertext = err decryption_failed
  decrypt_with (sealed cipher) nonce ciphertext =
      ok_or (decrypt cipher nonce ciphertext) decryption_failed >>= λ bytes.
      ok_or (from_utf8 bytes) malformed_ciphertext

  pub open_sealed : SecretCipher Cipher → Text → Result CryptoError Text
  open_sealed c stored = ok_or (strip_prefix sealed_prefix stored) malformed_ciphertext >>= λ body.
      ok_or (split_once b'.' body) malformed_ciphertext >>= λ (nonce_hex, ciphertext_hex).
      ok_or (hex_decode nonce_hex) malformed_ciphertext >>= λ nonce_bytes.
      refuse_if (not (length nonce_bytes == nonce_len)) malformed_ciphertext
      >> (ok_or (hex_decode ciphertext_hex) malformed_ciphertext >>= λ ciphertext.
          decrypt_with c nonce_bytes ciphertext)

  -- `SecretCipher::open`.
  unfoldable pub open_secret : SecretCipher Cipher → Text → Result CryptoError Text
  open_secret c stored = elim (strip_prefix plaintext_prefix stored) [
    | some encoded ↦ ok_or (hex_decode encoded) malformed_ciphertext >>= λ bytes.
        ok_or (from_utf8 bytes) malformed_ciphertext
    | none ↦ open_sealed c stored
  ]
