-- ===== src/Crypto/AtRest.antt =====
-- Secrets that are stored are recovered.
use simply_ip_exporter.Prelude.{
  ℕ, ◌≡◌, refl, ◌⊎◌, inl, inr, true, false, not, none, some, [], ◌∷◌, ◌++◌, length, all, Bool-cases,
  Option-cases, ◌==◌, arith,
}
use simply_ip_exporter.Prelude.Result.{ok, err}
use simply_ip_exporter.Prelude.Text.{
  Text, strip_prefix, strip_prefix-append, split_once-append, is_ascii_hexdigit,
}
use simply_ip_exporter.Crypto.{
  Primitives, SecretCipher, plaintext, sealed, CryptoError, plaintext_prefix, sealed_prefix,
  nonce_len, seal, decrypt_with, open_sealed, open_secret,
}
use simply_ip_exporter.Crypto.Signing.{IsHex}

-- What the code relies on in the cipher: what was encrypted is decrypted under the same key and nonce.
abbrev pub Decrypts : Primitives → Type 0
Decrypts prims =
    (c : prims.Cipher) (nonce secret ciphertext : Text)
    → prims.encrypt c nonce secret ≡ some ciphertext
    → prims.decrypt c nonce ciphertext ≡ some secret

not_dot : (c : ℕ) → is_ascii_hexdigit c ≡ true → (c == b'.') ≡ false
not_dot c h = ground arith

hex_undotted : (s : Text) → all is_ascii_hexdigit s ≡ true → all (λ c. not (c == b'.')) s ≡ true
hex_undotted [] h = refl
hex_undotted (c ∷ s) h = elim (Bool-cases (is_ascii_hexdigit c)) [
  | inl p ↦ rw (not_dot c p) (hex_undotted s (rw p at h))
  | inr p ↦ absurd (let h' : false ≡ true = rw p at h in cc)
]

module _ (prims : Primitives) (hex : IsHex prims) (decrypts : Decrypts prims) where
  open prims use {Cipher, hex_encode, hex_decode, from_utf8, encrypt, decrypt}

  open-plaintext :
      (reader : SecretCipher Cipher) (secret : Text)
      → from_utf8 secret ≡ some secret
      → open_secret prims reader (plaintext_prefix ++ hex_encode secret) ≡ ok secret
  unfolding open_secret
  open-plaintext reader secret u =
      rw (strip_prefix-append plaintext_prefix (hex_encode secret), open_secret)
        (rw (hex.decodes secret) (rw u))

  not_plaintext : (s : Text) → strip_prefix plaintext_prefix (sealed_prefix ++ s) ≡ none
  unfolding strip_prefix
  not_plaintext s = refl

  open-sealed :
      (c : Cipher) (nonce secret ciphertext : Text)
      → length nonce ≡ nonce_len
      → from_utf8 secret ≡ some secret
      → encrypt c nonce secret ≡ some ciphertext
      → open_secret prims
          (sealed c)
          (sealed_prefix ++ (hex_encode nonce ++ b'.' ∷ hex_encode ciphertext))
        ≡ ok secret
  unfolding open_secret open_sealed decrypt_with
  open-sealed c nonce secret ciphertext n u e =
      rw (not_plaintext (hex_encode nonce ++ b'.' ∷ hex_encode ciphertext), open_secret)
        (rw (strip_prefix-append sealed_prefix (hex_encode nonce ++ b'.' ∷ hex_encode ciphertext)) (
          rw
            (split_once-append b'.' (hex_encode nonce) (hex_encode ciphertext)
              (hex_undotted (hex_encode nonce) (hex.digits nonce)))
            (rw (hex.decodes nonce) (
              rw n
                (rw (hex.decodes ciphertext) (rw (decrypts c nonce secret ciphertext e) (rw u)))))))

  -- A secret that was stored, in the clear or under a key, is read back as it was written: by every
  -- reader when it was stored in the clear, and otherwise by a reader with the same key.
  pub open_secret-seal :
      (writer reader : SecretCipher Cipher) (nonce secret stored : Text)
      → (writer ≡ plaintext) ⊎ (writer ≡ reader)
      → length nonce ≡ nonce_len
      → from_utf8 secret ≡ some secret
      → seal prims writer nonce secret ≡ ok stored
      → open_secret prims reader stored ≡ ok secret
  unfolding seal
  open_secret-seal plaintext reader nonce secret stored w n u h =
      let e : plaintext_prefix ++ hex_encode secret ≡ stored = cc in
      rw (← e) (open-plaintext reader secret u)
  open_secret-seal (sealed c) plaintext nonce secret stored w n u h =
      absurd (elim w [ inl p ↦ cc | inr p ↦ cc ])
  open_secret-seal (sealed c) (sealed d) nonce secret stored w n u h =
      let same : c ≡ d = elim w [ inl p ↦ absurd cc | inr p ↦ cc ] in
      elim (Option-cases (encrypt c nonce secret)) [
        | inl p ↦
            absurd
              (let h' : err CryptoError.encryption_failed ≡ ok stored = rw (p, seal) at h in cc)
        | inr (ciphertext, p) ↦
            let h' : ok (sealed_prefix ++ (hex_encode nonce ++ b'.' ∷ hex_encode ciphertext))
                ≡ ok stored =
              rw (p, seal) at h in
            let e : sealed_prefix ++ (hex_encode nonce ++ b'.' ∷ hex_encode ciphertext) ≡ stored =
              cc in
            rw (← e) (rw (← same) (open-sealed c nonce secret ciphertext n u p))
      ]
