-- ===== src/Crypto/Signing.antt =====
-- Signatures and the text that is signed.
use simply_ip_exporter.Prelude.{
  ℕ, ◌≡◌, refl, ap, ◌∙◌, Bool, true, false, not, some, [], ◌∷◌, ◌++◌, all, inl, inr, Bool-cases,
  ◌==◌, is_yes, is_yes_of, yes_of, arith,
}
use simply_ip_exporter.Prelude.Result.{
  ok, ok_or, ok_or-ok, refuse_if, refuse_if-ok, >>=-eq-ok, ◌>>=◌, ◌>>◌,
}
use simply_ip_exporter.Prelude.Text.{
  Text, Text-discrete, trim, trim_id, is_whitespace, strip_prefix, strip_prefix-append,
  is_ascii_hexdigit,
}
use simply_ip_exporter.Crypto.{
  Primitives, signature_prefix, canonical_v1_payload, missing_prefix, malformed_hex, mismatch,
  key_unusable, compute_signature, verify_signature,
}

-- No line break.
abbrev pub IsLine : Text → Type 0
IsLine s = all (λ c. not (c == b'\n')) s ≡ true

IsLine-tail : (c : ℕ) (s : Text) → IsLine (c ∷ s) → IsLine s
IsLine-tail c s h = elim (Bool-cases (c == b'\n')) [
  | inl p ↦ absurd (let h' : false ≡ true = rw p at h in cc)
  | inr p ↦ rw p at h
]

line-injective :
    (a b x y : Text) → IsLine a → IsLine b → a ++ b'\n' ∷ x ≡ b ++ b'\n' ∷ y → (a ≡ b) × (x ≡ y)
line-injective [] [] x y p q h = (refl, cc)
line-injective [] (d ∷ b) x y p q h = absurd (let e : b'\n' ≡ d = cc in ground arith)
line-injective (c ∷ a) [] x y p q h = absurd (let e : c ≡ b'\n' = cc in ground arith)
line-injective (c ∷ a) (d ∷ b) x y p q h =
    let e : c ≡ d = cc in
    let h' : a ++ b'\n' ∷ x ≡ b ++ b'\n' ∷ y = cc in
    let r = line-injective a b x y (IsLine-tail c a p) (IsLine-tail d b q) h' in (cc, r.1)

-- The signed text determines the request: no two requests, whose methods, targets and timestamps have
-- no line break, share it.
pub canonical_v1_payload-injective :
    (method target timestamp body method' target' timestamp' body' : Text)
    → IsLine method
    → IsLine method'
    → IsLine target
    → IsLine target'
    → IsLine timestamp
    → IsLine timestamp'
    → canonical_v1_payload method target timestamp body
      ≡ canonical_v1_payload method' target' timestamp' body'
    → (method ≡ method') × (target ≡ target') × (timestamp ≡ timestamp') × (body ≡ body')
unfolding canonical_v1_payload
canonical_v1_payload-injective method target timestamp body method' target' timestamp' body' m m' t
      t' s s' h =
    let r₁ =
      line-injective method method' (target ++ b'\n' ∷ (timestamp ++ b'\n' ∷ body))
        (target' ++ b'\n' ∷ (timestamp' ++ b'\n' ∷ body')) m m' h in
    let r₂ =
      line-injective target target' (timestamp ++ b'\n' ∷ body) (timestamp' ++ b'\n' ∷ body') t t'
        r₁.1 in
    let r₃ = line-injective timestamp timestamp' body body' s s' r₂.1 in (r₁.0, r₂.0, r₃.0, r₃.1)

-- What the code relies on in the `hex` crate: an encoding is hexadecimal digits, and is decoded to
-- what was encoded.
pub record IsHex (prims : Primitives) : Type 0 where
  pub digits : (bytes : Text) → all is_ascii_hexdigit (prims.hex_encode bytes) ≡ true
  pub decodes : (bytes : Text) → prims.hex_decode (prims.hex_encode bytes) ≡ some bytes

not_space : (c : ℕ) → is_ascii_hexdigit c ≡ true → is_whitespace c ≡ false
not_space c h = ground arith

hex_unspaced :
    (s : Text) → all is_ascii_hexdigit s ≡ true → all (λ c. not (is_whitespace c)) s ≡ true
hex_unspaced [] h = refl
hex_unspaced (c ∷ s) h = elim (Bool-cases (is_ascii_hexdigit c)) [
  | inl p ↦ rw (not_space c p) (hex_unspaced s (rw p at h))
  | inr p ↦ absurd (let h' : false ≡ true = rw p at h in cc)
]

module _ (prims : Primitives) (hex : IsHex prims) where
  open prims use {hmac, hex_encode, hex_decode}

  -- The verifier accepts a computed signature and returns the digest that it stands for.
  pub verify_signature-compute_signature :
      (secret payload digest signature : Text)
      → hmac secret payload ≡ some digest
      → compute_signature prims secret payload ≡ some signature
      → verify_signature prims secret payload signature ≡ ok digest
  unfolding compute_signature verify_signature
  verify_signature-compute_signature secret payload digest signature d h =
      let h' : some (signature_prefix ++ hex_encode digest) ≡ some signature =
        rw (d, compute_signature) at h in
      let e : signature_prefix ++ hex_encode digest ≡ signature = cc in
      rw (← e) (
        rw
          (trim_id (signature_prefix ++ hex_encode digest)
            (hex_unspaced (hex_encode digest) (hex.digits digest)))
          (rw (strip_prefix-append signature_prefix (hex_encode digest)) (
            rw (trim_id (hex_encode digest) (hex_unspaced (hex_encode digest) (hex.digits digest)))
              (rw (hex.decodes digest)
                (rw d (rw (is_yes_of (Text-discrete digest digest) refl)))))))

not-false : (b : Bool) → not b ≡ false → b ≡ true
not-false true h = refl
not-false false h = absurd cc

-- A signature that is accepted is the code of the text under the secret.
pub verify_signature-ok :
    (prims : Primitives) (secret payload provided digest : Text)
    → verify_signature prims secret payload provided ≡ ok digest
    → prims.hmac secret payload ≡ some digest
unfolding verify_signature
verify_signature-ok prims secret payload provided digest h =
    let (hex_digest, p, h₁) =
      >>=-eq-ok (ok_or (strip_prefix signature_prefix (trim provided)) missing_prefix)
        (λ hex_digest.
          ok_or (prims.hex_decode (trim hex_digest)) malformed_hex >>= λ provided_bytes.
          ok_or (prims.hmac secret payload) key_unusable >>= λ digest.
          refuse_if (not (is_yes (Text-discrete digest provided_bytes))) mismatch
          >> ok provided_bytes)
        h in
    let (bytes, q, h₂) =
      >>=-eq-ok (ok_or (prims.hex_decode (trim hex_digest)) malformed_hex)
        (λ provided_bytes. ok_or (prims.hmac secret payload) key_unusable >>= λ digest.
          refuse_if (not (is_yes (Text-discrete digest provided_bytes))) mismatch
          >> ok provided_bytes)
        h₁ in
    let (code, r, h₃) =
      >>=-eq-ok (ok_or (prims.hmac secret payload) key_unusable)
        (λ digest. refuse_if (not (is_yes (Text-discrete digest bytes))) mismatch >> ok bytes) h₂ in
    let (u, t, h₄) =
      >>=-eq-ok (refuse_if (not (is_yes (Text-discrete code bytes))) mismatch) (λ u. ok bytes) h₃ in
    let e : bytes ≡ digest = cc in
    ok_or-ok (prims.hmac secret payload) key_unusable r
    ∙ ap some (
        yes_of (Text-discrete code bytes) (
          not-false (is_yes (Text-discrete code bytes))
            (refuse_if-ok (not (is_yes (Text-discrete code bytes))) mismatch u t))
        ∙ e)
