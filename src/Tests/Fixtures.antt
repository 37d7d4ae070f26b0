-- ===== src/Tests/Fixtures.antt =====
-- The small worlds of the tests.
use simply_ip_exporter.Prelude.{
  ℕ, zero, suc, ◌+◌, ◌*◌, ◌/◌, ◌≡◌, refl, ap, ◌∙◌, Bool, true, false, Option, none, some, [], ◌∷◌,
  all, length, ◌==◌, ==-refl, is_yes, if◌then◌else◌, arith,
}
use simply_ip_exporter.Prelude.Net.{IpAddr, v4, v6, IpNets}
use simply_ip_exporter.Prelude.Text.{Text, Text-discrete, codes, is_ascii_hexdigit}
use simply_ip_exporter.Crypto.{Primitives}
use simply_ip_exporter.Crypto.AtRest.{Decrypts}
use simply_ip_exporter.Crypto.Signing.{IsHex}
use simply_ip_exporter.IpFilter.Published.{Nested, Aggregates}

-- The address with the first byte `a` and the rest `r`.
abbrev pub host : ℕ → ℕ → IpAddr
host a r = v4 (a * 16_777_216 + r)

-- The IPv4 blocks of length 8, by their first byte; a few spellings parse.
abbrev pub block_of : IpAddr → ℕ
block_of (v4 n) = n / 16_777_216
block_of (v6 n) = 999

abbrev pub in_block : ℕ → IpAddr → Bool
in_block b (v4 n) = n / 16_777_216 == b
in_block b (v6 n) = false

abbrev pub spelled : Text → Text → Bool
spelled s t = is_yes (Text-discrete s t)

abbrev pub blocks : IpNets
blocks = record {
  IpNet = ℕ;
  parse_net = λ s.
      if spelled s (codes "10.0.0.0/8")
      then some 10
      else if spelled s (codes "127.0.0.0/8")
      then some 127
      else if spelled s (codes "8.0.0.0/8")
      then some 8
      else none;
  parse_addr = λ s.
      if spelled s (codes "10.0.0.1")
      then some (host 10 1)
      else if spelled s (codes "8.8.8.8")
      then some (host 8 526_344)
      else none;
  from_addr = block_of;
  contains = in_block;
  network = λ b. host b 0;
  aggregate = λ networks. networks;
  display = λ b. b ∷ [];
}

pub blocks-Nested : Nested blocks
blocks-Nested a b (v4 n) h k = ground arith
blocks-Nested a b (v6 n) h k = cc

pub blocks-Aggregates : Aggregates blocks
blocks-Aggregates networks ip = refl

-- A byte in hexadecimal digits: as many ones as it counts, and a zero.
abbrev ones : ℕ → Text → Text
ones zero s = s
ones (suc n) s = b'1' ∷ ones n s

abbrev encode : Text → Text
encode [] = []
encode (n ∷ s) = ones n (b'0' ∷ encode s)

abbrev decode_from : ℕ → Text → Option Text
decode_from n [] = if n == 0 then some [] else none
decode_from n (c ∷ s) =
    let more = decode_from (suc n) s in
    let next = decode_from 0 s in
    if c == b'1' then more else elim next [ none ↦ none | some bytes ↦ some (n ∷ bytes) ]

abbrev decode : Text → Option Text
decode s = decode_from 0 s

ones-digits :
    (n : ℕ) (s : Text) → all is_ascii_hexdigit s ≡ true → all is_ascii_hexdigit (ones n s) ≡ true
ones-digits zero s h = h
ones-digits (suc n) s h = ones-digits n s h

pub encode-digits : (s : Text) → all is_ascii_hexdigit (encode s) ≡ true
encode-digits [] = refl
encode-digits (n ∷ s) = ones-digits n (b'0' ∷ encode s) (encode-digits s)

decode_from-ones : (n m k : ℕ) (s : Text) → n + m ≡ k → decode_from m (ones n s) ≡ decode_from k s
decode_from-ones zero m k s e = let e' : m ≡ k = omega arith in ap (λ i. decode_from i s) e'
decode_from-ones (suc n) m k s e = decode_from-ones n (suc m) k s (omega arith)

pub encode-decodes : (s : Text) → decode (encode s) ≡ some s
encode-decodes [] = refl
encode-decodes (n ∷ s) =
    decode_from-ones n 0 n (b'0' ∷ encode s) (omega arith) ∙ rw (encode-decodes s) refl

-- A toy code, hash and cipher.
abbrev pub toys : Primitives
toys = record {
  Cipher = ℕ;
  hmac = λ secret payload. some (length payload ∷ length secret ∷ []);
  sha256 = λ s. s;
  hex_encode = encode;
  hex_decode = decode;
  from_utf8 = λ s. some s;
  new_cipher = length;
  encrypt = λ c nonce secret. some (c ∷ secret);
  decrypt = λ c nonce ciphertext. elim ciphertext [
    | [] ↦ none
    | k ∷ secret ↦ if k == c then some secret else none
  ];
}

pub toys-IsHex : IsHex toys
toys-IsHex = record { digits = encode-digits; decodes = encode-decodes }

pub toys-Decrypts : Decrypts toys
toys-Decrypts c nonce secret ciphertext h =
    let e : c ∷ secret ≡ ciphertext = cc in rw (← e) (rw (==-refl c))
