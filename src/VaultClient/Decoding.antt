-- ===== src/VaultClient/Decoding.antt =====
-- `urlencode`, against a reader of form encoding.
use simply_ip_exporter.Prelude.{
  ℕ, ◌+◌, ◌-◌, ◌*◌, ◌/◌, ◌%◌, ◌<◌, ◌≡◌, refl, ap, ◌∙◌, subst, ◌≤◌, Bool, true, false, not, ◌&&◌,
  ◌==◌, Option, none, some, [], ◌∷◌, All, all, inl, inr, Bool-cases, ltb, leb, arith, if◌then◌else◌,
}
use simply_ip_exporter.Prelude.Text.{Text}
use simply_ip_exporter.VaultClient.Wire.{is_kept, upper_hex, urlencode}

-- The reading of form encoding: `escape` is after a `%`, `half` after its first digit.
pub data Pending : Type 0 where
  plain escape : Pending
  half : ℕ → Pending

hex_value : ℕ → Option ℕ
hex_value c =
    if leb b'0' c && leb c b'9'
    then some (c - b'0')
    else if leb b'A' c && leb c b'F'
    then some (c - b'A' + 10)
    else none

prepend : ℕ → Option Text → Option Text
prepend c none = none
prepend c (some s) = some (c ∷ s)

pub decode_from : Pending → Text → Option Text
decode_from plain [] = some []
decode_from escape [] = none
decode_from (half h) [] = none
decode_from plain (c ∷ s) =
    let escaped = decode_from escape s in
    let rest = decode_from plain s in
    if c == b'%' then escaped else prepend (if c == b'+' then b' ' else c) rest
decode_from escape (c ∷ s) = elim (hex_value c) [ none ↦ none | some h ↦ decode_from (half h) s ]
decode_from (half h) (c ∷ s) =
    let rest = decode_from plain s in
    elim (hex_value c) [ none ↦ none | some l ↦ prepend (16 * h + l) rest ]

-- The text that a form-encoded one stands for.
abbrev pub percent_decode : Text → Option Text
percent_decode s = decode_from plain s

abbrev pub IsByte : ℕ → Type 0
IsByte c = c < 256

upper_hex_below : (d : ℕ) → ltb d 10 ≡ true → hex_value (b'0' + d) ≡ some d
unfolding hex_value
upper_hex_below d p =
    let low : leb b'0' (b'0' + d) ≡ true = ground arith in
    let high : leb (b'0' + d) b'9' ≡ true = ground arith in rw low (rw high (ap some (omega arith)))

upper_hex_above : (d : ℕ) → d < 16 → ltb d 10 ≡ false → hex_value (b'A' + (d - 10)) ≡ some d
unfolding hex_value
upper_hex_above d h p =
    let letter : leb (b'A' + (d - 10)) b'9' ≡ false = ground arith in
    let above : leb b'0' (b'A' + (d - 10)) ≡ true = ground arith in
    let low : leb b'A' (b'A' + (d - 10)) ≡ true = ground arith in
    let high : leb (b'A' + (d - 10)) b'F' ≡ true = ground arith in
    let big : 10 ≤ d = ground arith in
    rw above (rw letter (rw low (rw high (ap some (omega arith)))))

hex_value-upper_hex : (d : ℕ) → d < 16 → hex_value (upper_hex d) ≡ some d
hex_value-upper_hex d h = elim (Bool-cases (ltb d 10)) [
  | inl p ↦ rw p (upper_hex_below d p)
  | inr p ↦ rw p (upper_hex_above d h p)
]

-- A byte that is kept is none that is not.
kept_apart : (c d : ℕ) → is_kept c ≡ true → is_kept d ≡ false → (c == d) ≡ false
kept_apart c d h k = elim (Bool-cases (c == d)) [
  | inl p ↦
      let e : c ≡ d = ground arith in
      let h' : is_kept d ≡ true = subst (λ x. is_kept x ≡ true) e h in absurd cc
  | inr p ↦ p
]

decode_kept :
    (c : ℕ) (s : Text) → is_kept c ≡ true → percent_decode (c ∷ s) ≡ prepend c (percent_decode s)
unfolding decode_from
decode_kept c s h = rw (kept_apart c b'%' h refl) (rw (kept_apart c b'+' h refl))

decode_hex :
    (a b h l : ℕ) (s : Text)
    → hex_value a ≡ some h
    → hex_value b ≡ some l
    → percent_decode (b'%' ∷ a ∷ b ∷ s) ≡ prepend (16 * h + l) (percent_decode s)
unfolding decode_from
decode_hex a b h l s p q =
    let second : decode_from (half h) (b ∷ s) ≡ prepend (16 * h + l) (percent_decode s) =
      rw (q, decode_from) in
    let first : decode_from escape (a ∷ b ∷ s) ≡ decode_from (half h) (b ∷ s) =
      rw (p, decode_from) in
    first ∙ second

decode_escaped :
    (h l : ℕ) (s : Text)
    → h < 16
    → l < 16
    → percent_decode (b'%' ∷ upper_hex h ∷ upper_hex l ∷ s)
      ≡ prepend (16 * h + l) (percent_decode s)
decode_escaped h l s p q =
    decode_hex (upper_hex h) (upper_hex l) h l s (hex_value-upper_hex h p) (hex_value-upper_hex l q)

pub percent_decode-urlencode :
    (raw : Text) → All IsByte raw → percent_decode (urlencode raw) ≡ some raw
unfolding urlencode prepend decode_from
percent_decode-urlencode [] h = refl
percent_decode-urlencode (c ∷ raw) (b, h) = elim (Bool-cases (is_kept c)) [
  | inl p ↦ rw p (decode_kept c (urlencode raw) p ∙ rw (percent_decode-urlencode raw h))
  | inr p ↦ rw p (
      decode_escaped (c / 16) (c % 16) (urlencode raw) (omega arith) (omega arith)
      ∙ rw (percent_decode-urlencode raw h) (ap (λ x. some (x ∷ raw)) (omega arith)))
]

-- No separator of a query string.
abbrev pub is_value : ℕ → Bool
is_value c = not (c == b'&')

upper_hex_value : (d : ℕ) → d < 16 → is_value (upper_hex d) ≡ true
upper_hex_value d h = ground arith

pub urlencode_values : (raw : Text) → All IsByte raw → all is_value (urlencode raw) ≡ true
unfolding urlencode
urlencode_values [] h = refl
urlencode_values (c ∷ raw) (b, h) = elim (Bool-cases (is_kept c)) [
  | inl p ↦ rw p (rw (kept_apart c b'&' p refl) (urlencode_values raw h))
  | inr p ↦ rw p (
      rw (upper_hex_value (c / 16) (omega arith))
        (rw (upper_hex_value (c % 16) (omega arith)) (urlencode_values raw h)))
]

pub all_of :
    (p q : ℕ → Bool) (s : Text)
    → ((c : ℕ) → p c ≡ true → q c ≡ true)
    → all p s ≡ true
    → all q s ≡ true
all_of p q [] f h = refl
all_of p q (c ∷ s) f h = elim (Bool-cases (p c)) [
  | inl r ↦ rw (f c r) (all_of p q s f (rw r at h))
  | inr r ↦ absurd (let h' : false ≡ true = rw r at h in cc)
]

pub All-of :
    (p : ℕ → Bool) (s : Text) → ((c : ℕ) → p c ≡ true → IsByte c) → all p s ≡ true → All IsByte s
All-of p [] f h = tt
All-of p (c ∷ s) f h = elim (Bool-cases (p c)) [
  | inl r ↦ (f c r, All-of p s f (rw r at h))
  | inr r ↦ absurd (let h' : false ≡ true = rw r at h in cc)
]

pub percent_decode_id : (s : Text) → all is_kept s ≡ true → percent_decode s ≡ some s
unfolding prepend decode_from
percent_decode_id [] h = refl
percent_decode_id (c ∷ s) h = elim (Bool-cases (is_kept c)) [
  | inl p ↦ decode_kept c s p ∙ rw (percent_decode_id s (rw p at h))
  | inr p ↦ absurd (let h' : false ≡ true = rw p at h in cc)
]
