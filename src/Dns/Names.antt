-- ===== src/Dns/Names.antt =====
-- What a hostname may look like.
use simply_ip_exporter.Prelude.{
  ℕ, ◌≡◌, refl, ◌≤◌, ◌↔◌, true, false, ◌||◌, none, [], ◌∷◌, arith, inl, inr, Bool-cases, all, any,
  length, ◌==◌,
}
use simply_ip_exporter.Prelude.Text.{Text, is_ascii_digit, is_ascii_alphanumeric}
use simply_ip_exporter.Dns.{hostname_rejection, first_and_last, is_hostname_char}

-- A name of 1 to 253 letters, digits, dashes, dots and underscores, that begins and ends with a
-- letter or digit and is not made of digits and dots alone.
pub record IsHostname (s : Text) : Type 0 where
  pub short : length s ≤ 253
  pub edges : first_and_last is_ascii_alphanumeric s ≡ true
  pub characters : all is_hostname_char s ≡ true
  pub not_numeric : all (λ c. is_ascii_digit c || c == b'.') s ≡ false

not_syntax : (c : ℕ) → is_hostname_char c ≡ true → (c == b'/' || c == b':') ≡ false
not_syntax c h = ground arith

no_syntax : (s : Text) → all is_hostname_char s ≡ true → any (λ c. c == b'/' || c == b':') s ≡ false
no_syntax [] h = refl
no_syntax (c ∷ s) h = elim (Bool-cases (is_hostname_char c)) [
  | inl p ↦ rw (not_syntax c p) (no_syntax s (rw p at h))
  | inr p ↦ absurd (let h' : false ≡ true = rw p at h in cc)
]

to_name : (s : Text) → hostname_rejection s ≡ none → IsHostname s
unfolding hostname_rejection
to_name s h = ground arith

of_name : (s : Text) → IsHostname s → hostname_rejection s ≡ none
unfolding hostname_rejection
of_name s n =
    let short = n.short in
    let edges = n.edges in
    let characters = n.characters in
    let not_numeric = n.not_numeric in ground (arith, no_syntax s n.characters)

-- `hostname_rejection` refuses exactly the texts that are not host names.
pub hostname_rejection_iff : (s : Text) → (hostname_rejection s ≡ none) ↔ IsHostname s
hostname_rejection_iff s = (to_name s, of_name s)
