-- ===== src/VaultClient/Query.antt =====
-- The target of a request for records, against a reader of query strings.
use mathlib.Core.List.{append-nil, append_assoc}
use simply_ip_exporter.Prelude.{
  ℕ, ◌≡◌, refl, ◌∙◌, Bool, true, false, not, ◌==◌, Option, none, some, List, [], ◌∷◌, ◌++◌, All,
  all, inl, inr, Bool-cases, arith, if◌then◌else◌,
}
use simply_ip_exporter.Prelude.Decimal.{to_string, to_string_ascii, read, read-to_string}
use simply_ip_exporter.Prelude.Net.{as_secs}
use simply_ip_exporter.Prelude.Text.{
  Text, codes, split, split_from, split_from-append, split_once, split_once-append, strip_prefix,
  is_ascii_digit,
}
use simply_ip_exporter.VaultClient.{PageRequest}
use simply_ip_exporter.VaultClient.Wire.{is_kept, urlencode, since_part, base, path_and_query}
use simply_ip_exporter.VaultClient.Decoding.{
  percent_decode, is_value, IsByte, percent_decode-urlencode, urlencode_values, all_of, All-of,
  percent_decode_id,
}

-- A parameter of a query string, and the list of them.
pair_of : Text → Option (Text × Text)
pair_of piece = elim (split_once b'=' piece) [
  | none ↦ none
  | some (key, value) ↦ elim (percent_decode value) [ none ↦ none | some v ↦ some (key, v) ]
]

pairs_of : List Text → Option (List (Text × Text))
pairs_of [] = some []
pairs_of (piece ∷ pieces) =
    let rest = pairs_of pieces in
    elim (pair_of piece) [
      | none ↦ none
      | some pair ↦ elim rest [ none ↦ none | some pairs ↦ some (pair ∷ pairs) ]
    ]

-- The parameters that a server reads from the target of a request for records.
pub query_of : Text → Option (List (Text × Text))
query_of target = elim (strip_prefix (codes "/api/ips?") target) [
  | none ↦ none
  | some query ↦ pairs_of (split b'&' query)
]

split_value : (head s : Text) → all is_value s ≡ true → split_from b'&' head s ≡ (head ++ s) ∷ []
unfolding split_from
split_value head [] h = rw append-nil
split_value head (c ∷ s) h = elim (Bool-cases (c == b'&')) [
  | inl p ↦ absurd (let h' : false ≡ true = rw p at h in cc)
  | inr p ↦ rw p (split_value (head ++ c ∷ []) s (rw p at h) ∙ rw append_assoc)
]

pair_of-value :
    (key value v : Text)
    → all (λ c. not (c == b'=')) key ≡ true
    → percent_decode value ≡ some v
    → pair_of (key ++ b'=' ∷ value) ≡ some (key, v)
unfolding pair_of
pair_of-value key value v h d = rw (split_once-append b'=' key value h, pair_of) (rw d)

pairs_of-last :
    (piece : Text) (pair : Text × Text)
    → all is_value piece ≡ true
    → pair_of piece ≡ some pair
    → pairs_of (split b'&' piece) ≡ some (pair ∷ [])
unfolding pairs_of split
pairs_of-last piece pair h p = rw (split_value [] piece h) (rw (p, pairs_of))

pairs_of-next :
    (piece rest : Text) (pair : Text × Text) (pairs : List (Text × Text))
    → all is_value piece ≡ true
    → pair_of piece ≡ some pair
    → pairs_of (split b'&' rest) ≡ some pairs
    → pairs_of (split b'&' (piece ++ b'&' ∷ rest)) ≡ some (pair ∷ pairs)
unfolding pairs_of split
pairs_of-next piece rest pair pairs h p q =
    rw (split_from-append b'&' [] piece rest)
      (rw (split_value [] piece h) (rw (p, pairs_of) (rw (q, split))))

-- The parameters that a request is to have.
pub parameters : PageRequest → List (Text × Text)
parameters r =
    (codes "groups", r.groups)
    ∷ ((elim r.since [
      | none ↦ []
      | some since ↦
          (codes "since", to_string (as_secs since)) ∷ (codes "include_deleted", codes "true") ∷ []
    ])
        ++ ((if r.include_total then (codes "include_total", codes "true") ∷ [] else [])
            ++ (codes "limit", to_string r.limit) ∷ (codes "offset", to_string r.offset) ∷ []))

number_kept : (n : ℕ) → all is_kept (to_string n) ≡ true
number_kept n = all_of is_ascii_digit is_kept (to_string n) (λ c h. rw h) (to_string_ascii n)

number_value : (n : ℕ) → all is_value (to_string n) ≡ true
number_value n =
    all_of is_ascii_digit is_value (to_string n) (λ c h. ground arith) (to_string_ascii n)

number_bytes : (n : ℕ) → All IsByte (to_string n)
number_bytes n = All-of is_ascii_digit (to_string n) (λ c h. ground arith) (to_string_ascii n)

abbrev window : ℕ → ℕ → Text
window limit offset =
    (codes "limit=" ++ to_string limit) ++ b'&' ∷ (codes "offset=" ++ to_string offset)

pairs_of-window :
    (limit offset : ℕ)
    → pairs_of (split b'&' (window limit offset))
      ≡ some ((codes "limit", to_string limit) ∷ (codes "offset", to_string offset) ∷ [])
pairs_of-window limit offset =
    pairs_of-next (codes "limit=" ++ to_string limit) (codes "offset=" ++ to_string offset)
      (codes "limit", to_string limit) ((codes "offset", to_string offset) ∷ [])
      (number_value limit)
      (pair_of-value (codes "limit") (to_string limit) (to_string limit) refl
        (percent_decode_id (to_string limit) (number_kept limit)))
      (pairs_of-last (codes "offset=" ++ to_string offset) (codes "offset", to_string offset)
        (number_value offset)
        (pair_of-value (codes "offset") (to_string offset) (to_string offset) refl
          (percent_decode_id (to_string offset) (number_kept offset))))

with_total : (total : Bool) (limit offset : ℕ) → Text
with_total true limit offset = codes "include_total=true" ++ b'&' ∷ window limit offset
with_total false limit offset = window limit offset

pairs_of-with_total :
    (total : Bool) (limit offset : ℕ)
    → pairs_of (split b'&' (with_total total limit offset))
      ≡ some (
          (if total then (codes "include_total", codes "true") ∷ [] else [])
          ++ (codes "limit", to_string limit) ∷ (codes "offset", to_string offset) ∷ [])
unfolding with_total
pairs_of-with_total true limit offset =
    pairs_of-next (codes "include_total=true") (window limit offset)
      (codes "include_total", codes "true")
      ((codes "limit", to_string limit) ∷ (codes "offset", to_string offset) ∷ []) refl
      (pair_of-value (codes "include_total") (codes "true") (codes "true") refl
        (percent_decode_id (codes "true") refl))
      (pairs_of-window limit offset)
pairs_of-with_total false limit offset = pairs_of-window limit offset

encoded :
    (key : Text) (raw : Text)
    → all (λ c. not (c == b'=')) key ≡ true
    → All IsByte raw
    → pair_of (key ++ b'=' ∷ urlencode raw) ≡ some (key, raw)
encoded key raw h b = pair_of-value key (urlencode raw) raw h (percent_decode-urlencode raw b)

pairs_of-groups :
    (groups rest : Text) (pairs : List (Text × Text))
    → All IsByte groups
    → pairs_of (split b'&' rest) ≡ some pairs
    → pairs_of (split b'&' ((codes "groups=" ++ urlencode groups) ++ b'&' ∷ rest))
      ≡ some ((codes "groups", groups) ∷ pairs)
pairs_of-groups groups rest pairs b h =
    pairs_of-next (codes "groups=" ++ urlencode groups) rest (codes "groups", groups) pairs
      (urlencode_values groups b) (encoded (codes "groups") groups refl b) h

pairs_of-since :
    (t : ℕ) (rest : Text) (pairs : List (Text × Text))
    → pairs_of (split b'&' rest) ≡ some pairs
    → pairs_of (
        split b'&' (
          (codes "since=" ++ urlencode (to_string t))
          ++ b'&' ∷ (codes "include_deleted=true" ++ b'&' ∷ rest)))
      ≡ some ((codes "since", to_string t) ∷ (codes "include_deleted", codes "true") ∷ pairs)
pairs_of-since t rest pairs h =
    pairs_of-next (codes "since=" ++ urlencode (to_string t))
      (codes "include_deleted=true" ++ b'&' ∷ rest) (codes "since", to_string t)
      ((codes "include_deleted", codes "true") ∷ pairs)
      (urlencode_values (to_string t) (number_bytes t))
      (encoded (codes "since") (to_string t) refl (number_bytes t))
      (pairs_of-next (codes "include_deleted=true") rest (codes "include_deleted", codes "true")
        pairs refl
        (pair_of-value (codes "include_deleted") (codes "true") (codes "true") refl
          (percent_decode_id (codes "true") refl))
        h)

total_part :
    (total : Bool) (limit offset : ℕ)
    → (if total then codes "&include_total=true" else [])
        ++ (codes "&limit=" ++ (to_string limit ++ (codes "&offset=" ++ to_string offset)))
      ≡ b'&' ∷ with_total total limit offset
unfolding with_total
total_part true limit offset = refl
total_part false limit offset = refl

query_of-record :
    (groups : Text) (since : Option ℕ) (total : Bool) (limit offset : ℕ)
    → All IsByte groups
    → let r : PageRequest = record {
      groups = groups;
      since = since;
      include_total = total;
      limit = limit;
      offset = offset;
    } in
      query_of (path_and_query r) ≡ some (parameters r)
unfolding query_of path_and_query base since_part parameters strip_prefix
query_of-record groups none total limit offset b = rw append-nil (
    rw (total_part total limit offset) (
      pairs_of-groups groups (with_total total limit offset) _ b
        (pairs_of-with_total total limit offset)))
query_of-record groups (some since) total limit offset b = rw (total_part total limit offset) (
    rw append_assoc (
      rw append_assoc (
        rw append_assoc (
          pairs_of-groups groups _ _ b (
            pairs_of-since (as_secs since) (with_total total limit offset) _
              (pairs_of-with_total total limit offset))))))

-- Whatever bytes the names of the groups have, the target of a request for a page gives a server that
-- reads form encoding exactly these parameters in this order: the groups; for a differential request
-- the seconds of its moment and include_deleted; include_total where it is asked for; the limit and
-- the offset. The two numbers are read back from their digits.
pub query_of-path_and_query :
    (r : PageRequest)
    → All IsByte r.groups
    → (query_of (path_and_query r) ≡ some (parameters r))
      × (read (to_string r.limit) ≡ r.limit)
      × (read (to_string r.offset) ≡ r.offset)
query_of-path_and_query r b = (
  query_of-record r.groups r.since r.include_total r.limit r.offset b,
  read-to_string r.limit,
  read-to_string r.offset,
)
