-- ===== src/Prelude/Text.antt =====
-- Text as the list of its UTF-8 bytes, and the `str` methods that the source uses.
use Prim.Native.Nat.{ℕ}
use Prim.Native.Char.{code}
use Prim.Native.String.{String}
use mathlib.Core.Path.{◌≡◌, refl, ap}
use mathlib.Core.Logic.{inl, inr}
use mathlib.Core.Bool.{Bool, true, false, ◌&&◌, ◌||◌, not}
use mathlib.Core.List.{List, [], ◌∷◌, ◌++◌, reverse, reverse-reverse}
use mathlib.Core.Option.{Option, none, some}
use native.Mathlib.Decide.{ℕ_discrete}
use simply_ip_exporter.Prelude.Tests.{leb, ◌==◌, ==-refl, Bool-cases, if◌then◌else◌}
use simply_ip_exporter.Prelude.Lists.{all, all-reverse, filter, filter-append, is_empty}

abbrev pub Text : Type 0
Text = List ℕ

unfoldable pub Text-discrete : Discrete Text
unfolding ℕ_discrete
Text-discrete = hlevel ℕ_discrete

-- The bytes of an ASCII literal.
abbrev pub codes : String → Text
codes String.[] = []
codes (String.◌∷◌ c s) = code c ∷ codes s

-- `char::is_whitespace`, on ASCII.
abbrev pub is_whitespace : ℕ → Bool
is_whitespace c = c == 32 || leb 9 c && leb c 13

pub trim_start : Text → Text
trim_start [] = []
trim_start (c ∷ s) = if is_whitespace c then trim_start s else c ∷ s

-- `str::trim`.
unfoldable pub trim : Text → Text
unfolding trim_start
trim s = reverse (trim_start (reverse (trim_start s)))

trim_start_id : (s : Text) → all (λ c. not (is_whitespace c)) s ≡ true → trim_start s ≡ s
unfolding trim_start
trim_start_id [] h = refl
trim_start_id (c ∷ s) h = elim (Bool-cases (is_whitespace c)) [
  | inl p ↦ absurd (let h' : false ≡ true = rw p at h in cc)
  | inr p ↦ rw p
]

-- A text without white space.
pub trim_id : (s : Text) → all (λ c. not (is_whitespace c)) s ≡ true → trim s ≡ s
unfolding trim
trim_id s h = rw (trim_start_id s h) (
    rw (trim_start_id (reverse s) (all-reverse (λ c. not (is_whitespace c)) s h))
      (reverse-reverse s))

-- The pieces that `str::split` yields: `head` is the piece that is being read.
unfoldable pub split_from : ℕ → Text → Text → List Text
split_from sep head [] = head ∷ []
split_from sep head (c ∷ s) =
    if c == sep then head ∷ split_from sep [] s else split_from sep (head ++ c ∷ []) s

-- `str::split`.
unfoldable pub split : ℕ → Text → List Text
unfolding split_from
split sep s = split_from sep [] s

pub trim_all : List Text → List Text
unfolding trim
trim_all [] = []
trim_all (s ∷ ss) = trim s ∷ trim_all ss

-- `raw.split(',').map(str::trim).filter(|s| !s.is_empty())`.
unfoldable pub entries_of : Text → List Text
unfolding split trim_all
entries_of raw = filter (λ s. not (is_empty s)) (trim_all (split b',' raw))

pub split_from-append :
    (sep : ℕ) (head a b : Text)
    → split_from sep head (a ++ sep ∷ b) ≡ split_from sep head a ++ split sep b
unfolding split_from split
split_from-append sep head [] b = rw (==-refl sep)
split_from-append sep head (c ∷ a) b = elim (Bool-cases (c == sep)) [
  | inl p ↦ rw p (ap (◌∷◌ head) (split_from-append sep [] a b))
  | inr p ↦ rw p (split_from-append sep (head ++ c ∷ []) a b)
]

trim_all-append : (a b : List Text) → trim_all (a ++ b) ≡ trim_all a ++ trim_all b
unfolding trim_all
trim_all-append [] b = refl
trim_all-append (s ∷ a) b = ap (◌∷◌ (trim s)) (trim_all-append a b)

-- The entries of two texts with a comma between them.
pub entries_of-append : (a b : Text) → entries_of (a ++ b',' ∷ b) ≡ entries_of a ++ entries_of b
unfolding entries_of split
entries_of-append a b = rw (split_from-append b',' [] a b) (
    rw (trim_all-append (split_from b',' [] a) (split_from b',' [] b)) (
      filter-append (λ s. not (is_empty s)) (trim_all (split_from b',' [] a))
        (trim_all (split_from b',' [] b))))

-- `str::strip_prefix`.
unfoldable pub strip_prefix : Text → Text → Option Text
strip_prefix [] s = some s
strip_prefix (p ∷ ps) [] = none
strip_prefix (p ∷ ps) (c ∷ s) = if p == c then strip_prefix ps s else none

pub strip_prefix-append : (p s : Text) → strip_prefix p (p ++ s) ≡ some s
unfolding strip_prefix
strip_prefix-append [] s = refl
strip_prefix-append (c ∷ p) s = rw (==-refl c) (strip_prefix-append p s)

-- `str::split_once`.
pub split_once : ℕ → Text → Option (Text × Text)
split_once sep [] = none
split_once sep (c ∷ s) =
    let rest = split_once sep s in
    if c == sep
    then some ([], s)
    else elim rest [ none ↦ none | some (before, after) ↦ some (c ∷ before, after) ]

pub split_once-append :
    (sep : ℕ) (a b : Text)
    → all (λ c. not (c == sep)) a ≡ true
    → split_once sep (a ++ sep ∷ b) ≡ some (a, b)
unfolding split_once
split_once-append sep [] b h = rw (==-refl sep)
split_once-append sep (c ∷ a) b h = elim (Bool-cases (c == sep)) [
  | inl p ↦ absurd (let h' : false ≡ true = rw p at h in cc)
  | inr p ↦ rw p (rw (split_once-append sep a b (rw p at h)))
]

abbrev pub is_ascii_digit : ℕ → Bool
is_ascii_digit c = leb b'0' c && leb c b'9'

abbrev pub is_ascii_alphanumeric : ℕ → Bool
is_ascii_alphanumeric c = is_ascii_digit c || leb b'a' c && leb c b'z' || leb b'A' c && leb c b'Z'

abbrev pub is_ascii_hexdigit : ℕ → Bool
is_ascii_hexdigit c = is_ascii_digit c || leb b'a' c && leb c b'f' || leb b'A' c && leb c b'F'
