-- ===== src/Prelude/Decimal.antt =====
-- `ToString` of the unsigned integers, on decimal digits, with the reading that it is checked against.
use Prim.Native.Nat.{ℕ, zero, suc, ◌+◌, ◌-◌, ◌*◌, ◌/◌, ◌%◌, ◌<◌, ◌≤◌}
use mathlib.Core.Path.{◌≡◌, refl}
use mathlib.Core.Logic.{inl, inr}
use mathlib.Core.Bool.{true}
use mathlib.Core.List.{[], ◌∷◌, ◌++◌}
use native.Mathlib.Omega.{arith}
use simply_ip_exporter.Prelude.Tests.{ltb, Bool-cases, if◌then◌else◌}
use simply_ip_exporter.Prelude.Text.{Text, is_ascii_digit}
use simply_ip_exporter.Prelude.Lists.{all, all-append}

-- The digits of a number that is below `fuel`.
pub digits : ℕ → ℕ → Text
digits zero n = []
digits (suc fuel) n =
    let higher = digits fuel (n / 10) in
    if ltb n 10 then (b'0' + n) ∷ [] else higher ++ (b'0' + n % 10) ∷ []

-- `n.to_string()`.
unfoldable pub to_string : ℕ → Text
to_string n = digits (suc n) n

pub read_from : ℕ → Text → ℕ
read_from n [] = n
read_from n (c ∷ s) = read_from (n * 10 + (c - b'0')) s

-- The number that decimal digits stand for.
unfoldable pub read : Text → ℕ
read s = read_from 0 s

read_from-append :
    (n : ℕ) (s : Text) (c : ℕ) → read_from n (s ++ c ∷ []) ≡ read_from n s * 10 + (c - b'0')
unfolding read_from
read_from-append n [] c = refl
read_from-append n (d ∷ s) c = read_from-append (n * 10 + (d - b'0')) s c

read-digits : (fuel n : ℕ) → n < fuel → read (digits fuel n) ≡ n
unfolding digits read read_from
read-digits zero n h = absurd (omega arith)
read-digits (suc fuel) n h = elim (Bool-cases (ltb n 10)) [
  | inl p ↦ rw p (omega arith)
  | inr p ↦
      let big : 10 ≤ n = ground arith in
      let e : read (digits fuel (n / 10)) ≡ n / 10 = read-digits fuel (n / 10) (omega arith) in
      rw p (rw (read_from-append 0 (digits fuel (n / 10)) (b'0' + n % 10)) (rw e (omega arith)))
]

pub read-to_string : (n : ℕ) → read (to_string n) ≡ n
unfolding to_string
read-to_string n = read-digits (suc n) n (omega arith)

digits_ascii : (fuel n : ℕ) → all is_ascii_digit (digits fuel n) ≡ true
unfolding digits
digits_ascii zero n = refl
digits_ascii (suc fuel) n = elim (Bool-cases (ltb n 10)) [
  | inl p ↦ rw p (ground arith)
  | inr p ↦ rw p (
      all-append is_ascii_digit (digits fuel (n / 10)) ((b'0' + n % 10) ∷ [])
        (digits_ascii fuel (n / 10)) (ground arith))
]

pub to_string_ascii : (n : ℕ) → all is_ascii_digit (to_string n) ≡ true
unfolding to_string
to_string_ascii n = digits_ascii (suc n) n
