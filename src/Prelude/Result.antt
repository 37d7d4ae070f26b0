-- ===== src/Prelude/Result.antt =====
-- `Result<A, E>` and the `?` operator.
use mathlib.Core.Logic.{◌⊎◌, inl, inr}
use mathlib.Core.Bool.{Bool, true, false}
use mathlib.Core.Option.{Option, none, some}
use mathlib.Core.Path.{◌≡◌, refl, subst}

pub data Result {ℓ} (E A : Type ℓ) : Type ℓ where
  err : E → Result E A
  ok : A → Result E A

-- The `?` after a call, with the rest of the body.
infixl 5 ◌>>=◌
abbrev pub ◌>>=◌ {ℓ} : {E A B : Type ℓ} → Result E A → (A → Result E B) → Result E B
err why >>= rest = err why
ok value >>= rest = rest value

-- The same with the value dropped.
infixl 5 ◌>>◌
abbrev pub ◌>>◌ {ℓ} : {E A B : Type ℓ} → Result E A → Result E B → Result E B
first >> second = first >>= λ _. second

-- `Option::ok_or`.
abbrev pub ok_or {ℓ} : {E A : Type ℓ} → Option A → E → Result E A
ok_or none e = err e
ok_or (some a) e = ok a

-- `Result::map_err`.
abbrev pub map_err : {E F A : Type 0} → (E → F) → Result E A → Result F A
map_err f (ok a) = ok a
map_err f (err e) = err (f e)

-- `if test { return Err(e) }`.
abbrev pub refuse_if : {E : Type 0} → Bool → E → Result E (Unit {0})
refuse_if true e = err e
refuse_if false e = ok tt

abbrev pub is_ok {ℓ} : {E A : Type ℓ} → Result E A → Bool
is_ok (ok a) = true
is_ok (err e) = false

-- Inversion of a successful `?`.
pub >>=-eq-ok {ℓ} :
    {E A B : Type ℓ} (call : Result E A) (rest : A → Result E B) {result : B}
    → (call >>= rest) ≡ ok result
    → (value : A) × (call ≡ ok value) × (rest value ≡ ok result)
>>=-eq-ok (err why) rest e = cc
>>=-eq-ok (ok value) rest e = (value, refl, e)

pub ok_or-ok {ℓ} : {E A : Type ℓ} (o : Option A) (e : E) {a : A} → ok_or o e ≡ ok a → o ≡ some a
ok_or-ok none e h = absurd cc
ok_or-ok (some b) e h = cc

pub refuse_if-ok : {E : Type 0} (b : Bool) (e : E) (u : Unit {0}) → refuse_if b e ≡ ok u → b ≡ false
refuse_if-ok true e u h = absurd cc
refuse_if-ok false e u h = refl

pub map_err-ok :
    {E F A : Type 0} (f : E → F) (m : Result E A) {a : A} → map_err f m ≡ ok a → m ≡ ok a
map_err-ok f (ok b) h = cc
map_err-ok f (err e) h = absurd cc

pub Result-cases {ℓ} :
    {E A : Type ℓ} (r : Result E A) → ((e : E) × (r ≡ err e)) ⊎ ((a : A) × (r ≡ ok a))
Result-cases (ok a) = inr (a, refl)
Result-cases (err e) = inl (e, refl)

pub ok-injective {ℓ} : {E A : Type ℓ} {a b : A} → ◌≡◌ {A = Result E A} (ok a) (ok b) → a ≡ b
ok-injective h = cc

-- A property of the value that a call succeeds with, if it does.
abbrev pub Holds : {E A : Type 0} → (A → Type 0) → Result E A → Type 0
Holds P (err why) = Unit
Holds P (ok value) = P value

pub Holds_of_eq-ok :
    {E A : Type 0} (P : A → Type 0) (call : Result E A) {value : A}
    → Holds P call
    → call ≡ ok value
    → P value
Holds_of_eq-ok P (err why) h e = absurd cc
Holds_of_eq-ok P (ok a) h e = subst P (ok-injective e) h

pub Holds-of :
    {E A : Type 0} (P : A → Type 0) (call : Result E A)
    → ((value : A) → call ≡ ok value → P value)
    → Holds P call
Holds-of P (err why) f = tt
Holds-of P (ok a) f = f a refl

-- The rules for `?` and for a guard.
pub >>=-Holds :
    {E A B : Type 0} (P : A → Type 0) (Q : B → Type 0) (call : Result E A) (rest : A → Result E B)
    → Holds P call
    → ((value : A) → P value → Holds Q (rest value))
    → Holds Q (call >>= rest)
>>=-Holds P Q (err why) rest h f = tt
>>=-Holds P Q (ok a) rest h f = f a h

pub refuse_if-Holds :
    {E B : Type 0} (Q : B → Type 0) (test : Bool) (why : E) (rest : Result E B)
    → (test ≡ false → Holds Q rest)
    → Holds Q (refuse_if test why >> rest)
refuse_if-Holds Q true why rest f = tt
refuse_if-Holds Q false why rest f = f refl

-- Of a call whose value is dropped, only the success is known.
pub >>-Holds :
    {E A B : Type 0} (Q : B → Type 0) (call : Result E A) (rest : Result E B)
    → ((value : A) → call ≡ ok value → Holds Q rest)
    → Holds Q (call >> rest)
>>-Holds Q (err why) rest f = tt
>>-Holds Q (ok a) rest f = f a refl

-- Inversion of a chain of guards from its end.
pub >>-eq-ok :
    {E A B : Type 0} (first : Result E A) (second : Result E B) {result : B}
    → (first >> second) ≡ ok result
    → ((value : A) × (first ≡ ok value)) × (second ≡ ok result)
>>-eq-ok (err why) second e = absurd cc
>>-eq-ok (ok value) second e = ((value, refl), e)

pub Holds-trivial : {E A : Type 0} (call : Result E A) → Holds (λ a. Unit {0}) call
Holds-trivial (err why) = tt
Holds-trivial (ok value) = tt
