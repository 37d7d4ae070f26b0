-- ===== src/Prelude/HashMap.antt =====
-- `std::collections::HashMap` as an association list: an insertion of a new key goes to the end.
-- The iteration order of the source's maps is unspecified, and no theorem on them depends on it.
use mathlib.Core.Path.{◌≡◌, refl}
use mathlib.Core.Logic.{◌≢◌, ite}
use mathlib.Core.Bool.{Bool, true}
use mathlib.Core.List.{List, [], ◌∷◌, ◌++◌}
use mathlib.Core.Option.{Option, none, some}
use native.Mathlib.Omega.{arith}
use Prim.Native.Nat.{◌+◌}
use simply_ip_exporter.Prelude.Tests.{if◌then◌else◌, is_some}
use simply_ip_exporter.Prelude.Lists.{length}

abbrev pub HashMap {ℓ} : Type ℓ → Type ℓ → Type ℓ
HashMap K V = List (K × V)

module _ {ℓ} {K V : Type ℓ} where
  abbrev pub keys : HashMap K V → List K
  keys [] = []
  keys ((k, v) ∷ m) = k ∷ keys m

  abbrev pub values : HashMap K V → List V
  values [] = []
  values ((k, v) ∷ m) = v ∷ values m

  -- `HashMap::retain`, with a test of the value.
  pub retain : (V → Bool) → HashMap K V → HashMap K V
  retain p [] = []
  retain p ((k, v) ∷ m) = if p v then (k, v) ∷ retain p m else retain p m

module _ {ℓ} {K V : Type ℓ} (dec : Discrete K) where
  unfoldable pub get : K → HashMap K V → Option V
  get k [] = none
  get k ((j, v) ∷ m) = ite (dec j k) (some v) (get k m)

  unfoldable pub insert : K → V → HashMap K V → HashMap K V
  insert k v [] = (k, v) ∷ []
  insert k v ((j, w) ∷ m) = ite (dec j k) ((j, v) ∷ m) ((j, w) ∷ insert k v m)

  pub remove : K → HashMap K V → HashMap K V
  remove k [] = []
  remove k ((j, w) ∷ m) = ite (dec j k) (remove k m) ((j, w) ∷ remove k m)

  -- Every key stands once.
  abbrev pub IsDistinct : HashMap K V → Type ℓ
  IsDistinct [] = Unit
  IsDistinct ((k, v) ∷ m) = (get k m ≡ none) × IsDistinct m

  pub get-insert :
      (k j : K) (v : V) (m : HashMap K V) → get j (insert k v m) ≡ ite (dec k j) (some v) (get j m)
  unfolding get insert
  get-insert k j v [] = refl
  get-insert k j v ((i, w) ∷ m) = ground (arith, get-insert k j v m)

  pub get-remove : (k j : K) (m : HashMap K V) → get j (remove k m) ≡ ite (dec k j) none (get j m)
  unfolding get remove
  get-remove k j [] = ground arith
  get-remove k j ((i, w) ∷ m) = ground (arith, get-remove k j m)

  pub get-insert_self : (k : K) (v : V) (m : HashMap K V) → get k (insert k v m) ≡ some v
  get-insert_self k v m = ground (arith, get-insert k k v m)

  pub get-insert_ne : (k j : K) (v : V) (m : HashMap K V) → k ≢ j → get j (insert k v m) ≡ get j m
  get-insert_ne k j v m h = ground (arith, get-insert k j v m)

  pub get-remove_self : (k : K) (m : HashMap K V) → get k (remove k m) ≡ none
  get-remove_self k m = ground (arith, get-remove k k m)

  -- A key that is kept keeps its value; one whose value fails the test may be gone.
  pub get-retain-some :
      (p : V → Bool) (k : K) (v : V) (m : HashMap K V)
      → get k m ≡ some v
      → p v ≡ true
      → get k (retain p m) ≡ some v
  unfolding get retain
  get-retain-some p k v [] h t = cc
  get-retain-some p k v ((j, w) ∷ m) h t = ground (arith, get-retain-some p k v m)

  pub remove_absent : (k : K) (m : HashMap K V) → get k m ≡ none → remove k m ≡ m
  unfolding get remove
  remove_absent k [] h = refl
  remove_absent k ((j, w) ∷ m) h = ground (arith, remove_absent k m)

  -- Removing the key of the first entry leaves the others.
  pub remove-head : (k : K) (v : V) (m : HashMap K V) → get k m ≡ none → remove k ((k, v) ∷ m) ≡ m
  unfolding remove
  remove-head k v m h = ground (arith, remove_absent k m h)

  -- A known key keeps its place, and a new one goes to the end.
  pub keys-insert_known :
      (k : K) (v : V) (m : HashMap K V) → is_some (get k m) ≡ true → keys (insert k v m) ≡ keys m
  unfolding get insert
  keys-insert_known k v [] h = cc
  keys-insert_known k v ((j, w) ∷ m) h = ground (arith, keys-insert_known k v m)

  pub keys-insert_new :
      (k : K) (v : V) (m : HashMap K V) → get k m ≡ none → keys (insert k v m) ≡ keys m ++ k ∷ []
  unfolding get insert
  keys-insert_new k v [] h = refl
  keys-insert_new k v ((j, w) ∷ m) h = ground (arith, keys-insert_new k v m)

  pub length-insert_known :
      (k : K) (v : V) (m : HashMap K V)
      → is_some (get k m) ≡ true
      → length (insert k v m) ≡ length m
  unfolding get insert
  length-insert_known k v [] h = cc
  length-insert_known k v ((j, w) ∷ m) h = ground (arith, length-insert_known k v m)

  pub length-insert_new :
      (k : K) (v : V) (m : HashMap K V) → get k m ≡ none → length (insert k v m) ≡ length m + 1
  unfolding get insert
  length-insert_new k v [] h = omega arith
  length-insert_new k v ((j, w) ∷ m) h = ground (arith, length-insert_new k v m)

  pub IsDistinct-insert :
      (k : K) (v : V) (m : HashMap K V) → IsDistinct m → IsDistinct (insert k v m)
  unfolding insert get
  IsDistinct-insert k v [] d = (refl, tt)
  IsDistinct-insert k v ((j, w) ∷ m) d =
      ground (arith, IsDistinct-insert k v m d.1, get-insert k j v m)

  -- What `retain` leaves of a looked-up value.
  abbrev pub kept : (V → Bool) → Option V → Option V
  kept p none = none
  kept p (some v) = if p v then some v else none

  pub get-retain :
      (p : V → Bool) (k : K) (m : HashMap K V)
      → IsDistinct m
      → get k (retain p m) ≡ kept p (get k m)
  unfolding get retain
  get-retain p k [] d = refl
  get-retain p k ((j, w) ∷ m) d = ground (arith, get-retain p k m d.1)

  pub IsDistinct-retain : (p : V → Bool) (m : HashMap K V) → IsDistinct m → IsDistinct (retain p m)
  unfolding get retain
  IsDistinct-retain p [] d = tt
  IsDistinct-retain p ((j, w) ∷ m) d =
      ground (arith, IsDistinct-retain p m d.1, get-retain p j m d.1)

  pub IsDistinct-remove : (k : K) (m : HashMap K V) → IsDistinct m → IsDistinct (remove k m)
  unfolding get remove
  IsDistinct-remove k [] d = tt
  IsDistinct-remove k ((j, w) ∷ m) d = ground (arith, IsDistinct-remove k m d.1, get-remove k j m)
