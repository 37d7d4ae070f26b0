-- ===== src/Master.antt =====
-- src/master.rs: the identity of the Master key, pinned for the process. Each call has a flag that
-- says whether the database answers.
pub mod Pinned
use simply_ip_exporter.Prelude.{
  ℕ, Bool, true, false, not, ◌==◌, Option, none, some, List, [], ◌∷◌, map, filter, if◌then◌else◌,
}
use simply_ip_exporter.Prelude.Result.{Result, ok, err, ◌>>=◌}
use simply_ip_exporter.Entities.{ApiKey}

pub data MasterPinError : Type 0 where
  no_master : MasterPinError
  duplicates : List ℕ → MasterPinError
  missing_constraint : MasterPinError
  db_failed : MasterPinError

pub record MasterPin : Type 0 where
  pub cell : Option ℕ

abbrev pub new : MasterPin
new = record { cell = none }

-- `OnceCell::set`, which fails on a cell that is set.
abbrev pub set_once : ℕ → MasterPin → MasterPin
set_once id pin = elim pin.cell [ none ↦ record { cell = some id } | some old ↦ pin ]

-- The cases on `masters.len()`.
abbrev pub sole_master : List ApiKey → Result MasterPinError ℕ
sole_master [] = err no_master
sole_master (k ∷ []) = ok k.id
sole_master (k ∷ l ∷ ks) = err (duplicates (map (λ k. k.id) (k ∷ l ∷ ks)))

unfoldable pub resolve_inner : Bool → List ApiKey → Result MasterPinError ℕ
resolve_inner answers api_keys =
    if answers then sole_master (filter (λ k. k.is_master) api_keys) else err db_failed

-- `index` is the answer to the query for the unique index.
unfoldable pub pin_at_boot :
    Option Bool → Bool → List ApiKey → MasterPin → Result MasterPinError ℕ × MasterPin
pin_at_boot none answers api_keys pin = (err db_failed, pin)
pin_at_boot (some false) answers api_keys pin = (err missing_constraint, pin)
pin_at_boot (some true) answers api_keys pin = elim (resolve_inner answers api_keys) [
  | err e ↦ (err e, pin)
  | ok id ↦
      let pin' = set_once id pin in (ok (elim pin'.cell [ some pinned ↦ pinned | none ↦ id ]), pin')
]

unfoldable pub resolve : Bool → List ApiKey → MasterPin → Option ℕ × MasterPin
resolve answers api_keys pin = elim pin.cell [
  | some id ↦ (some id, pin)
  | none ↦ elim (resolve_inner answers api_keys) [
    | ok id ↦ ((set_once id pin).cell, set_once id pin)
    | err e ↦ (none, pin)
  ]
]

abbrev pub demote : ApiKey → ApiKey
demote key = record key { is_master = false }

-- The cases on the resolved pin.
abbrev pub apply_pin : Option ℕ → ApiKey → ApiKey
apply_pin none key = demote key
apply_pin (some pinned) key = if pinned == key.id then key else demote key

unfoldable pub authenticate : Bool → List ApiKey → ApiKey → MasterPin → ApiKey × MasterPin
authenticate answers api_keys key pin =
    if not key.is_master
    then (key, pin)
    else (let r = resolve answers api_keys pin in (apply_pin r.0 key, r.1))

-- A sequence of authentications, each against the rows of its moment: the keys that come out, and the
-- pin after them.
pub run : MasterPin → List (Bool × List ApiKey × ApiKey) → List ApiKey × MasterPin
run pin [] = ([], pin)
run pin ((answers, api_keys, key) ∷ calls) =
    let r = authenticate answers api_keys key pin in
    let rest = run r.1 calls in (r.0 ∷ rest.0, rest.1)
