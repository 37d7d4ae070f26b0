-- ===== src/Auth/Timestamp.antt =====
-- How far a request's timestamp may be off.
use simply_ip_exporter.Prelude.{
  ℕ, suc, ◌+◌, ◌-◌, ◌^◌, ◌≤◌, ◌<◌, ◌≡◌, ap, ◌⊎◌, inl, inr, ◌↔◌, false, Option, some, arith,
}
use simply_ip_exporter.Prelude.Result.{ok, refuse_if-ok}
use simply_ip_exporter.Error.{unauthorized, stale_timestamp}
use simply_ip_exporter.Prelude.Int.{
  ℤ, pos, negsuc, abs, sub_from, sub_ℕ, wrap_i64, wrapping_abs, gtb,
}
use simply_ip_exporter.Prelude.Text.{Text, trim}
use simply_ip_exporter.Auth.{validate_timestamp}

-- The skew of a presented time, as integers have it.
abbrev pub off_by : ℕ → ℤ → ℕ
off_by now presented = abs (sub_from now presented)

abbrev pub IsI64 : ℤ → Type 0
IsI64 (pos n) = n < 2 ^ 63
IsI64 (negsuc n) = n < 2 ^ 63

-- The time 2^63 seconds before `now`, whose skew does not fit an `i64`.
abbrev pub wrapping_time : ℕ → ℤ
wrapping_time now = negsuc (2 ^ 63 - now - 1)

accepted-pos :
    (now max_age n : ℕ)
    → now < 2 ^ 62
    → max_age < 2 ^ 62
    → n < 2 ^ 63
    → gtb (wrapping_abs (wrap_i64 (sub_ℕ now n))) (pos max_age) ≡ false
    → off_by now (pos n) ≤ max_age
accepted-pos now max_age n h k l a = ground arith

refused-pos :
    (now max_age n : ℕ)
    → now < 2 ^ 62
    → max_age < 2 ^ 62
    → n < 2 ^ 63
    → off_by now (pos n) ≤ max_age
    → gtb (wrapping_abs (wrap_i64 (sub_ℕ now n))) (pos max_age) ≡ false
refused-pos now max_age n h k l a = ground arith

accepted-negsuc :
    (now max_age n : ℕ)
    → now < 2 ^ 62
    → max_age < 2 ^ 62
    → n < 2 ^ 63
    → gtb (wrapping_abs (wrap_i64 (pos (now + suc n)))) (pos max_age) ≡ false
    → (now + suc n ≤ max_age) ⊎ (n ≡ 2 ^ 63 - now - 1)
accepted-negsuc now max_age n h k l a = ground arith

refused-negsuc :
    (now max_age n : ℕ)
    → now < 2 ^ 62
    → max_age < 2 ^ 62
    → n < 2 ^ 63
    → (now + suc n ≤ max_age) ⊎ (n ≡ 2 ^ 63 - now - 1)
    → gtb (wrapping_abs (wrap_i64 (pos (now + suc n)))) (pos max_age) ≡ false
refused-negsuc now max_age n h k l a = ground arith

accepted :
    (now max_age : ℕ) (presented : ℤ)
    → now < 2 ^ 62
    → max_age < 2 ^ 62
    → IsI64 presented
    → gtb (wrapping_abs (wrap_i64 (sub_from now presented))) (pos max_age) ≡ false
    → (off_by now presented ≤ max_age) ⊎ (presented ≡ wrapping_time now)
accepted now max_age (pos n) h k l a = inl (accepted-pos now max_age n h k l a)
accepted now max_age (negsuc n) h k l a = elim (accepted-negsuc now max_age n h k l a) [
  | inl p ↦ inl p
  | inr p ↦ inr (ap negsuc p)
]

refused :
    (now max_age : ℕ) (presented : ℤ)
    → now < 2 ^ 62
    → max_age < 2 ^ 62
    → IsI64 presented
    → (off_by now presented ≤ max_age) ⊎ (presented ≡ wrapping_time now)
    → gtb (wrapping_abs (wrap_i64 (sub_from now presented))) (pos max_age) ≡ false
refused now max_age (pos n) h k l (inl a) = refused-pos now max_age n h k l a
refused now max_age (pos n) h k l (inr a) = absurd cc
refused now max_age (negsuc n) h k l (inl a) = refused-negsuc now max_age n h k l (inl a)
refused now max_age (negsuc n) h k l (inr a) = refused-negsuc now max_age n h k l (inr cc)

-- A timestamp that parses is accepted exactly when it is at most `max_age` seconds off in either
-- direction, or when it is the one time whose skew wraps around: 2^63 seconds before now.
pub validate_timestamp_iff :
    (parse_i64 : Text → Option ℤ) (now max_age : ℕ) (raw : Text) (presented : ℤ)
    → now < 2 ^ 62
    → max_age < 2 ^ 62
    → IsI64 presented
    → parse_i64 (trim raw) ≡ some presented
    → (validate_timestamp parse_i64 now raw (pos max_age) ≡ ok tt)
      ↔ ((off_by now presented ≤ max_age) ⊎ (presented ≡ wrapping_time now))
unfolding validate_timestamp
validate_timestamp_iff parse_i64 now max_age raw presented h k l p = (
  λ a. accepted now max_age presented h k l (
      refuse_if-ok (gtb (wrapping_abs (wrap_i64 (sub_from now presented))) (pos max_age))
        (unauthorized stale_timestamp) tt (rw (p, validate_timestamp) at a)),
  λ a. rw (p, validate_timestamp) (rw (refused now max_age presented h k l a)),
)
