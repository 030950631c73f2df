-- ===== src/Request/Scalar/Integer.antt =====
-- About the parsing of an `i64` in `convert_scalar_value` (src/ffi/pydantic.rs).
use fastrapi.Prelude.{
  ℕ, ◌+◌, ◌-◌, ◌≤◌, ◌^◌, ◌≡◌, Option, some, [], ◌∷◌, arith, ◌==◌, ◌>>=?◌, inl, inr, Bool-cases,
}
use fastrapi.Text.{Str}
use fastrapi.Text.Decimal.{decimal}
use fastrapi.Python.{ℤ}
use fastrapi.Request.Scalar.{digits, magnitude, non_negative, negated, parse_i64}

-- The value is that of an `i64`.
abbrev pub IsI64 : ℤ → Type 0
IsI64 (ℤ.pos n) = n ≤ 2 ^ 63 - 1
IsI64 (ℤ.negsuc n) = n + 1 ≤ 2 ^ 63

non_negative-IsI64 : (o : Option ℕ) (i : ℤ) → (o >>=? non_negative) ≡ some i → IsI64 i
non_negative-IsI64 o (ℤ.pos n) h = ground arith
non_negative-IsI64 o (ℤ.negsuc n) h = ground arith

negated-IsI64 : (o : Option ℕ) (i : ℤ) → (o >>=? negated) ≡ some i → IsI64 i
negated-IsI64 o (ℤ.pos n) h = ground arith
negated-IsI64 o (ℤ.negsuc n) h = ground arith

-- Every integer that `parse_i64` accepts fits an `i64`: larger magnitudes are refused, not wrapped.
pub parse_i64-IsI64 : (s : Str) (i : ℤ) → parse_i64 s ≡ some i → IsI64 i
unfolding parse_i64
parse_i64-IsI64 [] i h = ground arith
parse_i64-IsI64 (c ∷ s) i h = elim (Bool-cases (c == b'-')) [
  | inl minus ↦ negated-IsI64 (magnitude s) i (rw minus at h)
  | inr not_minus ↦ elim (Bool-cases (c == b'+')) [
    | inl plus ↦ non_negative-IsI64 (magnitude s) i (rw (not_minus, plus) at h)
    | inr not_plus ↦ non_negative-IsI64 (digits 0 (c ∷ s)) i (rw (not_minus, not_plus) at h)
  ]
]

-- As `Display` writes an `i64`.
pub i64_text : ℤ → Str
i64_text (ℤ.pos n) = decimal n
i64_text (ℤ.negsuc n) = b'-' ∷ decimal (n + 1)
