-- ===== src/Request/Constraints.antt =====
-- `validate_scalar_constraints` of src/ffi/pydantic.rs, and the comparisons of `f64` that it makes.
pub mod Spec
use fastrapi.Prelude.{
  ℕ, ◌+◌, ◌-◌, ◌*◌, ◌/◌, ◌%◌, ◌^◌, Bool, true, false, not, ◌&&◌, ◌||◌, Option, none, some, List, [],
  ◌∷◌, ◌++◌, if◌then◌else◌, ltb, leb, ◌==◌,
}
use fastrapi.Text.{Str, len, codes}
use fastrapi.Text.Decimal.{decimal}
use fastrapi.Python.{F64, PyValue}
use fastrapi.Http.{Response, Outcome, ok, fail, ◌>>=◌}
use fastrapi.Routing.Types.{ParameterConstraints, ParsedParameter}
use fastrapi.Request.Scalar.{validation_error_response}

-- IEEE 754: the sign bit, the other bits as a magnitude, and not-a-number.
abbrev pub is_negative : F64 → Bool
is_negative x = leb (2 ^ 63) x

abbrev pub magnitude : F64 → ℕ
magnitude x = x % 2 ^ 63

abbrev pub is_nan : F64 → Bool
is_nan x = ltb (0x7ff * 2 ^ 52) (magnitude x)

-- The order of two floats that are numbers; the zeros are equal.
abbrev pub number_lt : Bool → Bool → ℕ → ℕ → Bool
number_lt false false m n = ltb m n
number_lt false true m n = false
number_lt true false m n = ltb 0 (m + n)
number_lt true true m n = ltb n m

-- `<` and `<=` of `f64`: false where an argument is not a number.
unfoldable pub f64_lt : F64 → F64 → Bool
f64_lt x y =
    not (is_nan x || is_nan y)
    && number_lt (is_negative x) (is_negative y) (magnitude x) (magnitude y)

unfoldable pub f64_le : F64 → F64 → Bool
f64_le x y =
    not (is_nan x || is_nan y)
    && not (number_lt (is_negative y) (is_negative x) (magnitude y) (magnitude x))

-- What the checks take from elsewhere: pyo3's extraction of a number or a text, the `Display` of
-- `f64`, and the match of a compiled expression.
pub record Extraction : Type 0 where
  pub extract_f64 : PyValue → Option F64
  pub extract_string : PyValue → Option Str
  pub show_f64 : F64 → Str
  pub is_match : Str → Str → Bool

-- A check that is made if its bound is given.
abbrev pub check {ℓ} : {A : Type ℓ} → Option A → (A → Bool) → (A → Str) → Outcome (Unit {0})
check none violated message = ok tt
check (some bound) violated message =
    if violated bound then fail (validation_error_response (message bound)) else ok tt

infixl 5 ◌>>◌
abbrev pub ◌>>◌ : Outcome (Unit {0}) → Outcome (Unit {0}) → Outcome (Unit {0})
m >> k = m >>= λ _. k

module _ (extraction : Extraction) (name : Str) (constraints : ParameterConstraints) where
  abbrev pub check_gt : F64 → Outcome (Unit {0})
  check_gt number =
      check constraints.gt (λ gt. f64_le number gt)
        (λ gt. name ++ codes " must be greater than " ++ extraction.show_f64 gt)

  abbrev pub check_ge : F64 → Outcome (Unit {0})
  check_ge number =
      check constraints.ge (λ ge. f64_lt number ge)
        (λ ge. name ++ codes " must be greater than or equal to " ++ extraction.show_f64 ge)

  abbrev pub check_lt : F64 → Outcome (Unit {0})
  check_lt number =
      check constraints.lt (λ lt. f64_le lt number)
        (λ lt. name ++ codes " must be less than " ++ extraction.show_f64 lt)

  abbrev pub check_le : F64 → Outcome (Unit {0})
  check_le number =
      check constraints.le (λ le. f64_lt le number)
        (λ le. name ++ codes " must be less than or equal to " ++ extraction.show_f64 le)

  unfoldable pub check_number : Option F64 → Outcome (Unit {0})
  unfolding f64_lt f64_le
  check_number none = ok tt
  check_number (some number) = do check_gt number; check_ge number; check_lt number; check_le number

  abbrev pub check_min_length : Str → Outcome (Unit {0})
  check_min_length text =
      check constraints.min_length (λ min_length. ltb (len text) min_length)
        (λ min_length. name ++ codes " is shorter than " ++ decimal min_length)

  abbrev pub check_max_length : Str → Outcome (Unit {0})
  check_max_length text =
      check constraints.max_length (λ max_length. ltb max_length (len text))
        (λ max_length. name ++ codes " is longer than " ++ decimal max_length)

  abbrev pub check_pattern : Str → Outcome (Unit {0})
  check_pattern text =
      check constraints.pattern (λ pattern. not (extraction.is_match pattern text))
        (λ pattern. name ++ codes " does not match expected pattern")

  unfoldable pub check_text : Option Str → Outcome (Unit {0})
  check_text none = ok tt
  check_text (some text) = do check_min_length text; check_max_length text; check_pattern text

unfoldable pub validate_scalar_constraints :
    Extraction → ParsedParameter → PyValue → Outcome (Unit {0})
unfolding check_number check_text
validate_scalar_constraints extraction param value = do
  check_number extraction param.external_name param.constraints (extraction.extract_f64 value)
  check_text extraction param.external_name param.constraints (extraction.extract_string value)
