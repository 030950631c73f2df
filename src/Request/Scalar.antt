-- ===== src/Request/Scalar.antt =====
-- `parse_bool` and `convert_scalar_value` of src/ffi/pydantic.rs.
pub mod Integer
use fastrapi.Prelude.{
  ℕ, ◌+◌, ◌-◌, ◌*◌, ◌^◌, Bool, true, false, ◌&&◌, ◌||◌, Option, none, some, List, [], ◌∷◌, ◌++◌,
  ◌>>=?◌, if◌then◌else◌, ◌==◌, leb,
}
use fastrapi.Text.{Str, str_eq, to_ascii_lowercase, codes}
use fastrapi.Python.{PyRef, F64, ℤ, PyValue}
use fastrapi.Http.{Response, Outcome, ok, fail, detail}
use fastrapi.Routing.Types.{ParsedParameter, ScalarKind}

-- `validation_error_response`.
unfoldable pub validation_error_response : Str → Response
validation_error_response message = record { status = 422; body = detail message }

abbrev pub is_one_of : Str → List Str → Bool
is_one_of s [] = false
is_one_of s (word ∷ words) = str_eq s word || is_one_of s words

unfoldable pub parse_bool : Str → Option Bool
unfolding to_ascii_lowercase str_eq
parse_bool raw =
    let word = to_ascii_lowercase raw in
    if is_one_of word (codes "1" ∷ codes "true" ∷ codes "on" ∷ codes "yes" ∷ [])
    then some true
    else if is_one_of word (codes "0" ∷ codes "false" ∷ codes "off" ∷ codes "no" ∷ [])
    then some false
    else none

-- `str::parse::<i64>`: a sign or none, then digits, at least one, within the range.
unfoldable pub digits : ℕ → Str → Option ℕ
digits acc [] = some acc
digits acc (c ∷ s) = if leb b'0' c && leb c b'9' then digits (acc * 10 + (c - b'0')) s else none

abbrev pub magnitude : Str → Option ℕ
magnitude [] = none
magnitude (c ∷ s) = digits 0 (c ∷ s)

abbrev pub i64_max : ℕ
i64_max = 2 ^ 63 - 1

abbrev pub non_negative : ℕ → Option ℤ
non_negative n = if leb n i64_max then some (ℤ.pos n) else none

abbrev pub negated : ℕ → Option ℤ
negated n =
    if n == 0 then some (ℤ.pos 0) else if leb n (i64_max + 1) then some (ℤ.negsuc (n - 1)) else none

unfoldable pub parse_i64 : Str → Option ℤ
unfolding digits
parse_i64 [] = none
parse_i64 (c ∷ s) =
    if c == b'-'
    then magnitude s >>=? negated
    else if c == b'+'
    then magnitude s >>=? non_negative
    else digits 0 (c ∷ s) >>=? non_negative

-- What the conversion takes from the standard library and from Python: `str::parse::<f64>`, and the
-- call of an annotation with a text.
pub record Conversions : Type 0 where
  pub parse_f64 : Str → Option F64
  pub construct : PyRef → Str → Option PyValue

abbrev pub or_invalid : Str → Str → Option PyValue → Outcome PyValue
or_invalid message raw none = fail (validation_error_response (message ++ raw))
or_invalid message raw (some value) = ok value

abbrev pub some_bool : Option Bool → Option PyValue
some_bool none = none
some_bool (some b) = some (PyValue.bool b)

abbrev pub some_int : Option ℤ → Option PyValue
some_int none = none
some_int (some i) = some (PyValue.int i)

abbrev pub some_float : Option F64 → Option PyValue
some_float none = none
some_float (some x) = some (PyValue.float x)

abbrev pub or_text : Str → Option PyValue → PyValue
or_text raw none = PyValue.str raw
or_text raw (some value) = value

module _ (conversions : Conversions) where
  unfoldable pub convert_kind : ScalarKind → Option PyRef → Str → Outcome PyValue
  unfolding parse_bool parse_i64
  convert_kind ScalarKind.bool annotation raw =
      or_invalid (codes "Invalid boolean value: ") raw (some_bool (parse_bool raw))
  convert_kind ScalarKind.int annotation raw =
      or_invalid (codes "Invalid integer value: ") raw (some_int (parse_i64 raw))
  convert_kind ScalarKind.float annotation raw =
      or_invalid (codes "Invalid number value: ") raw (some_float (conversions.parse_f64 raw))
  convert_kind ScalarKind.str annotation raw = ok (PyValue.str raw)
  convert_kind ScalarKind.other annotation raw =
      ok (or_text raw (annotation >>=? λ class. conversions.construct class raw))

  unfoldable pub convert_scalar_value : Str → ParsedParameter → Outcome PyValue
  unfolding convert_kind
  convert_scalar_value raw param = convert_kind param.scalar_kind param.annotation raw
