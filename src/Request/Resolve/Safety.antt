-- ===== src/Request/Resolve/Safety.antt =====
-- About the outcomes of `resolve_parameter_value` (src/ffi/pydantic.rs).
use fastrapi.Prelude.{
  ◌≡◌, refl, Bool, true, false, Option, none, some, arith, ◌∙◌, sym, if◌then◌else◌, subst,
}
use fastrapi.Text.{Str, codes}
use fastrapi.Python.{PyRef, F64, PyValue}
use fastrapi.Http.{Response, Outcome, ok, fail, ◌>>=◌}
use fastrapi.Routing.Types.{ParameterConstraints, ParsedParameter, ScalarKind}
use fastrapi.Request.Input.{RequestInput}
use fastrapi.Request.Scalar.{
  Conversions, convert_kind, convert_scalar_value, validation_error_response, or_invalid,
}
use fastrapi.Request.Constraints.{
  Extraction, is_nan, check, check_gt, check_ge, check_lt, check_number, check_min_length,
  check_max_length, check_text, validate_scalar_constraints,
}
use fastrapi.Request.Constraints.Spec.{
  Given, HasNumberBounds, IsWithin, HasShape, validate_scalar_constraints_iff,
}
use fastrapi.Request.Resolve.{
  Libraries, raw_value_for_parameter, resolve_raw, resolve_parameter_value,
}

-- The outcome is no refusal, or one with status 422.
pub record Refuses422 {A : Type 0} (m : Outcome A) : Type 0 where
  pub at : (r : Response) → m ≡ fail r → r.status ≡ 422

Refuses422-ok : {A : Type 0} (a : A) → Refuses422 (Outcome.ok a)
Refuses422-ok a = record { at = λ r e. cc }

Refuses422-error :
    {A : Type 0} (message : Str) → Refuses422 {A = A} (fail (validation_error_response message))
unfolding validation_error_response
Refuses422-error message = record { at = λ r e. ground arith }

Refuses422-bind :
    {A B : Type 0} (m : Outcome A) (f : A → Outcome B)
    → Refuses422 m
    → ((a : A) → Refuses422 (f a))
    → Refuses422 (m >>= f)
Refuses422-bind (ok a) f h k = k a
Refuses422-bind (fail r) f h k = record { at = λ q e. h.at q (ground arith) }

Refuses422-or_invalid :
    (message raw : Str) (o : Option PyValue) → Refuses422 (or_invalid message raw o)
Refuses422-or_invalid message raw none = Refuses422-error _
Refuses422-or_invalid message raw (some value) = Refuses422-ok value

Refuses422-if :
    {A : Type 0} (test : Bool) (m k : Outcome A)
    → Refuses422 m
    → Refuses422 k
    → Refuses422 (if test then m else k)
Refuses422-if true m k h j = h
Refuses422-if false m k h j = j

Refuses422-check :
    {A : Type 0} (o : Option A) (violated : A → Bool) (message : A → Str)
    → Refuses422 (check o violated message)
Refuses422-check none violated message = Refuses422-ok tt
Refuses422-check (some b) violated message =
    Refuses422-if (violated b) _ _ (Refuses422-error (message b)) (Refuses422-ok tt)

pub Refuses422-convert :
    (conversions : Conversions) (kind : ScalarKind) (annotation : Option PyRef) (raw : Str)
    → Refuses422 (convert_kind conversions kind annotation raw)
unfolding convert_kind
Refuses422-convert conversions ScalarKind.bool annotation raw =
    Refuses422-or_invalid (codes "Invalid boolean value: ") raw _
Refuses422-convert conversions ScalarKind.int annotation raw =
    Refuses422-or_invalid (codes "Invalid integer value: ") raw _
Refuses422-convert conversions ScalarKind.float annotation raw =
    Refuses422-or_invalid (codes "Invalid number value: ") raw _
Refuses422-convert conversions ScalarKind.str annotation raw = Refuses422-ok _
Refuses422-convert conversions ScalarKind.other annotation raw = Refuses422-ok _

module _ (extraction : Extraction) (name : Str) (constraints : ParameterConstraints) where
  Refuses422-check_number :
      (o : Option F64) → Refuses422 (check_number extraction name constraints o)
  unfolding check_number
  Refuses422-check_number none = Refuses422-ok tt
  Refuses422-check_number (some number) =
      Refuses422-bind (check_gt extraction name constraints number) _
        (Refuses422-check constraints.gt _ _)
        λ _.
          Refuses422-bind (check_ge extraction name constraints number) _
            (Refuses422-check constraints.ge _ _)
            λ _.
              Refuses422-bind (check_lt extraction name constraints number) _
                (Refuses422-check constraints.lt _ _) λ _. Refuses422-check constraints.le _ _

  Refuses422-check_text : (o : Option Str) → Refuses422 (check_text extraction name constraints o)
  unfolding check_text
  Refuses422-check_text none = Refuses422-ok tt
  Refuses422-check_text (some text) =
      Refuses422-bind (check_min_length extraction name constraints text) _
        (Refuses422-check constraints.min_length _ _)
        λ _.
          Refuses422-bind (check_max_length extraction name constraints text) _
            (Refuses422-check constraints.max_length _ _)
            λ _. Refuses422-check constraints.pattern _ _

pub Refuses422-validate :
    (extraction : Extraction) (param : ParsedParameter) (value : PyValue)
    → Refuses422 (validate_scalar_constraints extraction param value)
unfolding validate_scalar_constraints
Refuses422-validate extraction param value =
    Refuses422-bind
      (check_number extraction param.external_name param.constraints (extraction.extract_f64 value))
      _
      (Refuses422-check_number extraction param.external_name param.constraints
        (extraction.extract_f64 value))
      λ _.
        Refuses422-check_text extraction param.external_name param.constraints
          (extraction.extract_string value)

Refuses422-raw :
    (libraries : Libraries) (raw : Option Str) (param : ParsedParameter)
    → Refuses422 (resolve_raw libraries raw param)
unfolding resolve_raw
Refuses422-raw libraries none param =
    Refuses422-if param.has_default _ _ (Refuses422-ok _)
      (Refuses422-if param.required _ _ (Refuses422-error _) (Refuses422-ok _))
Refuses422-raw libraries (some raw) param =
    Refuses422-bind (convert_kind libraries.conversions param.scalar_kind param.annotation raw) _
      (Refuses422-convert libraries.conversions param.scalar_kind param.annotation raw)
      λ value.
        Refuses422-bind (validate_scalar_constraints libraries.extraction param value) _
          (Refuses422-validate libraries.extraction param value) λ _. Refuses422-ok _

-- Whatever the parameter, the request and the libraries: where a parameter is refused, because it is
-- missing, does not convert or violates a constraint, the response has status 422.
pub resolve_parameter_value-status :
    (libraries : Libraries) (param : ParsedParameter) (input : RequestInput) (r : Response)
    → resolve_parameter_value libraries param input ≡ fail r
    → r.status ≡ 422
unfolding resolve_parameter_value
resolve_parameter_value-status libraries param input r e =
    (Refuses422-raw libraries (raw_value_for_parameter libraries param input) param).at r e

bind_ok :
    {A B : Type 0} (m : Outcome A) (f : A → Outcome B) (b : B)
    → (m >>= f) ≡ ok b
    → (a : A) × (m ≡ ok a) × (f a ≡ ok b)
bind_ok (ok a) f b h = (a, refl, h)
bind_ok (fail r) f b h = cc

some_value : (t : Unit {0}) (value v : PyValue) → ok (some value) ≡ ok (some v) → value ≡ v
some_value t value v e = ground arith

resolve_lem :
    (libraries : Libraries) (param : ParsedParameter) (input : RequestInput)
    → resolve_parameter_value libraries param input
      ≡ resolve_raw libraries (raw_value_for_parameter libraries param input) param
unfolding resolve_parameter_value
resolve_lem libraries param input = refl

valid_of_resolve :
    (libraries : Libraries) (param : ParsedParameter) (raw : Str) (value : PyValue)
    → resolve_raw libraries (some raw) param ≡ ok (some value)
    → validate_scalar_constraints libraries.extraction param value ≡ ok tt
unfolding resolve_raw
valid_of_resolve libraries param raw value r =
    let (v, converted, f) = bind_ok (convert_scalar_value libraries.conversions raw param) _ _ r in
    let (t, valid, same) =
      bind_ok (validate_scalar_constraints libraries.extraction param v) _ _ f in
    subst (λ w. validate_scalar_constraints libraries.extraction param w ≡ ok tt)
      (some_value t v value same) valid

-- Where the request gives a raw text for a parameter, in its path, query, headers or cookies, and
-- `resolve_parameter_value` answers a value: if neither the number that the value extracts to nor a
-- bound is not-a-number, the number lies within all the bounds, and the text that the value extracts
-- to has the lengths and the pattern that are asked for.
pub resolve_parameter_value-IsWithin :
    (libraries : Libraries) (param : ParsedParameter) (input : RequestInput) (raw : Str)
    (value : PyValue)
    → raw_value_for_parameter libraries param input ≡ some raw
    → resolve_parameter_value libraries param input ≡ ok (some value)
    → HasNumberBounds param.constraints
    → Given (libraries.extraction.extract_f64 value) (λ number. is_nan number ≡ false)
    → Given (libraries.extraction.extract_f64 value) (IsWithin param.constraints)
      × Given
          (libraries.extraction.extract_string value)
          (HasShape libraries.extraction.is_match param.constraints)
resolve_parameter_value-IsWithin libraries param input raw value e r b n =
    let from_raw = rw e at (sym (resolve_lem libraries param input)) in
    (validate_scalar_constraints_iff libraries.extraction param value b n).0
      (valid_of_resolve libraries param raw value (from_raw ∙ r))
