-- ===== src/Tests/Requests.antt =====
-- Numbers, constraints and queries at concrete inputs.
use fastrapi.Prelude.{◌≡◌, ◌↔◌, refl, some, [], ◌∷◌}
use fastrapi.Text.{codes, contains_char}
use fastrapi.Python.{ℤ, PyValue}
use fastrapi.Http.{ok}
use fastrapi.Request.Input.{get_all_query_params}
use fastrapi.Request.Input.Query.{get_all_query_params-query_text}
use fastrapi.Request.Scalar.{parse_i64}
use fastrapi.Request.Constraints.{validate_scalar_constraints}
use fastrapi.Request.Constraints.Spec.{
  IsWithin, validate_scalar_constraints_iff, validate_scalar_constraints_nan,
}
use fastrapi.Tests.Data.{query_param, small_libraries, get_input}

minus_42 : parse_i64 (codes "-42") ≡ some (ℤ.negsuc 41)
unfolding parse_i64
minus_42 = refl

validate_scalar_constraints_iff_example :
    (validate_scalar_constraints small_libraries.extraction query_param
        (PyValue.float 0x4000000000000000)
      ≡ ok tt)
    ↔ (IsWithin query_param.constraints 0x4000000000000000 × Unit {0})
validate_scalar_constraints_iff_example =
    validate_scalar_constraints_iff small_libraries.extraction query_param
      (PyValue.float 0x4000000000000000) (record { gt = tt; ge = refl; lt = tt; le = tt }) refl

validate_scalar_constraints_nan_example :
    validate_scalar_constraints small_libraries.extraction query_param
      (PyValue.float 0x7ff8000000000000)
    ≡ ok tt
validate_scalar_constraints_nan_example =
    validate_scalar_constraints_nan small_libraries.extraction query_param
      (PyValue.float 0x7ff8000000000000) 0x7ff8000000000000 refl refl refl

get_all_query_params-query_text_example :
    get_all_query_params (λ s. s) (get_input (codes "a=1&a="))
    ≡ (codes "a", codes "1") ∷ (codes "a", []) ∷ []
unfolding contains_char
get_all_query_params-query_text_example =
    get_all_query_params-query_text (λ s. s) (get_input (codes "a=1&a="))
      ((codes "a", codes "1") ∷ (codes "a", []) ∷ [])
      ((refl, refl, refl, refl, refl, refl, refl), ((refl, refl, refl, refl, refl, refl, refl), tt))
      refl
