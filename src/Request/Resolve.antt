-- ===== src/Request/Resolve.antt =====
-- `raw_value_for_parameter` and `resolve_parameter_value` of src/ffi/pydantic.rs.
pub mod Safety
pub mod Total
use fastrapi.Prelude.{
  ℕ, Bool, true, false, Option, none, some, List, ◌++◌, if◌then◌else◌, or_else, unwrap_or,
}
use fastrapi.Text.{Str, codes}
use fastrapi.Python.{PyValue, none_value}
use fastrapi.Http.{Outcome, ok, fail, ◌>>=◌}
use fastrapi.Routing.Types.{ParameterSource, ParsedParameter}
use fastrapi.Request.Input.{RequestInput, get_path_param, get_query_param, get_header, get_cookie}
use fastrapi.Request.Scalar.{Conversions, convert_scalar_value, validation_error_response}
use fastrapi.Request.Constraints.{Extraction, validate_scalar_constraints}

-- What is taken from the libraries that the program calls.
pub record Libraries : Type 0 where
  pub percent_decode : Str → Str
  pub split_parse : Str → List (Str × Str)
  pub conversions : Conversions
  pub extraction : Extraction

-- Look under the external name, then under the name.
abbrev pub under_either : (Str → Option Str) → ParsedParameter → Option Str
under_either get param = or_else (get param.external_name) (get param.name)

module _ (libraries : Libraries) where
  abbrev pub raw_from : ParameterSource → ParsedParameter → RequestInput → Option Str
  raw_from ParameterSource.path param input = under_either (get_path_param input) param
  raw_from ParameterSource.query param input =
      under_either (get_query_param libraries.percent_decode input) param
  raw_from ParameterSource.header param input = under_either (get_header input) param
  raw_from ParameterSource.cookie param input =
      under_either (get_cookie libraries.split_parse input) param
  raw_from ParameterSource.body param input = none
  raw_from ParameterSource.background_tasks param input = none

  unfoldable pub raw_value_for_parameter : ParsedParameter → RequestInput → Option Str
  raw_value_for_parameter param input = raw_from param.source param input

  -- The default value; Python's `None` where it is not kept.
  abbrev pub default_of : ParsedParameter → PyValue
  default_of param = unwrap_or param.default_value none_value

  unfoldable pub resolve_raw : Option Str → ParsedParameter → Outcome (Option PyValue)
  unfolding convert_scalar_value validate_scalar_constraints validation_error_response
  resolve_raw none param =
      if param.has_default
      then ok (some (default_of param))
      else if param.required
      then fail
          (validation_error_response (codes "Missing required parameter: " ++ param.external_name))
      else ok none
  resolve_raw (some raw) param = do
    value ← convert_scalar_value libraries.conversions raw param
    validate_scalar_constraints libraries.extraction param value >>= λ _. ok (some value)

  unfoldable pub resolve_parameter_value : ParsedParameter → RequestInput → Outcome (Option PyValue)
  unfolding raw_value_for_parameter resolve_raw
  resolve_parameter_value param input = resolve_raw (raw_value_for_parameter param input) param
