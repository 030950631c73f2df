-- ===== src/Tests/Params.antt =====
-- A parameter of a signature, from its parsing to its value.
use fastrapi.Prelude.{◌≡◌, refl, true, none, some, []}
use fastrapi.Text.{str_eq, codes, split, split_once}
use fastrapi.Python.{PyResult, PyValue}
use fastrapi.Http.{Outcome, fail, Response}
use fastrapi.Routing.Types.{ParameterSource, ParsedParameter}
use fastrapi.Routing.Params.{parse_parameter_spec, plain_spec}
use fastrapi.Request.Input.{get_query_param, decode_query_component}
use fastrapi.Request.Scalar.{validation_error_response}
use fastrapi.Request.Constraints.Spec.{IsWithin, HasNumberBounds}
use fastrapi.Request.Resolve.{raw_value_for_parameter, resolve_parameter_value}
use fastrapi.Request.Resolve.Safety.{
  resolve_parameter_value-status, resolve_parameter_value-IsWithin,
}
use fastrapi.Tests.Data.{plain_parameter, query_param, small_libraries, get_input}

abbrev q_spec : ParsedParameter
q_spec = record (plain_spec (λ p. true) (codes "q") none ParameterSource.query) { required = true }

q_parsed : parse_parameter_spec (λ p. true) (codes "q") plain_parameter [] ≡ PyResult.ok q_spec
unfolding parse_parameter_spec
q_parsed = refl

abbrev missing : Response
missing = validation_error_response (codes "Missing required parameter: q")

q_missing : resolve_parameter_value small_libraries query_param (get_input []) ≡ fail missing
unfolding resolve_parameter_value get_query_param
q_missing = refl

resolve_parameter_value-status_example : missing.status ≡ 422
resolve_parameter_value-status_example =
    resolve_parameter_value-status small_libraries query_param (get_input []) missing q_missing

query_param-HasNumberBounds : HasNumberBounds query_param.constraints
query_param-HasNumberBounds = record { gt = tt; ge = refl; lt = tt; le = tt }

raw_is :
    raw_value_for_parameter small_libraries query_param (get_input (codes "q=2")) ≡ some (codes "2")
unfolding raw_value_for_parameter get_query_param split str_eq decode_query_component split_once
raw_is = refl

value_is :
    resolve_parameter_value small_libraries query_param (get_input (codes "q=2"))
    ≡ Outcome.ok (some (PyValue.float 0x4000000000000000))
unfolding resolve_parameter_value get_query_param split str_eq decode_query_component split_once
value_is = refl

resolve_parameter_value-IsWithin_example :
    IsWithin query_param.constraints 0x4000000000000000 × Unit {0}
resolve_parameter_value-IsWithin_example =
    resolve_parameter_value-IsWithin small_libraries query_param (get_input (codes "q=2"))
      (codes "2") (PyValue.float 0x4000000000000000) raw_is value_is query_param-HasNumberBounds
      refl
