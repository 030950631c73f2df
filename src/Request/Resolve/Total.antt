-- ===== src/Request/Resolve/Total.antt =====
-- About `resolve_parameter_value` on parameters that were parsed from a signature.
use fastrapi.Prelude.{◌≡◌, ◌≢◌, Bool, not, Option, none, some, List, arith}
use fastrapi.Text.{Str}
use fastrapi.Python.{PyResult}
use fastrapi.Http.{ok}
use fastrapi.Routing.Types.{ParameterSource, ParsedParameter}
use fastrapi.Routing.Params.{PyParameter, parse_parameter_spec}
use fastrapi.Routing.Params.Spec.{parse_parameter_spec-required}
use fastrapi.Request.Input.{RequestInput}
use fastrapi.Request.Resolve.{
  Libraries, raw_value_for_parameter, resolve_raw, resolve_parameter_value,
}

resolve_raw-ne-none :
    (libraries : Libraries) (raw : Option Str) (param : ParsedParameter)
    → param.required ≡ not param.has_default
    → resolve_raw libraries raw param ≢ ok none
unfolding resolve_raw
resolve_raw-ne-none libraries none param r e = ground arith
resolve_raw-ne-none libraries (some raw) param r e = ground arith

-- A parameter that `parse_parameter_spec` gives, other than the background tasks, is resolved to a
-- value or refused, whatever the request: the handler is never called without it.
pub resolve_parameter_value-ne-none :
    (libraries : Libraries) (regex_compiles : Str → Bool) (param_name : Str)
    (param_obj : PyParameter) (path_param_names : List Str) (spec : ParsedParameter)
    (input : RequestInput)
    → parse_parameter_spec regex_compiles param_name param_obj path_param_names ≡ PyResult.ok spec
    → spec.source ≢ ParameterSource.background_tasks
    → resolve_parameter_value libraries spec input ≢ ok none
unfolding resolve_parameter_value
resolve_parameter_value-ne-none libraries compiles name obj names spec input e n =
    resolve_raw-ne-none libraries (raw_value_for_parameter libraries spec input) spec
      (parse_parameter_spec-required compiles name obj names spec e n)
