-- ===== src/Routing/Params/Spec.antt =====
-- About `parse_parameter_spec` of src/routing/params.rs.
use fastrapi.Prelude.{◌≡◌, ◌≢◌, Bool, not, List, arith}
use fastrapi.Text.{Str}
use fastrapi.Python.{ok}
use fastrapi.Routing.Types.{ParameterSource, ParsedParameter}
use fastrapi.Routing.Params.{PyParameter, parse_parameter_spec}

-- A parameter that is parsed is required exactly if it has no default, unless it is one that the
-- request does not give, the background tasks.
pub parse_parameter_spec-required :
    (regex_compiles : Str → Bool) (param_name : Str) (param_obj : PyParameter)
    (path_param_names : List Str) (spec : ParsedParameter)
    → parse_parameter_spec regex_compiles param_name param_obj path_param_names ≡ ok spec
    → spec.source ≢ ParameterSource.background_tasks
    → spec.required ≡ not spec.has_default
unfolding parse_parameter_spec
parse_parameter_spec-required regex_compiles param_name param_obj path_param_names spec e n =
    ground arith
