-- ===== src/Tests/Data.antt =====
-- Handlers, routes, routers and libraries to evaluate the code on.
use fastrapi.Prelude.{
  ℕ, true, false, Option, none, some, List, [], ◌∷◌, ◌>>=?◌, ◌==◌, if◌then◌else◌,
}
use fastrapi.Text.{Str, codes, len, split_once, strip_prefix}
use fastrapi.Python.{PyValue, PyResult}
use fastrapi.Routing.Types.{
  HttpMethod, ExecutionMode, ParameterConstraints, ParameterSource, ParsedParameter, ResponseType,
  ScalarKind, SerializationHint, RouteHandler, RouteEntry,
}
use fastrapi.Routing.Frozen.{Matchit, PathMatch}
use fastrapi.Routing.Api.{PyApiRouter, SubRouterMount, Heap, IncludeOptions}
use fastrapi.Routing.Params.{Default, PyParameter}
use fastrapi.Request.Input.{RequestInput}
use fastrapi.Request.Resolve.{Libraries}

abbrev pub handler_at : ℕ → RouteHandler
handler_at address = record {
  address = address;
  func = address;
  is_async = false;
  is_fast_path = false;
  dependency_needs_request = false;
  all_deps_sync = true;
  param_validators = [];
  response_type = ResponseType.auto;
  serialization_hint = SerializationHint.unknown;
  needs_kwargs = true;
  body_param_names = [];
  body_param_name_set = [];
  body_param_indices = [];
  dependencies = [];
  parsed_params = [];
  default_status = none;
  response_model = none;
  response_class = none;
  bypass_serialization = false;
  execution_mode = ExecutionMode.sync_no_deps;
  cache_response = false;
  rate_limit_per_second = none;
}

abbrev pub route_at : HttpMethod → Str → RouteHandler → List Str → RouteEntry
route_at method path handler tags = record {
  method = method;
  path = path;
  handler = handler;
  tags = tags;
  summary = none;
  description = none;
  response_description = none;
  operation_id = none;
  openapi_extra = none;
  responses = none;
  callbacks = none;
  deprecated = none;
  include_in_schema = true;
}

abbrev pub list_route : RouteEntry
list_route = route_at HttpMethod.get (codes "/items/") (handler_at 1) []

abbrev pub item_route : RouteEntry
item_route = route_at HttpMethod.get (codes "/items/{id}") (handler_at 2) []

-- A matchit of templates with one parameter, at the end.
unfoldable pub match_template : Str → Str → Option (List PathMatch)
unfolding split_once strip_prefix len
match_template template path = split_once template b'{' >>=? λ parts.
    strip_prefix path parts.0 >>=? λ value.
    some (record { key = codes "id"; start = len parts.0; width = len value } ∷ [])

unfoldable pub match_first :
    List (Str × RouteHandler) → Str → Option (RouteHandler × List PathMatch)
unfolding match_template
match_first [] path = none
match_first ((template, handler) ∷ entries) path = elim (match_template template path) [
  | none ↦ match_first entries path
  | some found ↦ some (handler, found)
]

abbrev pub small_matchit : Matchit RouteHandler
small_matchit = record {
  Router = List (Str × RouteHandler);
  fresh = [];
  add = λ router path handler. some ((path, handler) ∷ router);
  at = match_first;
}

abbrev pub router_of : Str → List Str → List RouteEntry → List SubRouterMount → PyApiRouter
router_of prefix tags entries subs = record {
  prefix = prefix;
  tags = tags;
  dependencies = none;
  responses = none;
  deprecated = none;
  include_in_schema = true;
  default_response_class = none;
  generate_unique_id_function = none;
  route_entries = entries;
  websocket_entries = [];
  sub_routers = subs;
  frozen = false;
  cached_flat = none;
}

abbrev pub mount_of : ℕ → Str → SubRouterMount
mount_of router prefix = record {
  router = router;
  prefix = prefix;
  tags = [];
  dependencies = none;
  responses = none;
  deprecated = none;
  include_in_schema = true;
  default_response_class = none;
  generate_unique_id_function = none;
}

-- Router 0 mounts router 1 under "/v1"; the others are empty.
abbrev pub two_routers : Heap
two_routers id =
    if id == 0
    then router_of (codes "/api") (codes "api" ∷ []) [] (mount_of 1 (codes "/v1") ∷ [])
    else if id == 1
    then router_of [] (codes "api" ∷ []) (list_route ∷ []) []
    else router_of [] [] [] []

-- Router 0 is mounted on itself.
abbrev pub self_mounted : Heap
self_mounted id = router_of [] [] [] (mount_of 0 (codes "/again") ∷ [])

abbrev pub no_options : IncludeOptions
no_options = record {
  tags = none;
  dependencies = none;
  responses = none;
  deprecated = none;
  include_in_schema = true;
  default_response_class = none;
  generate_unique_id_function = none;
}

-- `1 <= x`, as the bits of 1.0.
abbrev pub at_least_one : ParameterConstraints
at_least_one = record {
  gt = none;
  ge = some 0x3ff0000000000000;
  lt = none;
  le = none;
  min_length = none;
  max_length = none;
  pattern = none;
}

abbrev pub query_param : ParsedParameter
query_param = record {
  name = codes "q";
  external_name = codes "q";
  source = ParameterSource.query;
  annotation = none;
  default_value = none;
  has_default = false;
  required = true;
  description = none;
  constraints = at_least_one;
  param_object = none;
  is_pydantic_model = false;
  scalar_kind = ScalarKind.float;
  validator_index = none;
}

-- Every text parses as 2.0, and every float is extracted as it is.
abbrev pub extract_float : PyValue → Option ℕ
extract_float (PyValue.float x) = some x
extract_float _ = none

abbrev pub small_libraries : Libraries
small_libraries = record {
  percent_decode = λ s. s;
  split_parse = λ s. [];
  conversions = record { parse_f64 = λ s. some 0x4000000000000000; construct = λ c s. none };
  extraction = record {
    extract_f64 = extract_float;
    extract_string = λ v. none;
    show_f64 = λ x. [];
    is_match = λ p s. true;
  };
}

abbrev pub get_input : Str → RequestInput
get_input query = record {
  method = codes "GET";
  path = codes "/items";
  query_string = query;
  path_params = none;
  headers = [];
}

abbrev pub plain_parameter : PyParameter
plain_parameter = record { annotation = none; default = PyResult.ok Default.empty }

-- `Depends` of the callable at an address, with its cache on.
abbrev pub depends_on : ℕ → PyParameter
depends_on target = record {
  annotation = none;
  default = PyResult.ok (
      Default.object (record {
        ref = 100;
        type_name = PyResult.ok (codes "Depends");
        default = none;
        alias = none;
        convert_underscores = none;
        description = none;
        gt = none;
        ge = none;
        lt = none;
        le = none;
        min_length = none;
        max_length = none;
        pattern = none;
        dependency = some (some target);
        scopes = none;
        use_cache = some true;
      }));
}
