-- ===== src/Routing/Handlers/Decorator.antt =====
-- src/ffi/decorators/init.rs: the decorators that register handlers.
use fastrapi.Prelude.{
  ℕ, Bool, true, false, not, ◌&&◌, ◌||◌, Option, none, some, List, [], ◌∷◌, ◌++◌, map,
  if◌then◌else◌, is_some, is_empty, or_else, unwrap_or, leb, ltb,
}
use fastrapi.Text.{Str, codes, str_eq, starts_with_char}
use fastrapi.Python.{PyRef, PyResult, ok, err, ◌>>=◌, runtime_error, value_error}
use fastrapi.Routing.Json.{Json}
use fastrapi.Routing.Types.{
  HttpMethod, ExecutionMode, ParsedParameter, PydanticValidator, ResponseType, SerializationHint,
  RouteHandler, RouteEntry, DependencyNode,
}
use fastrapi.Routing.Api.{Heap, write, merge_tags, strings, frozen_error, push_route}
use fastrapi.Routing.Handlers.{
  FunctionInfo, ParsedSignature, ParsedRouteMetadata, ResponseClass, get_response_type_from_class,
  parse_route_metadata,
}
use fastrapi.Routing.Handlers.Indices.{is_of_body, indices_from}
use fastrapi.Server.Payload.{is_body}
use fastrapi.Server.Execution.{assign_execution_mode}

-- The keyword arguments of a decorator: an option is `none` where it is not given, or is of another
-- type than the one that it is extracted to. `response_model_is_none` tells Python's `None`;
-- `responses`, `openapi_extra` and `callbacks` are what the JSON functions make of them.
pub record RouteOptions : Type 0 where
  pub status_code : Option ℕ
  pub response_model : Option PyRef
  pub response_model_is_none : Bool
  pub response_class : Option (PyRef × ResponseClass)
  pub tags : Option (List (Option Str))
  pub summary : Option Str
  pub description : Option Str
  pub deprecated : Option Bool
  pub include_in_schema : Option Bool
  pub cache_resp : Option Bool
  pub rate_limit : Option ℕ
  pub response_description : Option Str
  pub operation_id : Option Str
  pub responses : Option Json
  pub openapi_extra : Option Json
  pub callbacks : Option Json

-- `StatusCode::from_u16` accepts three digits.
abbrev pub is_status : ℕ → Bool
is_status code = leb 100 code && ltb code 1000

abbrev pub status_of : Option ℕ → PyResult (Option ℕ)
status_of none = ok none
status_of (some code) =
    if is_status code
    then ok (some code)
    else err (value_error (codes "status_code must be between 100 and 599"))

abbrev pub body_names : List ParsedParameter → List Str
body_names [] = []
body_names (param ∷ params) =
    let rest = body_names params in if is_body param.source then param.name ∷ rest else rest

abbrev pub name_set_of : ParsedSignature → List Str
name_set_of parsed =
    body_names parsed.parsed_params
    ++ map (λ (v : PydanticValidator). v.name) parsed.param_validators

abbrev pub hint_of : RouteOptions → SerializationHint → SerializationHint
hint_of options hint =
    if is_some options.response_model
    then (if options.response_model_is_none
        then SerializationHint.unknown
        else SerializationHint.pydantic_model)
    else hint

abbrev pub response_type_of : Option (PyRef × ResponseClass) → ResponseType → ResponseType
response_type_of none type = type
response_type_of (some (class, kind)) type = get_response_type_from_class kind

abbrev pub class_ref : Option (PyRef × ResponseClass) → Option PyRef
class_ref none = none
class_ref (some (class, kind)) = some class

-- The handler that the closure of a decorator makes; `address` is the one of its new `Arc`.
unfoldable pub assemble : RouteOptions → Option ℕ → ParsedRouteMetadata → PyRef → ℕ → RouteHandler
unfolding assign_execution_mode get_response_type_from_class str_eq
assemble options default_status metadata func address =
    let parsed = metadata.parsed in
    let name_set = name_set_of parsed in
    assign_execution_mode (record {
      address = address;
      func = func;
      is_async = metadata.is_async;
      is_fast_path = metadata.is_fast_path;
      dependency_needs_request = metadata.dependency_needs_request;
      all_deps_sync = metadata.all_deps_sync;
      param_validators = parsed.param_validators;
      response_type = response_type_of options.response_class metadata.response_type;
      serialization_hint = hint_of options metadata.serialization_hint;
      needs_kwargs =
          not (is_empty parsed.body_param_names)
          || not (is_empty parsed.param_validators)
          || not (is_empty metadata.dependencies)
          || not (is_empty parsed.parsed_params);
      body_param_names = parsed.body_param_names;
      body_param_name_set = name_set;
      body_param_indices = indices_from (is_of_body name_set) 0 parsed.parsed_params;
      dependencies = metadata.dependencies;
      parsed_params = parsed.parsed_params;
      default_status = default_status;
      response_model = options.response_model;
      response_class = class_ref options.response_class;
      bypass_serialization = is_some options.response_model && options.response_model_is_none;
      execution_mode = ExecutionMode.sync_no_args;
      cache_response = unwrap_or options.cache_resp false;
      rate_limit_per_second = options.rate_limit;
    })

-- What the closure of a decorator has captured.
pub record Decorator : Type 0 where
  pub router : ℕ
  pub method : HttpMethod
  pub path : Str
  pub options : RouteOptions
  pub default_status : Option ℕ
  pub tags : List Str
  pub deprecated : Option Bool

abbrev pub tags_of : List Str → Option (List (Option Str)) → List Str
tags_of current none = current
tags_of current (some items) = merge_tags current (strings items)

unfoldable pub create_method_decorator_kw :
    ℕ → HttpMethod → Str → RouteOptions → Heap → PyResult Decorator
unfolding merge_tags strings
create_method_decorator_kw self method path options heap =
    if (heap self).frozen
    then err (runtime_error frozen_error)
    else status_of options.status_code >>= λ default_status. ok (record {
      router = self;
      method = method;
      path = path;
      options = options;
      default_status = default_status;
      tags = tags_of (heap self).tags options.tags;
      deprecated = or_else options.deprecated (heap self).deprecated;
    })

abbrev pub entry_of : Decorator → RouteHandler → RouteEntry
entry_of decorator handler = record {
  method = decorator.method;
  path = decorator.path;
  handler = handler;
  tags = decorator.tags;
  summary = decorator.options.summary;
  description = decorator.options.description;
  response_description = decorator.options.response_description;
  operation_id = decorator.options.operation_id;
  openapi_extra = decorator.options.openapi_extra;
  responses = decorator.options.responses;
  callbacks = decorator.options.callbacks;
  deprecated = decorator.deprecated;
  include_in_schema = unwrap_or decorator.options.include_in_schema true;
}

module _ (regex_compiles : Str → Bool) (getattr : PyRef → Str → Option PyRef) where
  -- The closure, applied to a function; `found` are the dependencies that are found.
  unfoldable pub decorate :
      Decorator → FunctionInfo → PyResult (List DependencyNode) → ℕ → Heap → Heap
  unfolding parse_route_metadata assemble push_route
  decorate decorator info found address heap =
      let metadata = parse_route_metadata regex_compiles getattr info decorator.path found in
      let handler =
        assemble decorator.options decorator.default_status metadata info.func address in
      push_route decorator.router (entry_of decorator handler) heap

-- The closure of a websocket decorator: its router and its path.
unfoldable pub create_ws_decorator : ℕ → Str → Heap → PyResult (ℕ × Str)
unfolding starts_with_char
create_ws_decorator self path heap =
    if (heap self).frozen
    then err (runtime_error frozen_error)
    else if not (starts_with_char path b'/')
    then err (value_error (codes "WebSocket path must start with '/'"))
    else ok (self, path)

unfoldable pub decorate_ws : ℕ × Str → PyRef → Heap → Heap
decorate_ws (self, path) func heap =
    let entries = (heap self).websocket_entries ++ record { path = path; handler = func } ∷ [] in
    write self (record (heap self) { websocket_entries = entries }) heap
