-- ===== src/Tests/Bodies.antt =====
-- Handlers as decorators make them, and their requests, at concrete inputs.
use fastrapi.Prelude.{true, false, none, some, [], ◌∷◌, All, Option}
use fastrapi.Text.{Str, codes}
use fastrapi.Python.{PyRef, ok}
use fastrapi.Routing.Params.{Annotation, Default}
use fastrapi.Routing.Handlers.{FunctionInfo}
use fastrapi.Routing.Handlers.Decorator.{RouteOptions}
use fastrapi.Server.Payload.{BodyPayload}
use fastrapi.Request.Bind.{Pydantic, apply_request_data}
use fastrapi.Request.Bind.Answered.{Answers}
use fastrapi.Request.Bind.Steps.{IsBound}
use fastrapi.Request.Bind.Assembled.{decorated_handler, assemble-apply_request_data}
use fastrapi.Tests.Data.{small_libraries, plain_parameter, get_input}

abbrev pub item_annotation : Annotation
item_annotation = record {
  ref = 7;
  empty = false;
  name = some (codes "Item");
  is_type = true;
  has_model_validate = true;
  has_model_fields = true;
  has_pydantic_validator = true;
  has_pydantic_core_schema = true;
  extends_base_model = true;
}

-- `def create(item: Item, q)`.
abbrev pub create_item : FunctionInfo
create_item = record {
  func = 1;
  co_flags = some 3;
  signature = ok (
      ok (codes "item", record { annotation = some item_annotation; default = ok Default.empty })
      ∷ ok (codes "q", plain_parameter)
      ∷ []);
  return_annotation = ok none;
}

abbrev pub no_route_options : RouteOptions
no_route_options = record {
  status_code = none;
  response_model = none;
  response_model_is_none = false;
  response_class = none;
  tags = none;
  summary = none;
  description = none;
  deprecated = none;
  include_in_schema = none;
  cache_resp = none;
  rate_limit = none;
  response_description = none;
  operation_id = none;
  responses = none;
  openapi_extra = none;
  callbacks = none;
}

-- Every validation gives object 9.
abbrev pub accepting : Pydantic
accepting = record {
  call_with_text = λ validate s. ok 9;
  call_with_bytes = λ validate b. ok 9;
  call_with_json = λ validate j. ok 9;
  errors_detail = λ e. none;
  from_utf8 = λ b. some b;
  from_slice = λ b. none;
}

abbrev pub any_attribute : PyRef → Str → Option PyRef
any_attribute ref name = some 8

assemble-apply_request_data_example :
    let handler =
      decorated_handler
        (λ p. true)
        any_attribute
        no_route_options
        none
        create_item
        (codes "/items")
        (ok [])
        3 in
    Answers
      (λ state. All (λ p. IsBound p state.0) handler.parsed_params)
      (apply_request_data small_libraries accepting handler
        (get_input (codes "q=2"))
        (some (BodyPayload.json (codes "{}") none))
        [])
assemble-apply_request_data_example =
    assemble-apply_request_data (λ p. true) any_attribute small_libraries accepting no_route_options
      none create_item (codes "/items") (ok []) 3 (get_input (codes "q=2"))
      (some (BodyPayload.json (codes "{}") none)) []
