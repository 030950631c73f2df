-- ===== src/Tests/Answers.antt =====
-- Answers of handlers at concrete inputs.
use fastrapi.Prelude.{ℕ, suc, ◌≡◌, refl, true, none, some, []}
use fastrapi.Text.{codes}
use fastrapi.Python.{ok, pos}
use fastrapi.Routing.Types.{ResponseType, RouteHandler}
use fastrapi.Routing.Handlers.{parse_route_metadata}
use fastrapi.Routing.Handlers.Decorator.{assemble}
use fastrapi.Server.Payload.{BodyPayload}
use fastrapi.Serialize.Objects.{integer, no_extension}
use fastrapi.Request.Bind.Assembled.{decorated_handler}
use fastrapi.Responses.{plain, ResponseLibraries}
use fastrapi.Responses.Handled.{
  Runtime, core_sync_no_deps, render_no_request_response, render_no_request_json_response,
}
use fastrapi.Responses.Statuses.{
  RefusedOrCalled, render_no_request_json_response-plain, core_sync_no_deps-RefusedOrCalled,
}
use fastrapi.Server.Execution.{run_py_handler}
use fastrapi.Responses.Modes.{run_core, handle_generally, run_py_handler-handle_generally}
use fastrapi.Tests.Plans.{plan_of_world}
use fastrapi.Tests.Data.{handler_at, small_libraries, get_input}
use fastrapi.Tests.Serializers.{printer}
use fastrapi.Tests.Bodies.{accepting, any_attribute, create_item, no_route_options}

abbrev small_responses : ResponseLibraries
small_responses = record {
  json = printer;
  header = λ name value. none;
  extend = λ headers more. headers;
  insert = λ name value headers. headers;
  string_lossy = λ value. [];
  http_error = λ e. none;
  model_validate = λ model value. ok (no_extension, value);
}

-- A program that counts the calls, and returns 7.
abbrev counting : Runtime ℕ
counting = record {
  call = λ n f kwargs. (suc n, ok (plain no_extension (integer (pos 7))));
  call_object = λ n f kwargs. (suc n, ok f);
  new_request = λ scope. ok 1;
  schedule = λ coroutine. ok coroutine;
  await = λ n future. (n, ok (plain no_extension (integer (pos 7))));
}

abbrev json_handler : RouteHandler
json_handler = record (handler_at 1) { response_type = ResponseType.json }

render_no_request_json_response-plain_example :
    render_no_request_json_response small_responses
      (λ r. integer (pos 0))
      json_handler
      (ok (plain no_extension (integer (pos 7))))
    ≡ render_no_request_response small_responses json_handler
        (ok (plain no_extension (integer (pos 7))))
render_no_request_json_response-plain_example =
    render_no_request_json_response-plain small_responses (λ r. integer (pos 0)) json_handler
      (ok (plain no_extension (integer (pos 7)))) refl refl tt

core_sync_no_deps-RefusedOrCalled_example :
    let handler =
      decorated_handler
        (λ p. true)
        any_attribute
        no_route_options
        none
        create_item
        (codes "/items")
        (ok [])
        3 in
    RefusedOrCalled counting small_libraries accepting small_responses handler 0 (
      core_sync_no_deps counting small_libraries accepting small_responses handler
        (get_input (codes "q=2"))
        (some (BodyPayload.json (codes "{}") none))
        0)
core_sync_no_deps-RefusedOrCalled_example =
    core_sync_no_deps-RefusedOrCalled counting small_libraries accepting small_responses (λ p. true)
      any_attribute no_route_options none create_item (codes "/items") (ok []) 3
      (get_input (codes "q=2")) (some (BodyPayload.json (codes "{}") none)) 0

-- A handler with two dependencies, and a request without a body.
abbrev dependent_handler : RouteHandler
dependent_handler =
    decorated_handler (λ p. true) any_attribute no_route_options none create_item (codes "/items")
      (ok plan_of_world) 3

run_py_handler-handle_generally_example :
    run_core counting small_libraries accepting small_responses
      (run_py_handler dependent_handler.execution_mode)
      dependent_handler
      (get_input (codes "q=2"))
      none
      0
    ≡ some (
        handle_generally counting small_libraries accepting small_responses dependent_handler
          (get_input (codes "q=2"))
          none
          0)
unfolding assemble parse_route_metadata
run_py_handler-handle_generally_example =
    run_py_handler-handle_generally counting small_libraries accepting small_responses (λ p. true)
      any_attribute no_route_options none create_item (codes "/items") (ok plan_of_world) 3
      (get_input (codes "q=2")) none 0 refl
