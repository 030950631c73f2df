-- ===== src/Responses/Handled.antt =====
-- src/ffi/py_handlers.rs: the functions that bind a request, call a handler and convert what it
-- returned. Each runs as one closure, on the thread of the server or on one of the pool, where a panic
-- is answered with status 500.
use fastrapi.Prelude.{
  Bool, true, false, Option, none, some, List, [], ◌∷◌, unwrap_or, Assoc, insert,
}
use fastrapi.Text.{Str, str_eq}
use fastrapi.Text.Laws.{str_key}
use fastrapi.Python.{PyRef, PyErr, PyResult, ok, err}
use fastrapi.Routing.Types.{RouteHandler}
use fastrapi.Routing.Dependencies.Execute.{
  Argument, Kwargs, Executed, done, python, response, panic, Results, execute_dependencies_sync,
}
use fastrapi.Request.Input.{RequestInput, get_all_query_params, get_all_cookies}
use fastrapi.Request.Resolve.{Libraries}
use fastrapi.Request.Bind.{Pydantic, apply_request_data}
use fastrapi.Server.Payload.{BodyPayload}
use fastrapi.Serialize.Objects.{PyObject, Extension, none_object, no_extension}
use fastrapi.Serialize.Respond.{py_json_response_with_status_hint}
use fastrapi.Responses.{
  Result, plain, explicit, Answer, ResponseLibraries, of_status, of_written, of_response,
  python_error_to_response, specialized_response_conversion,
}

-- The scope of a request object. The dicts keep the last value of a key; a header's value is its bytes.
pub record RequestScope : Type 0 where
  pub method : Str
  pub path : Str
  pub query_string : Str
  pub path_params : Assoc Str Str
  pub query_params : Assoc Str Str
  pub headers : List (Str × Option Str)
  pub cookies : Assoc Str Str

abbrev pub dict_of : List (Str × Str) → Assoc Str Str → Assoc Str Str
dict_of [] known = known
dict_of ((key, value) ∷ pairs) known = dict_of pairs (insert key value known)

-- The Python program, with its state: the call of a handler, and of a dependency, the making of a
-- request object, and of a coroutine that is scheduled and awaited.
pub record Runtime (World : Type 0) : Type 0 where
  pub call : World → PyRef → Kwargs → World × PyResult Result
  pub call_object : World → PyRef → Kwargs → World × PyResult PyRef
  pub new_request : RequestScope → PyResult PyRef
  pub schedule : PyRef → PyResult PyRef
  pub await : World → PyRef → World × PyResult Result

-- The handler was called, with the state after it, the answer, and whether the background tasks are
-- spawned; or it was not.
pub data Handled (World : Type 0) : Type 0 where
  handled : World → Answer → Bool → Handled World
  refused : Answer → Handled World
  panicked : Handled World

abbrev pub set_results : Results → Kwargs → Kwargs
set_results [] kwargs = kwargs
set_results ((name, object) ∷ results) kwargs =
    set_results results (insert name (Argument.object object) kwargs)

module _ {World : Type 0} (runtime : Runtime World) (libraries : Libraries) (pydantic : Pydantic)
    (responses : ResponseLibraries) where
  unfoldable pub create_request_object : RequestInput → PyResult PyRef
  unfolding get_all_query_params get_all_cookies insert str_eq
  create_request_object input = runtime.new_request (record {
    method = input.method;
    path = input.path;
    query_string = input.query_string;
    path_params = dict_of (unwrap_or input.path_params []) [];
    query_params = dict_of (get_all_query_params libraries.percent_decode input) [];
    headers = input.headers;
    cookies = dict_of (get_all_cookies libraries.split_parse input) [];
  })

  unfoldable pub prepare_kwargs_and_payload :
      RouteHandler → RequestInput → Option BodyPayload → Executed (Kwargs × Bool)
  unfolding apply_request_data
  prepare_kwargs_and_payload handler input payload =
      apply_request_data libraries pydantic handler input payload []

  abbrev pub error_answer : PyErr → Answer
  error_answer e = python_error_to_response responses e

  -- `call_handler_and_convert`, and the spawning of the tasks after a handler that returned.
  abbrev pub finish : RouteHandler → Bool → World × PyResult Result → Handled World
  finish handler tasks (world, ok result) =
      handled world (specialized_response_conversion responses result handler) tasks
  finish handler tasks (world, err e) = handled world (error_answer e) false

  -- What comes of an outcome that ends before the handler.
  abbrev pub then_handle : {A : Type 0} → Executed A → (A → Handled World) → Handled World
  then_handle (done a) k = k a
  then_handle (response r) k = refused (of_response r)
  then_handle (python e) k = refused (error_answer e)
  then_handle panic k = panicked

  unfoldable pub core_sync_no_args : RouteHandler → World → Handled World
  unfolding specialized_response_conversion python_error_to_response
  core_sync_no_args handler world = finish handler false (runtime.call world handler.func [])

  unfoldable pub core_sync_no_deps :
      RouteHandler → RequestInput → Option BodyPayload → World → Handled World
  unfolding prepare_kwargs_and_payload specialized_response_conversion python_error_to_response
  core_sync_no_deps handler input payload world =
      then_handle (prepare_kwargs_and_payload handler input payload)
        λ bound. finish handler bound.1 (runtime.call world handler.func bound.0)

  -- The request object, where a dependency needs it.
  abbrev pub request_object : Bool → RequestInput → Executed (Option PyRef)
  request_object false input = done none
  request_object true input = elim (create_request_object input) [
    | ok object ↦ done (some object)
    | err e ↦ python e
  ]

  abbrev pub resolve_sync_deps :
      RouteHandler → RequestInput → Option PyRef → World → Executed (World × Results)
  resolve_sync_deps handler input object world =
      execute_dependencies_sync libraries input object runtime.call_object handler.dependencies
        world

  unfoldable pub core_sync_deps :
      Bool → RouteHandler → RequestInput → Option BodyPayload → World → Handled World
  unfolding prepare_kwargs_and_payload create_request_object execute_dependencies_sync
      specialized_response_conversion python_error_to_response insert str_eq
  core_sync_deps needs_req handler input payload world =
      then_handle (prepare_kwargs_and_payload handler input payload) λ bound.
        then_handle (request_object needs_req input) λ object.
          then_handle (resolve_sync_deps handler input object world) λ resolved.
            finish handler bound.1
              (runtime.call resolved.0 handler.func (set_results resolved.1 bound.0))

  -- `into_asyncio_future` and `await_python_future`, on the coroutine that the call gave.
  abbrev pub finish_async : RouteHandler → Bool → World × PyResult PyRef → Handled World
  finish_async handler tasks (world, err e) = handled world (error_answer e) false
  finish_async handler tasks (world, ok coroutine) = elim (runtime.schedule coroutine) [
    | err e ↦ handled world (error_answer e) false
    | ok future ↦ finish handler tasks (runtime.await world future)
  ]

  unfoldable pub core_async_no_args : RouteHandler → World → Handled World
  unfolding specialized_response_conversion python_error_to_response
  core_async_no_args handler world =
      finish_async handler false (runtime.call_object world handler.func [])

  unfoldable pub core_async_no_deps :
      RouteHandler → RequestInput → Option BodyPayload → World → Handled World
  unfolding prepare_kwargs_and_payload specialized_response_conversion python_error_to_response
  core_async_no_deps handler input payload world =
      then_handle (prepare_kwargs_and_payload handler input payload)
        λ bound. finish_async handler bound.1 (runtime.call_object world handler.func bound.0)

  unfoldable pub core_async_sync_deps :
      Bool → RouteHandler → RequestInput → Option BodyPayload → World → Handled World
  unfolding prepare_kwargs_and_payload create_request_object execute_dependencies_sync
      specialized_response_conversion python_error_to_response insert str_eq
  core_async_sync_deps needs_req handler input payload world =
      then_handle (prepare_kwargs_and_payload handler input payload) λ bound.
        then_handle (request_object needs_req input) λ object.
          then_handle (resolve_sync_deps handler input object world) λ resolved.
            finish_async handler bound.1
              (runtime.call_object resolved.0 handler.func (set_results resolved.1 bound.0))

module _ (responses : ResponseLibraries) where
  -- The answer of a handler without a request, by the general way, and by that for JSON.
  abbrev pub render_no_request_response : RouteHandler → PyResult Result → Answer
  render_no_request_response handler (ok result) =
      specialized_response_conversion responses result handler
  render_no_request_response handler (err e) = python_error_to_response responses e

  -- `object_of` is what an explicit response is as a Python object.
  abbrev pub as_object : (Result → PyObject) → Result → Extension × PyObject
  as_object object_of (plain extension value) = (extension, value)
  as_object object_of (explicit r) = (no_extension, object_of (explicit r))

  abbrev pub written_json : RouteHandler → Extension → PyObject → Answer
  written_json handler extension none_object = of_status (unwrap_or handler.default_status 204)
  written_json handler extension value = of_written (
      py_json_response_with_status_hint responses.json (unwrap_or handler.default_status 200)
        extension value handler.serialization_hint)

  unfoldable pub render_no_request_json_response :
      (Result → PyObject) → RouteHandler → PyResult Result → Answer
  unfolding py_json_response_with_status_hint python_error_to_response
  render_no_request_json_response object_of handler (err e) = python_error_to_response responses e
  render_no_request_json_response object_of handler (ok result) =
      let (extension, value) = as_object object_of result in written_json handler extension value
