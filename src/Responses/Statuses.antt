-- ===== src/Responses/Statuses.antt =====
-- The answers of src/http/responses.rs and src/ffi/py_handlers.rs.
use fastrapi.Prelude.{ℕ, ◌≡◌, refl, ◌⊎◌, Bool, Option, none, List, [], All, inl, inr}
use fastrapi.Text.{Str}
use fastrapi.Python.{PyRef, PyResult, ok, err}
use fastrapi.Routing.Types.{ResponseType, RouteHandler, DependencyNode}
use fastrapi.Routing.Dependencies.Execute.{Kwargs, Executed, done, python, response, panic}
use fastrapi.Routing.Handlers.{FunctionInfo}
use fastrapi.Routing.Handlers.Decorator.{RouteOptions}
use fastrapi.Request.Input.{RequestInput}
use fastrapi.Request.Resolve.{Libraries}
use fastrapi.Request.Bind.{Pydantic}
use fastrapi.Request.Bind.Answered.{Answers}
use fastrapi.Request.Bind.Steps.{IsBound}
use fastrapi.Request.Bind.Assembled.{decorated_handler, assemble-apply_request_data}
use fastrapi.Server.Payload.{BodyPayload}
use fastrapi.Serialize.Objects.{PyObject, Extension, none_object}
use fastrapi.Responses.{
  Result, plain, explicit, Answer, ResponseLibraries, of_response, specialized_response_conversion,
  convert_response_by_type,
}
use fastrapi.Responses.Handled.{
  Runtime, Handled, refused, finish, then_handle, prepare_kwargs_and_payload, core_sync_no_deps,
  render_no_request_response, render_no_request_json_response, written_json,
}

module _ (libraries : ResponseLibraries) where
  -- A call that raised, or returned no explicit response.
  abbrev pub IsPlain : PyResult Result → Type 0
  IsPlain (err e) = Unit
  IsPlain (ok (plain extension value)) = Unit
  IsPlain (ok (explicit r)) = ⊥

  json_plain :
      (handler : RouteHandler) (extension : Extension) (value : PyObject)
      → handler.response_type ≡ ResponseType.json
      → handler.response_model ≡ none
      → written_json libraries handler extension value
        ≡ specialized_response_conversion libraries (plain extension value) handler
  unfolding specialized_response_conversion convert_response_by_type
  json_plain handler extension none_object t m = rw (t, specialized_response_conversion) refl
  json_plain handler extension _ t m =
      rw (t, m, specialized_response_conversion, convert_response_by_type) (rw t refl)

  -- For a handler whose response type is JSON, and that has no response model: the fast path for JSON
  -- answers as the general one does, whether the call raised or returned any value but an explicit
  -- response.
  pub render_no_request_json_response-plain :
      (object_of : Result → PyObject) (handler : RouteHandler) (called : PyResult Result)
      → handler.response_type ≡ ResponseType.json
      → handler.response_model ≡ none
      → IsPlain called
      → render_no_request_json_response libraries object_of handler called
        ≡ render_no_request_response libraries handler called
  unfolding render_no_request_json_response
  render_no_request_json_response-plain object_of handler (err e) t m h = refl
  render_no_request_json_response-plain object_of handler (ok (plain extension value)) t m h =
      json_plain handler extension value t m
  render_no_request_json_response-plain object_of handler (ok (explicit r)) t m h = absurd h

module _ {World : Type 0} (runtime : Runtime World) (libraries : Libraries) (pydantic : Pydantic)
    (responses : ResponseLibraries) where
  -- The handler was not called, and the request is refused with status 422; or it was called once, in
  -- the state before, with arguments among which each required parameter has one.
  abbrev pub RefusedOrCalled : RouteHandler → World → Handled World → Type 0
  RefusedOrCalled handler world outcome =
      ((answer : Answer) × (outcome ≡ refused answer) × (answer.status ≡ 422))
      ⊎ ((kwargs : Kwargs) × (tasks : Bool) × All (λ p. IsBound p kwargs) handler.parsed_params
          × (outcome
              ≡ finish runtime libraries pydantic responses handler tasks
                  (runtime.call world handler.func kwargs)))

  outcome_of :
      (handler : RouteHandler) (world : World) (m : Executed (Kwargs × Bool))
      → Answers (λ state. All (λ p. IsBound p state.0) handler.parsed_params) m
      → RefusedOrCalled handler world (
          then_handle runtime libraries pydantic responses m λ bound.
            finish runtime libraries pydantic responses handler bound.1
              (runtime.call world handler.func bound.0))
  outcome_of handler world (done (kwargs, tasks)) h = inr (kwargs, tasks, h, refl)
  outcome_of handler world (response r) h = inl (of_response r, refl, h)
  outcome_of handler world (python e) h = absurd h
  outcome_of handler world panic h = absurd h

  -- `core_sync_no_deps`, for a handler as a decorator makes it of any function, and any request: the
  -- request is refused with status 422 before the handler is called, or the handler is called once, in the state before,
  -- with arguments among which each required parameter has one.
  pub core_sync_no_deps-RefusedOrCalled :
      (regex_compiles : Str → Bool) (getattr : PyRef → Str → Option PyRef) (options : RouteOptions)
      (status : Option ℕ) (info : FunctionInfo) (path : Str)
      (found : PyResult (List DependencyNode)) (address : ℕ) (input : RequestInput)
      (payload : Option BodyPayload) (world : World)
      → let handler =
          decorated_handler regex_compiles getattr options status info path found address in
        RefusedOrCalled handler world
          (core_sync_no_deps runtime libraries pydantic responses handler input payload world)
  unfolding core_sync_no_deps prepare_kwargs_and_payload
  core_sync_no_deps-RefusedOrCalled regex_compiles getattr options status info path found address
        input payload world =
      outcome_of (decorated_handler regex_compiles getattr options status info path found address)
        world _
        (assemble-apply_request_data regex_compiles getattr libraries pydantic options status info
          path found address input payload [])
