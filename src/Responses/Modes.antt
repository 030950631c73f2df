-- ===== src/Responses/Modes.antt =====
-- `run_py_handler` of src/ffi/py_handlers.rs: what the execution modes skip.
use fastrapi.Prelude.{
  ◌≡◌, refl, ap, ℕ, Bool, true, false, not, ◌&&◌, ◌||◌, Option, none, some, List, [], ◌∷◌, is_empty,
  if◌then◌else◌, arith,
}
use fastrapi.Text.{Str}
use fastrapi.Python.{PyRef, PyResult}
use fastrapi.Routing.Types.{RouteHandler, DependencyNode}
use fastrapi.Routing.Dependencies.Execute.{Kwargs, execute_dependencies_sync}
use fastrapi.Routing.Handlers.{FunctionInfo}
use fastrapi.Routing.Handlers.Decorator.{RouteOptions, assemble}
use fastrapi.Routing.Handlers.Indices.{indices_from, is_of_body}
use fastrapi.Request.Input.{RequestInput}
use fastrapi.Request.Resolve.{Libraries}
use fastrapi.Request.Bind.{Pydantic, apply_request_data, apply_body_and_validation, bind_params}
use fastrapi.Request.Bind.Assembled.{decorated_handler}
use fastrapi.Server.Payload.{BodyPayload}
use fastrapi.Server.Execution.{Core, mode_of, assign_execution_mode, run_py_handler}
use fastrapi.Responses.{ResponseLibraries}
use fastrapi.Responses.Handled.{
  Runtime, Handled, finish, finish_async, then_handle, prepare_kwargs_and_payload, request_object,
  resolve_sync_deps, set_results, core_sync_no_args, core_async_no_args, core_sync_no_deps,
  core_sync_deps, core_async_no_deps, core_async_sync_deps,
}

module _ {World : Type 0} (runtime : Runtime World) (libraries : Libraries) (pydantic : Pydantic)
    (responses : ResponseLibraries) where
  -- What the chosen function does; `none` for that of asynchronous dependencies, which is not modelled.
  unfoldable pub run_core :
      Core → RouteHandler → RequestInput → Option BodyPayload → World → Option (Handled World)
  unfolding core_sync_no_args core_async_no_args core_sync_no_deps core_sync_deps core_async_no_deps
      core_async_sync_deps
  run_core Core.core_sync_no_args handler input payload world =
      some (core_sync_no_args runtime libraries pydantic responses handler world)
  run_core Core.core_async_no_args handler input payload world =
      some (core_async_no_args runtime libraries pydantic responses handler world)
  run_core Core.core_sync_no_deps handler input payload world =
      some (core_sync_no_deps runtime libraries pydantic responses handler input payload world)
  run_core (Core.core_sync_deps b) handler input payload world =
      some (core_sync_deps runtime libraries pydantic responses b handler input payload world)
  run_core Core.core_async_no_deps handler input payload world =
      some (core_async_no_deps runtime libraries pydantic responses handler input payload world)
  run_core (Core.core_async_sync_deps b) handler input payload world =
      some (core_async_sync_deps runtime libraries pydantic responses b handler input payload world)
  run_core (Core.core_async_async_deps b) handler input payload world = none

  -- The call of the handler, which is awaited if it is async.
  abbrev pub call_handler : RouteHandler → Bool → World → Kwargs → Handled World
  call_handler handler tasks world kwargs =
      if handler.is_async
      then finish_async runtime libraries pydantic responses handler tasks
          (runtime.call_object world handler.func kwargs)
      else finish runtime libraries pydantic responses handler tasks
          (runtime.call world handler.func kwargs)

  -- The way of any request, none of it left out: bind the arguments, make the request object if there are
  -- dependencies and one needs it, execute the dependencies, and call the handler.
  abbrev pub handle_generally :
      RouteHandler → RequestInput → Option BodyPayload → World → Handled World
  handle_generally handler input payload world =
      let needs_req = not (is_empty handler.dependencies) && handler.dependency_needs_request in
      then_handle runtime libraries pydantic responses
        (prepare_kwargs_and_payload runtime libraries pydantic responses handler input payload)
        λ bound.
          then_handle runtime libraries pydantic responses
            (request_object runtime libraries pydantic responses needs_req input)
            λ object.
              then_handle runtime libraries pydantic responses
                (resolve_sync_deps runtime libraries pydantic responses handler input object world)
                λ resolved. call_handler handler bound.1 resolved.0 (set_results resolved.1 bound.0)

  empty_of : {A : Type 0} (xs : List A) → is_empty xs ≡ true → xs ≡ []
  empty_of [] e = refl
  empty_of (x ∷ xs) e = absurd (ground arith)

  module _ (handler : RouteHandler) (input : RequestInput) (payload : Option BodyPayload)
      (world : World) where
    abbrev Agrees : Core → Type 0
    Agrees core =
        run_core core handler input payload world
        ≡ some (handle_generally handler input payload world)

    -- The two functions for no arguments bind none.
    no_args-Agrees :
        (async : Bool)
        → handler.is_async ≡ async
        → handler.dependencies ≡ []
        → handler.parsed_params ≡ []
        → handler.body_param_indices ≡ []
        → Agrees (if async then Core.core_async_no_args else Core.core_sync_no_args)
    unfolding run_core core_sync_no_args core_async_no_args prepare_kwargs_and_payload
        apply_request_data bind_params apply_body_and_validation execute_dependencies_sync
    no_args-Agrees true a d p i = rw (a, d, p, i) refl
    no_args-Agrees false a d p i = rw (a, d, p, i) refl

    no_deps-Agrees :
        (async : Bool)
        → handler.is_async ≡ async
        → handler.dependencies ≡ []
        → Agrees (if async then Core.core_async_no_deps else Core.core_sync_no_deps)
    unfolding run_core core_sync_no_deps core_async_no_deps execute_dependencies_sync
    no_deps-Agrees true a d = rw (a, d) refl
    no_deps-Agrees false a d = rw (a, d) refl

    sync_deps-Agrees :
        (async : Bool) (needs_req : Bool)
        → handler.is_async ≡ async
        → is_empty handler.dependencies ≡ false
        → handler.dependency_needs_request ≡ needs_req
        → Agrees
            (if async then Core.core_async_sync_deps needs_req else Core.core_sync_deps needs_req)
    unfolding run_core core_sync_deps core_async_sync_deps
    sync_deps-Agrees true needs_req a d r = rw (a, d, r) refl
    sync_deps-Agrees false needs_req a d r = rw (a, d, r) refl

    mode-Agrees :
        (kwargs async no_deps sync_deps needs_req : Bool)
        → handler.is_async ≡ async
        → is_empty handler.dependencies ≡ no_deps
        → handler.dependency_needs_request ≡ needs_req
        → (kwargs ≡ false
            → (handler.dependencies ≡ [])
              × (handler.parsed_params ≡ [])
              × (handler.body_param_indices ≡ []))
        → (async && (not no_deps && not sync_deps)) ≡ false
        → Agrees (run_py_handler (mode_of kwargs async no_deps sync_deps needs_req))
    unfolding run_py_handler
    mode-Agrees false false _ _ _ a d r n s = let (e, p, i) = n refl in no_args-Agrees false a e p i
    mode-Agrees false true _ _ _ a d r n s = let (e, p, i) = n refl in no_args-Agrees true a e p i
    mode-Agrees true false true _ _ a d r n s = no_deps-Agrees false a (empty_of _ d)
    mode-Agrees true false false _ false a d r n s = sync_deps-Agrees false false a d r
    mode-Agrees true false false _ true a d r n s = sync_deps-Agrees false true a d r
    mode-Agrees true true true _ _ a d r n s = no_deps-Agrees true a (empty_of _ d)
    mode-Agrees true true false true false a d r n s = sync_deps-Agrees true false a d r
    mode-Agrees true true false true true a d r n s = sync_deps-Agrees true true a d r
    mode-Agrees true true false false _ a d r n s = absurd (ground arith)

  is_empty-or :
      {A B C D : Type 0} (xs : List A) (ys : List B) (zs : List C) (ws : List D)
      → (not (is_empty xs) || not (is_empty ys) || not (is_empty zs) || not (is_empty ws)) ≡ false
      → (zs ≡ []) × (ws ≡ [])
  is_empty-or [] [] [] [] e = (refl, refl)
  is_empty-or _ _ _ _ e = absurd (ground arith)

  -- For a handler as a decorator makes it of any function, that is not async with a dependency that is:
  -- what the function chosen by its execution mode does, in every state and for every request, is to bind
  -- the arguments, to make a request object if there are dependencies and one needs it, to execute the
  -- dependencies, and to call the handler with the results, awaiting it if it is async; an outcome of
  -- one step that is no success ends it there.
  pub run_py_handler-handle_generally :
      (regex_compiles : Str → Bool) (getattr : PyRef → Str → Option PyRef) (options : RouteOptions)
      (status : Option ℕ) (info : FunctionInfo) (path : Str)
      (found : PyResult (List DependencyNode)) (address : ℕ) (input : RequestInput)
      (payload : Option BodyPayload) (world : World)
      → let handler =
          decorated_handler regex_compiles getattr options status info path found address in
        (handler.is_async && (not (is_empty handler.dependencies) && not handler.all_deps_sync))
          ≡ false
        → run_core (run_py_handler handler.execution_mode) handler input payload world
          ≡ some (handle_generally handler input payload world)
  unfolding assemble assign_execution_mode
  run_py_handler-handle_generally regex_compiles getattr options status info path found address
        input payload world s =
      let handler =
        decorated_handler regex_compiles getattr options status info path found address in
      mode-Agrees handler input payload world handler.needs_kwargs handler.is_async
        (is_empty handler.dependencies) handler.all_deps_sync handler.dependency_needs_request refl
        refl refl
        (λ k.
          let (d, p) = is_empty-or _ _ _ _ k in
          (d, p, ap (indices_from (is_of_body handler.body_param_name_set) 0) p))
        s
