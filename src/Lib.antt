-- ===== src/Lib.antt =====
-- FastrAPI: a Python web framework with its server in Rust. This library models its core, the way
-- from a decorated Python function to a response, and proves what makes the parts correct.
--
-- The parts, and how they interact:
--   An APIRouter collects routes and mounts other routers; it is flattened into a list of routes,
--   and frozen (src/ffi/decorators). A router for requests is built from the list
--   (src/routing/router.rs). `dispatch` (src/engine/server/dispatch.rs) takes the root path off the
--   path of a request, resolves it, asks the rate limit (src/engine/server/rate_limit.rs), and runs
--   the handler in the mode that was assigned to it (src/ffi/py_handlers.rs). The parameters of the
--   handler come from the signature of its function (src/routing/params.rs); their values are read
--   from the request, converted and checked (src/routing/types.rs, src/ffi/pydantic.rs). Its
--   dependencies were flattened into a plan, which is executed first (src/routing/dependencies.rs).
--   What the handler returns is converted to a response (src/http/responses.rs), as JSON by
--   src/utils/mod.rs. The routes are described by an OpenAPI document (src/utils/openapi.rs).
--   A frontend's files are looked for beside the routes (src/engine/server/files.rs).
--   In development, a supervisor runs the program as a child and starts it again when a file changes
--   (src/engine/server/reload.rs).
--
-- The files:
--   Prelude          names of the libraries; tests on numbers, lists, and maps
--   Text             `&str` as a list of code points, its length in UTF-8 bytes
--   Python, Http     references, values and exceptions of Python; responses
--   Routing.Types    the data of src/routing/types.rs and what a route carries
--   Routing.Paths    `join_path`, `normalize_lookup`, `normalize_register`
--   Routing.Api      `PyAPIRouter`: `include_router`, `freeze`, `flatten`, `flatten_router`
--   Routing.Frozen   `FrozenRouterBuilder` and `FrozenRouter`: `add_route`, `build`, `resolve`
--   Routing.Params   `parse_parameter_spec`, `extract_path_param_names`
--   Routing.Dependencies          `parse_dependencies`, `extract_and_flatten`
--   Routing.Dependencies.Execute  `execute_dependencies_sync`
--   Routing.Handlers `parse_route_metadata` (src/ffi/pydantic.rs), and the decorators of
--                    src/ffi/decorators/init.rs
--   Request.Input    `RequestInput`: path, query, header and cookie parameters
--   Request.Scalar, Request.Constraints, Request.Resolve
--                    `convert_scalar_value`, `validate_scalar_constraints`, `resolve_parameter_value`
--   Request.Bind     `apply_body_and_validation` and `apply_request_data` (src/ffi/pydantic.rs)
--   Server.RateLimit, Server.Execution, Server.Dispatch, Server.Files
--                    `is_rate_limited`; `assign_execution_mode` and `run_py_handler`; `dispatch` and
--                    `build_request_input_from_parts`; `serve_frontend_mounts`
--   Server.Payload   `extract_payload`: forms, multipart bodies and JSON
--   Server.Reload    `is_reload_ignored`, and in Server.Reload.Supervisor `run_reload_supervisor`
--                    (src/engine/server/reload.rs)
--   Serialize        `write_py_json`, `py_any_to_json` and the responses of src/utils/mod.rs
--   OpenApi          `deep_merge_json`, `build_paths_from_routes`, `build_openapi_spec` and
--                    `parse_callbacks_to_json` (src/utils/openapi.rs)
--   Responses        `convert_response_by_type` (src/http/responses.rs), and in Responses.Handled
--                    the core functions of src/ffi/py_handlers.rs, chosen in Responses.Modes
--   Middleware.Cors  `parse_and_validate_vec` and `build_cors_layer` (src/http/middleware/cors.rs)
--   Tests            the theorems at concrete inputs
-- A child module holds theorems about its parent.
--
-- State: routers are objects that are shared, so a heap maps an address to each. The plan and the
-- map of visited callables are passed through `extract_and_flatten`, the map of rate limits through
-- `is_rate_limited`, and the state of the Python program through `execute_dependencies_sync`.
-- So is it through the core functions, which call the handler. A Python object that is written as JSON
-- is a finite tree: an object that contains itself makes the program recurse without end.
-- The supervisor of reloads goes through its turns, each with what it meets, and logs what becomes of
-- its children; its loop ends by an error only, so any list of turns is a part of a run.
-- Errors are values: `PyResult` of Python, `Outcome` for a response, `Executed` for either or a panic.
--
-- Fuel: `flatten_router` loops and `extract_and_flatten` recurses for as long as the routers and the
-- dependencies go on, so both take fuel, and are `none` without it. A round of the loop takes one;
-- a level of the recursion takes one. So a router needs as many rounds as its tree has routers, and a
-- handler as many levels as its longest chain of dependencies has callables.
--
-- Machine integers: an `i64` is read with its range, a float is its 64 bits. The count of a rate limit,
-- a `u32`, is only raised below the limit, which is one too, so it is a number here.
--
-- Parameters: matchit (the tree of routes with parameters), multer, sonic_rs, form_urlencoded, the
-- regex, percent_encoding, globset, http and cookie crates, pyo3's extraction and calls of Python objects,
-- `str::parse::<f64>`, the file system, its watcher and the processes.
--
-- Not modelled: the validation inside pydantic, the asynchronous execution of dependencies and the
-- core function that uses it, the thread pool, the chunks of a streamed body, websockets beyond their
-- registration, the other middlewares, the setters of the application object, the assembly and life
-- of the server (axum and tokio glue), and the registration of Python classes.
pub mod Prelude
pub mod Text
pub mod Python
pub mod Http
pub mod Routing
pub mod Request
pub mod Server
pub mod Serialize
pub mod OpenApi
pub mod Responses
pub mod Middleware
pub mod Tests
