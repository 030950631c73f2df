-- ===== src/Server/Execution.antt =====
-- `assign_execution_mode`, `run_py_handler` and `run_py_handler_no_request` of src/ffi/py_handlers.rs.
use fastrapi.Prelude.{Bool, true, false, Option, none, some, is_empty}
use fastrapi.Routing.Types.{ExecutionMode, RouteHandler}

-- The functions that run a handler; the flag is the constant parameter.
pub data Core : Type 0 where
  core_sync_no_args core_async_no_args core_sync_no_deps core_async_no_deps : Core
  core_sync_deps core_async_sync_deps core_async_async_deps : Bool → Core

-- needs_kwargs, is_async, no dependencies, all dependencies sync, a dependency needs the request
abbrev pub mode_of : Bool → Bool → Bool → Bool → Bool → ExecutionMode
mode_of false false _ _ _ = ExecutionMode.sync_no_args
mode_of false true _ _ _ = ExecutionMode.async_no_args
mode_of true false true _ _ = ExecutionMode.sync_no_deps
mode_of true false false _ false = ExecutionMode.sync_deps_no_req
mode_of true false false _ true = ExecutionMode.sync_deps_req
mode_of true true true _ _ = ExecutionMode.async_no_deps
mode_of true true false true false = ExecutionMode.async_sync_deps_no_req
mode_of true true false true true = ExecutionMode.async_sync_deps_req
mode_of true true false false false = ExecutionMode.async_async_deps_no_req
mode_of true true false false true = ExecutionMode.async_async_deps_req

unfoldable pub assign_execution_mode : RouteHandler → RouteHandler
assign_execution_mode handler = record handler {
  execution_mode =
      mode_of handler.needs_kwargs handler.is_async (is_empty handler.dependencies)
        handler.all_deps_sync handler.dependency_needs_request;
}

unfoldable pub run_py_handler : ExecutionMode → Core
run_py_handler ExecutionMode.sync_no_args = Core.core_sync_no_args
run_py_handler ExecutionMode.async_no_args = Core.core_async_no_args
run_py_handler ExecutionMode.sync_no_deps = Core.core_sync_no_deps
run_py_handler ExecutionMode.sync_deps_no_req = Core.core_sync_deps false
run_py_handler ExecutionMode.sync_deps_req = Core.core_sync_deps true
run_py_handler ExecutionMode.async_no_deps = Core.core_async_no_deps
run_py_handler ExecutionMode.async_sync_deps_no_req = Core.core_async_sync_deps false
run_py_handler ExecutionMode.async_sync_deps_req = Core.core_async_sync_deps true
run_py_handler ExecutionMode.async_async_deps_no_req = Core.core_async_async_deps false
run_py_handler ExecutionMode.async_async_deps_req = Core.core_async_async_deps true

-- `none` is the answer with status 500.
unfoldable pub run_py_handler_no_request : ExecutionMode → Option Core
run_py_handler_no_request ExecutionMode.sync_no_args = some Core.core_sync_no_args
run_py_handler_no_request ExecutionMode.async_no_args = some Core.core_async_no_args
run_py_handler_no_request _ = none

-- The test of `dispatch` for a handler that needs nothing of the request.
abbrev pub is_no_args : ExecutionMode → Bool
is_no_args ExecutionMode.sync_no_args = true
is_no_args ExecutionMode.async_no_args = true
is_no_args _ = false
