-- ===== src/Server.antt =====
-- The directory src/engine/server, and the choice of a handler's entry point in src/ffi/py_handlers.rs.
pub mod RateLimit
pub mod Execution
pub mod Dispatch
pub mod Files
pub mod Payload
pub mod Reload
