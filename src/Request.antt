-- ===== src/Request.antt =====
-- What a handler receives of a request: src/routing/types.rs (`RequestInput`) and src/ffi/pydantic.rs.
pub mod Input
pub mod Scalar
pub mod Constraints
pub mod Resolve
pub mod Bind
