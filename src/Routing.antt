-- ===== src/Routing.antt =====
-- The directory src/routing, and src/ffi/decorators, which builds the routes.
pub mod Json
pub mod Types
pub mod Paths
pub mod Params
pub mod Dependencies
pub mod Frozen
pub mod Handlers
pub mod Api
