-- ===== src/OpenApi.antt =====
-- src/utils/openapi.rs: the OpenAPI document of an application.
pub mod Merge
pub mod Document
pub mod Schemas
pub mod Operations
pub mod Paths
pub mod Callbacks
