-- ===== src/Middleware.antt =====
-- The directory src/http/middleware.
pub mod Cors
