-- ===== src/Tests.antt =====
-- The theorems at concrete inputs.
mod Data
mod Routes
mod Routers
mod Plans
mod Params
mod Requests
mod Servers
mod Payloads
mod Bodies
mod Serializers
mod Answers
mod Documents
mod Middlewares
mod Reloads
