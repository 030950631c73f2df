-- ===== src/Serialize.antt =====
-- src/utils/mod.rs: Python objects as JSON, written as text or built as a value.
pub mod Objects
pub mod Writer
pub mod Value
pub mod Respond
pub mod Compact
pub mod Keys
pub mod Hints
pub mod Agree
