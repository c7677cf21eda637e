-- ===== src/Core.antt =====
-- crates/jiji-core.
pub mod Pattern
