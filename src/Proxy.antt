-- ===== src/Proxy.antt =====
-- crates/jiji-proxy.
pub mod Wildcard
pub mod Routes
