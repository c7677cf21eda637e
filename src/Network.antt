-- ===== src/Network.antt =====
-- The crate jiji-network: address ranges and the network plan of a project.
pub mod Cidr
pub mod Buckets
pub mod Naming
pub mod Planner
