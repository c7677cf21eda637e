-- ===== src/Agent.antt =====
-- The crate jiji-agent: the durable state of one project on one host.
pub mod Membership
pub mod Catalog
pub mod Desired
pub mod Store
pub mod Leases
pub mod Cron
pub mod CronSpecs
pub mod CronSchedule
pub mod Scheduler
