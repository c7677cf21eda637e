-- ===== src/Examples.antt =====
-- Tests and instances of the theorems at concrete values.
mod Ranges
mod Members
mod Deployments
mod Scales
mod Logs
mod LeasedAddresses
mod CronRuns
mod CronJobs
mod Ticks
mod Plans
mod Patterns
mod Routes
