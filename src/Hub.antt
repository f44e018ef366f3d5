-- ===== src/Hub.antt =====
-- The hub (stpd/hub): the operations database, and the scheduler that is its client.
pub mod Schema
pub mod Jobs
pub mod Compute
pub mod Calls
pub mod Lifecycle
pub mod Runs
pub mod Exec
pub mod Scheduler
pub mod Uploads
pub mod Members
pub mod Identity
pub mod Ingress
