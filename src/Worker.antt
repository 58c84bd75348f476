-- ===== src/Worker.antt =====
-- internal/worker: what the job workers do with one job.
pub mod Signing
pub mod Transfers
pub mod System
pub mod Pools
pub mod DispatchError
pub mod Dispatch
pub mod Deploys
pub mod HealthCheck
pub mod Safety
pub mod Issue
pub mod Resigner
pub mod Unlocker
