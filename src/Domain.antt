-- ===== src/Domain.antt =====
-- The task layer's domain (src/domain.rs): process statuses and their transitions, the stored task
-- state, exit evidence and worker reports.
pub mod ProcessStatus
pub mod ExitReason
pub mod TaskStatus
pub mod Transitions
pub mod TaskState
pub mod Evidence
pub mod Report
pub mod Lifecycle
pub mod RoundTrips
pub mod Release
mod Examples
