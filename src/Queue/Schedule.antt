-- ===== src/Queue/Schedule.antt =====
-- Scheduling decisions for one machine queue (src/queue/schedule.rs): what a decision reads and
-- makes here, the walk that fills free resources in `Schedule.Fill`, preemption in
-- `Schedule.Preempt`, the blocked head in `Schedule.Blocked`, and `decide` in `Schedule.Decide`.
pub mod Types
pub mod Fill
pub mod Preempt
pub mod Blocked
pub mod Decide
pub mod FillLaws
pub mod Launches
pub mod Exclusive
pub mod Minimum
pub mod Preemptions
pub mod Notices
pub mod Heads
mod Examples
