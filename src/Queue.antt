-- ===== src/Queue.antt =====
-- The GPU priority queue's domain (src/queue.rs, src/queue/).
pub mod Priority
pub mod StopCause
pub mod Preemption
pub mod Job
pub mod Run
pub mod Stops
pub mod Classify
pub mod RunEnds
pub mod Placement
pub mod Schedule
mod Examples
