-- ===== src/Store.antt =====
-- The store side of the GPU priority queue (src/store/queue.rs, src/store/queue/): its tables, and the
-- operations that run in one transaction each.
pub mod Types
pub mod Access
pub mod Updates
pub mod Invariant
pub mod Preserved
pub mod Turnover
pub mod Steps
pub mod Agreement
pub mod States
pub mod Levels
pub mod Events
pub mod Requests
pub mod Reserve
pub mod ReserveLaws
pub mod Finish
pub mod FinishLaws
pub mod Commit
pub mod CommitSteps
pub mod CommitHits
pub mod CommitLaws
pub mod CommitReads
pub mod Cleanup
pub mod CleanupLaws
pub mod Cancel
pub mod CancelLaws
pub mod Move
pub mod Slots
pub mod Written
pub mod MoveFacts
pub mod MoveSlots
pub mod Between
pub mod MoveLaws
pub mod MoveAgrees
pub mod Submit
pub mod SubmitLaws
pub mod SubmitAgrees
pub mod Operations
pub mod Replay
pub mod Ledgers
pub mod Reach
pub mod Episodes
pub mod EpisodeLaws
mod Scenario
mod Examples
mod JobExamples
mod ReplayExamples
mod EpisodeExamples
