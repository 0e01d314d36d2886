-- ===== src/Dependency.antt =====
-- Task dependencies (src/dependency.rs): the `after` list of a submission, and what becomes of the task
-- that is held on it.
pub mod Types
pub mod After
pub mod Held
pub mod AfterLaws
pub mod HeldLaws
mod Examples
