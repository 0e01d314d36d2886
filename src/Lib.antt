-- ===== src/Lib.antt =====
-- Verification of the core of Homebased: the domain of its tasks, and the priority queue that shares the
-- GPUs of a machine among jobs.
--
-- The queue is split as in the source. A job is a list of steps; each step runs as a task, an attempt
-- called a run, which holds one resource. `decide` (src/queue/schedule.rs) reads a snapshot of a
-- machine's resources and queue and says which jobs to launch, which run to stop for a job of a higher
-- level, and what to tell of the first job that waits. The daemon carries a decision out through the
-- store (src/store/queue/), one transaction for each operation: a reservation makes the run and its
-- task, a confirmed start and requests to stop change its phase, and the commit of the task's end
-- classifies that end (src/queue/classify.rs), moves the job and leaves the run cleaning up.
--
-- The events of a job are told to the thread that submitted it, by the machine that it was submitted
-- from, its origin. The machine that owns the queue keeps the events in an outbox and offers them one
-- after another; the origin stores them in an inbox, each once and in order, and settles an event when
-- the thread was told (src/store/queue/delivery.rs, src/daemon/event_sender/jobs.rs).
--
-- Which file models what:
--   Base, Base/*          lists, options, results and Boolean tests with the source's names
--   Ids, Error            identities and times; the errors, with messages as data (src/error.rs,
--                         src/queue/error.rs)
--   Domain/*              src/domain.rs: process statuses and their transitions, the public task
--                         status, stored task states, exit evidence and worker reports
--   Queue/Priority, StopCause, Preemption, Job, Run, Placement
--                         the types and operations of src/queue.rs
--   Queue/Classify        src/queue/classify.rs
--   Queue/Schedule/Types, Fill, Preempt, Blocked, Decide
--                         src/queue/schedule.rs: the walk that fills free resources, the choice of a
--                         run to preempt, the head that is blocked, and `decide`
--   Store/Types           the tables of the queue (src/store/schema.rs) as records of lists
--   Store/Access, Levels, Events
--                         reads and single updates, the slots of a level, job events
--   Store/Reserve, Requests, Finish, Commit, Cleanup
--                         the operations of src/store/queue/runs.rs but `commit_preemption`
--   Store/Cancel          `apply_cancel` of src/store/queue/jobs.rs
--   Store/Submit          `submit_job` of src/store/queue/jobs.rs, `resolve_resource` of
--                         src/store/queue/resources.rs
--   Store/Move            `apply_move` of src/store/queue/jobs.rs
--   Store/Operations      `with_operation` of src/store/queue/jobs.rs, and the operations that run in it
--   Store/Episodes        `record_blocked_head` and `blocked_episode` of src/store/queue.rs
--   Delivery/Types        src/queue/delivery.rs, and the tables of routes and inbox
--   Delivery/Routes, Inbox
--                         the origin's side of src/store/queue/delivery.rs
--   Delivery/Outbox       the acknowledgement of src/store/queue/delivery.rs, and `deliver_authority` of
--                         src/daemon/event_sender/jobs.rs
--   Dependency/*          src/dependency.rs: the `after` list of a submission (After) and the decision on
--                         the task that is held on it (Held)
-- The other files of Queue, Store, Domain, Delivery and Dependency hold theorems, and those called Examples
-- or Scenario concrete inputs.
--
-- How the model relates to the code:
--   * A UUID, a time and a span are natural numbers: times count nanoseconds from chrono's earliest
--     time. chrono's latest time and its longest duration are parameters, the record `Chrono`. A clock
--     that went backwards gives age zero in the source, as subtraction on natural numbers does.
--   * SQLite keeps a time to the millisecond. Store/Episodes rounds down as the text of a time does; the
--     operations on runs and jobs keep the time that they are given, which stands for the rounded one.
--   * A `u32` keeps its bound where the source checks it (`checked_add`), and a step index does not
--     because a job has at most 32 steps. A position in SQLite is checked against 2^63.
--   * A name is the list of its bytes, which is what its order compares. `sort_by` is an insertion
--     sort that keeps the order of equals, and `min_by_key` keeps the first of equals.
--   * An operation of the store is a function from the tables to a result with new tables, or an
--     error; `immediate` drops the tables of an error, as the transaction rolls back. A fresh
--     `AttentionId` and the time are arguments. Reads by an identity take the first row, since the
--     identities are primary keys.
--   * The digests of a spec and of an operation's content are parameters, SHA-256 over JSON in the source.
--     The JSON of a stored result is a parameter too, the record `Json`, of which the theorems use that a
--     result is read back as it was written.
--   * In the worker's loop the origin answers each offer, and the two machines' tables are one state. The
--     loop has the source's own 32 rounds, one for each offer: the first offer finds out what the origin
--     expects, and 31 are left to catch up. All other recursion is on lists, and needs no fuel.
--
-- Not modelled: the columns that no operation here reads (times of creation and change, environments,
-- names of tasks), JSON and SQL text, the rest of the store, the daemon's actors and API but for that
-- loop, fleet, containers, cleanup of processes, the command line, installation and the web dashboard.
-- They are I/O or text handling around the parts above.
pub mod Base
pub mod Ids
pub mod Error
pub mod Domain
pub mod Store
pub mod Delivery
pub mod Dependency
pub mod Queue
