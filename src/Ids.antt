-- ===== src/Ids.antt =====
-- Identities, points in time and spans. A UUID (domain.rs, queue.rs, machine.rs) is the number that
-- its 128 bits spell; a `DateTime<Utc>` counts nanoseconds from chrono's earliest time, and a
-- `Duration` counts nanoseconds.
use homebased.Base.{ℕ}

abbrev pub TaskId : Type 0
TaskId = ℕ

abbrev pub ThreadId : Type 0
ThreadId = ℕ

abbrev pub MachineId : Type 0
MachineId = ℕ

abbrev pub JobId : Type 0
JobId = ℕ

abbrev pub ResourceId : Type 0
ResourceId = ℕ

abbrev pub OperationId : Type 0
OperationId = ℕ

abbrev pub AttentionId : Type 0
AttentionId = ℕ

abbrev pub Time : Type 0
Time = ℕ

abbrev pub Span : Type 0
Span = ℕ
