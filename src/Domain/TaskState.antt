-- ===== src/Domain/TaskState.antt =====
-- `TaskState` of src/domain.rs: a task's state as read from its stored columns.
use homebased.Base.{Bool, true, false, str_append, Option, none, some, Result, ok, err, ℤ}
use homebased.Error.{AppError, internal}
use homebased.Domain.ProcessStatus
use homebased.Domain.ProcessStatus.{ProcessStatus}
use homebased.Domain.ExitReason
use homebased.Domain.ExitReason.{ExitReason}

pub data TaskState : Type 0 where
  queued : TaskState
  running : Option ℤ → TaskState
  finished : ExitReason → TaskState
  lost : TaskState
  preempted : ExitReason → TaskState

missing_reason : ProcessStatus → Result TaskState AppError
missing_reason s = err (
    internal
      (str_append "task row is " (str_append (ProcessStatus.as_str s) " with no exit_reason")))

unfoldable pub from_storage :
    ProcessStatus → Option ExitReason → Option ℤ → Result TaskState AppError
unfolding missing_reason
from_storage ProcessStatus.queued _ pid = ok queued
from_storage ProcessStatus.running _ pid = ok (running pid)
from_storage ProcessStatus.lost _ pid = ok lost
from_storage ProcessStatus.preempted (some reason) pid = ok (preempted reason)
from_storage ProcessStatus.succeeded (some reason) pid = ok (finished reason)
from_storage ProcessStatus.failed (some reason) pid = ok (finished reason)
from_storage ProcessStatus.cancelled (some reason) pid = ok (finished reason)
from_storage s none pid = missing_reason s

unfoldable pub status : TaskState → ProcessStatus
status queued = ProcessStatus.queued
status (running _) = ProcessStatus.running
status (finished reason) = ExitReason.status reason
status lost = ProcessStatus.lost
status (preempted _) = ProcessStatus.preempted

unfoldable pub exit_reason : TaskState → Option ExitReason
exit_reason (finished reason) = some reason
exit_reason (preempted reason) = some reason
exit_reason queued = none
exit_reason (running _) = none
exit_reason lost = none

unfoldable pub pid : TaskState → Option ℤ
pid (running p) = p
pid queued = none
pid (finished _) = none
pid lost = none
pid (preempted _) = none

unfoldable pub is_terminal : TaskState → Bool
is_terminal (finished _) = true
is_terminal lost = true
is_terminal (preempted _) = true
is_terminal queued = false
is_terminal (running _) = false
