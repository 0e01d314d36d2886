-- ===== src/Domain/Evidence.antt =====
-- Evidence that the work of a task stopped (src/domain.rs). A container id is the text of its 64
-- hexadecimal digits.
use homebased.Base.{
  Bool, true, false, String, str_eq, str_append, if◌then◌else◌, Result, ok, err, ℤ,
}
use homebased.Error.{AppError, internal}
use homebased.Domain.TaskState.{TaskState, queued, running, finished, lost, preempted}

pub data ProcessGroupExitEvidence : Type 0 where
  unconfirmed confirmed_exited no_child_spawned : ProcessGroupExitEvidence

unfoldable pub as_str : ProcessGroupExitEvidence → String
as_str unconfirmed = "unconfirmed"
as_str confirmed_exited = "confirmed_exited"
as_str no_child_spawned = "no_child_spawned"

unfoldable pub from_storage : String → Result ProcessGroupExitEvidence AppError
from_storage value =
    if str_eq value "unconfirmed"
    then ok unconfirmed
    else if str_eq value "confirmed_exited"
    then ok confirmed_exited
    else if str_eq value "no_child_spawned"
    then ok no_child_spawned
    else err (internal (str_append "unknown process-group exit evidence: " value))

pub data ContainerExitEvidence : Type 0 where
  unconfirmed never_started : ContainerExitEvidence
  confirmed : String → ℤ → ContainerExitEvidence

pub record TaskExitEvidence : Type 0 where
  pub process_group : ProcessGroupExitEvidence
  pub container : ContainerExitEvidence

-- `From<ProcessGroupExitEvidence> for TaskExitEvidence`.
unfoldable pub of_process_group : ProcessGroupExitEvidence → TaskExitEvidence
of_process_group e = record { process_group = e; container = ContainerExitEvidence.unconfirmed }

pub data WorkExitEvidence : Type 0 where
  unconfirmed no_work_started process_group_exited : WorkExitEvidence
  container_removed : String → ℤ → WorkExitEvidence

-- `TaskRow` as far as its evidence reads it; `in_container` says that its workload is a container.
pub record TaskRow : Type 0 where
  pub state : TaskState
  pub in_container : Bool
  pub process_group_exit_evidence : ProcessGroupExitEvidence
  pub container_exit_evidence : ContainerExitEvidence

-- `TaskRow::process_group_exit_evidence`.
reported_process_group : TaskState → ProcessGroupExitEvidence → ProcessGroupExitEvidence
reported_process_group (finished _) e = e
reported_process_group (preempted _) e = e
reported_process_group queued e = ProcessGroupExitEvidence.unconfirmed
reported_process_group (running _) e = ProcessGroupExitEvidence.unconfirmed
reported_process_group lost e = ProcessGroupExitEvidence.unconfirmed

unfoldable pub process_group_exit_evidence : TaskRow → ProcessGroupExitEvidence
unfolding reported_process_group
process_group_exit_evidence row = reported_process_group row.state row.process_group_exit_evidence

container_work : ContainerExitEvidence → WorkExitEvidence
container_work ContainerExitEvidence.unconfirmed = WorkExitEvidence.unconfirmed
container_work ContainerExitEvidence.never_started = no_work_started
container_work (confirmed id code) = container_removed id code

ended_work : Bool → ProcessGroupExitEvidence → ContainerExitEvidence → WorkExitEvidence
ended_work in_container no_child_spawned container = no_work_started
ended_work true _ container = container_work container
ended_work false confirmed_exited container = process_group_exited
ended_work false ProcessGroupExitEvidence.unconfirmed container = WorkExitEvidence.unconfirmed

unfoldable pub work_exit_evidence : TaskRow → WorkExitEvidence
unfolding container_work ended_work
work_exit_evidence row = elim row.state [
  | finished _ ↦
      ended_work row.in_container row.process_group_exit_evidence row.container_exit_evidence
  | preempted _ ↦
      ended_work row.in_container row.process_group_exit_evidence row.container_exit_evidence
  | _ ↦ WorkExitEvidence.unconfirmed
]
