-- ===== src/Store/CommitReads.antt =====
-- What the commit of a run task's end writes, and how it is read back (src/store/queue/runs.rs).
use homebased.Base.{◌≡◌, ◌≢◌, Bool, true, Option, none, some, arith, ok, >>=-ok, ok_or, subst}
use homebased.Domain.ExitReason
use homebased.Domain.ExitReason.{ExitReason, exit, signal, spawn_failed}
use homebased.Domain.TaskState
use homebased.Domain.TaskState.{TaskState}
use homebased.Queue.Job.{is_last}
use homebased.Queue.StopCause.{StopCause}
use homebased.Queue.Run.{ActiveRun, stop_cause}
use homebased.Queue.Classify.{
  RunEnd, RunOutcome, JobTransition, classify, from_terminal, outcome_status,
}
use homebased.Store.Types.{JobRecord}
use homebased.Store.Finish.{task_end}
use homebased.Store.Commit.{outcome_of, stored_reason}
use homebased.Store.Steps.{ok_or-ok}

-- The stored state of an outcome.
abbrev state_of : RunOutcome → ExitReason → TaskState
state_of RunOutcome.preempted reason = TaskState.preempted reason
state_of RunOutcome.succeeded reason = TaskState.finished reason
state_of RunOutcome.failed reason = TaskState.finished reason
state_of RunOutcome.cancelled reason = TaskState.finished ExitReason.cancelled
state_of RunOutcome.lost reason = TaskState.lost

-- A terminal state with the status of an outcome, and the exit reason that is kept of it: that of the
-- run, save that a cancelled run has the reason `cancelled`.
pub record IsStored (state : TaskState) (outcome : RunOutcome) (reason : ExitReason) : Type 0 where
  pub terminal : TaskState.is_terminal state ≡ true
  pub status : TaskState.status state ≡ outcome_status outcome
  pub cancelled :
      outcome ≡ RunOutcome.cancelled → TaskState.exit_reason state ≡ some ExitReason.cancelled
  pub real : outcome ≢ RunOutcome.cancelled → TaskState.exit_reason state ≡ some reason

class_reads :
    (reason : ExitReason) (end : RunEnd) (cause : Option StopCause) (last_step : Bool)
    → from_terminal (ExitReason.status reason) (some reason) ≡ some end
    → (TaskState.from_storage
          (outcome_status (classify end cause last_step).outcome)
          (some (stored_reason (classify end cause last_step).outcome reason))
          none
        ≡ ok (state_of (classify end cause last_step).outcome reason))
      × IsStored
          (state_of (classify end cause last_step).outcome reason)
          (classify end cause last_step).outcome
          reason
unfolding from_terminal ExitReason.status classify outcome_status TaskState.from_storage
    TaskState.status TaskState.exit_reason TaskState.is_terminal stored_reason
class_reads reason end cause last_step h = ground arith

-- When the worker, the task layer or a cancel ends a task, the status and the exit reason that the
-- commit stores for the outcome are read back as a terminal state with that same status. A cancelled run
-- has the reason `cancelled`, and every other one, a preempted one too, keeps the reason that ended it.
pub outcome_of-reads_back :
    (reason : ExitReason) (run : ActiveRun) (j : JobRecord) (outcome : RunOutcome)
    (moved : Option JobTransition)
    → outcome_of task_end reason run j ≡ ok (outcome, moved)
    → (state : TaskState) × (TaskState.from_storage
          (outcome_status outcome)
          (some (stored_reason outcome reason))
          none
        ≡ ok state)
      × IsStored state outcome reason
unfolding outcome_of
outcome_of-reads_back reason run j outcome moved h =
    let (end, h₁, named) =
      >>=-ok _ (ok_or (from_terminal (ExitReason.status reason) (some reason)) _) h in
    let cause = stop_cause run.phase in
    let last_step = is_last j.steps run.step in
    let e : (classify end cause last_step).outcome ≡ outcome = ground arith in
    let (stored, status) = class_reads reason end cause last_step (ok_or-ok _ _ named) in
    (
      state_of outcome reason,
      subst
          (λ o.
            TaskState.from_storage (outcome_status o) (some (stored_reason o reason)) none
            ≡ ok (state_of o reason))
          e stored,
      subst (λ o. IsStored (state_of o reason) o reason) e status,
    )
