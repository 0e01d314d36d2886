-- ===== src/Queue/Classify.antt =====
-- How a run's end moves its job (src/queue/classify.rs).
use homebased.Base.{Bool, true, false, if◌then◌else◌, is_pos, not, Option, none, some}
use homebased.Domain.ProcessStatus
use homebased.Domain.ProcessStatus.{ProcessStatus}
use homebased.Domain.ExitReason.{ExitReason, exit, signal, spawn_failed}
use homebased.Queue.StopCause
use homebased.Queue.StopCause.{StopCause, yield, restart, user_cancel}

pub data RunEnd : Type 0 where
  exit_0 exit_75 cancelled other_failure lost : RunEnd

-- `YIELD_EXIT_CODE` is 75.
end_of_reason : ExitReason → RunEnd
end_of_reason (exit code) =
    if is_pos code 0 then exit_0 else if is_pos code 75 then exit_75 else other_failure
end_of_reason ExitReason.cancelled = RunEnd.cancelled
end_of_reason (signal _) = other_failure
end_of_reason (spawn_failed _) = other_failure

is_lost : ProcessStatus → Bool
is_lost ProcessStatus.lost = true
is_lost _ = false

unfoldable pub from_terminal : ProcessStatus → Option ExitReason → Option RunEnd
unfolding end_of_reason is_lost
from_terminal status reason =
    if is_lost status
    then some RunEnd.lost
    else if not (ProcessStatus.is_terminal status)
    then none
    else elim reason [ none ↦ none | some r ↦ some (end_of_reason r) ]

pub data RunOutcome : Type 0 where
  succeeded failed cancelled preempted lost : RunOutcome

unfoldable pub outcome_status : RunOutcome → ProcessStatus
outcome_status succeeded = ProcessStatus.succeeded
outcome_status failed = ProcessStatus.failed
outcome_status cancelled = ProcessStatus.cancelled
outcome_status preempted = ProcessStatus.preempted
outcome_status lost = ProcessStatus.lost

pub data JobTransition : Type 0 where
  succeeded next_step failed cancelled : JobTransition
  requeue : Bool → JobTransition

pub record Classification : Type 0 where
  pub outcome : RunOutcome
  pub job : JobTransition

cause_is : StopCause → Option StopCause → Bool
cause_is c none = false
cause_is c (some d) = StopCause.is d c

row : RunOutcome → JobTransition → Classification
row o j = record { outcome = o; job = j }

unfoldable pub classify : RunEnd → Option StopCause → Bool → Classification
unfolding cause_is row
classify exit_0 cause last_step =
    if last_step
    then row RunOutcome.succeeded JobTransition.succeeded
    else if cause_is user_cancel cause
    then row RunOutcome.succeeded JobTransition.cancelled
    else row RunOutcome.succeeded next_step
classify exit_75 cause last_step =
    if cause_is yield cause
    then row preempted (requeue true)
    else if cause_is user_cancel cause
    then row RunOutcome.cancelled JobTransition.cancelled
    else row RunOutcome.failed JobTransition.failed
classify RunEnd.cancelled cause last_step =
    if cause_is restart cause
    then row preempted (requeue false)
    else row RunOutcome.cancelled JobTransition.cancelled
classify other_failure cause last_step =
    if cause_is user_cancel cause
    then row RunOutcome.cancelled JobTransition.cancelled
    else row RunOutcome.failed JobTransition.failed
classify RunEnd.lost cause last_step =
    if cause_is user_cancel cause
    then row RunOutcome.lost JobTransition.cancelled
    else row RunOutcome.lost JobTransition.failed
