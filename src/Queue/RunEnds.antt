-- ===== src/Queue/RunEnds.antt =====
-- What the table of src/queue/classify.rs does to a job, over all ends, causes and steps.
use homebased.Base.{◌≡◌, ◌≢◌, ◌⊎◌, ◌↔◌, Bool, true, false, Option, none, some, arith, ok, pos}
use homebased.Domain.ProcessStatus
use homebased.Domain.ProcessStatus.{ProcessStatus}
use homebased.Domain.ExitReason.{ExitReason, exit}
use homebased.Domain.Transitions.{check_status_transition}
use homebased.Queue.StopCause.{StopCause, yield, restart, user_cancel}
use homebased.Queue.Classify.{
  RunEnd, exit_0, exit_75, from_terminal, RunOutcome, outcome_status, JobTransition, next_step,
  requeue, classify,
}

-- A run sends its job back to the queue for the same step in two cases only: it exited with code 75
-- after a yield was asked for, and then the next run resumes; or it was cancelled by a restart, and
-- then the next run starts the step anew. The two are also the only runs recorded as preempted.
pub classify-requeue :
    (end : RunEnd) (cause : Option StopCause) (last_step resume : Bool)
    → (((classify end cause last_step).job ≡ requeue resume) ↔ (
        ((end ≡ exit_75) × (cause ≡ some yield) × (resume ≡ true))
        ⊎ ((end ≡ RunEnd.cancelled) × (cause ≡ some restart) × (resume ≡ false))))
      × (((classify end cause last_step).outcome ≡ RunOutcome.preempted) ↔ (
          ((end ≡ exit_75) × (cause ≡ some yield))
          ⊎ ((end ≡ RunEnd.cancelled) × (cause ≡ some restart))))
unfolding classify
classify-requeue end cause last_step resume = (ground arith, ground arith)

-- Whatever ended a running task, the status that its task takes is one that a running task may take;
-- and it is terminal, so that no run ends twice.
pub classify-transition :
    (end : RunEnd) (cause : Option StopCause) (last_step : Bool)
    → (check_status_transition ProcessStatus.running
          (outcome_status (classify end cause last_step).outcome)
        ≡ ok tt)
      × (ProcessStatus.is_terminal (outcome_status (classify end cause last_step).outcome) ≡ true)
unfolding classify outcome_status check_status_transition
classify-transition end cause last_step = ground arith

-- Once a person cancelled the job, it ends: if its run exited with code 0 on the last step, that success
-- stands; and if anything else ended the run, or the step was not the last, the job is cancelled.
pub classify-user_cancel :
    (end : RunEnd) (last_step : Bool)
    → (((end ≡ exit_0) × (last_step ≡ true))
        → (classify end (some user_cancel) last_step).job ≡ JobTransition.succeeded)
      × (((end ≢ exit_0) ⊎ (last_step ≡ false))
          → (classify end (some user_cancel) last_step).job ≡ JobTransition.cancelled)
unfolding classify
classify-user_cancel end last_step = (λ h. ground arith, λ h. ground arith)

-- A job moves on to its next step, or succeeds, only after a run that exited with code 0, and it
-- succeeds exactly on its last step.
pub classify-progress :
    (end : RunEnd) (cause : Option StopCause) (last_step : Bool)
    → (((classify end cause last_step).job ≡ next_step)
        → (end ≡ exit_0) × (last_step ≡ false) × (cause ≢ some user_cancel))
      × (((classify end cause last_step).job ≡ JobTransition.succeeded)
          ↔ ((end ≡ exit_0) × (last_step ≡ true)))
unfolding classify
classify-progress end cause last_step = ground arith

-- Terminal, and not lost.
abbrev pub IsEnded : ProcessStatus → Type 0
IsEnded status = (ProcessStatus.is_terminal status ≡ true) × (status ≢ ProcessStatus.lost)

-- A status and an exit reason name an end exactly if the status is terminal and, unless it is `lost`, a
-- reason is there. A lost task is the end `lost`. Any other terminal one is classified by its reason
-- alone: exit codes 0 and 75 and a cancellation are told apart, and all else is one other failure.
pub from_terminal-reason :
    (status : ProcessStatus) (reason : Option ExitReason)
    → ((from_terminal status reason ≡ none) ↔ (
        (ProcessStatus.is_terminal status ≡ false)
        ⊎ ((status ≢ ProcessStatus.lost) × (reason ≡ none))))
      × ((from_terminal status reason ≡ some RunEnd.lost) ↔ (status ≡ ProcessStatus.lost))
      × ((from_terminal status reason ≡ some exit_0)
          ↔ (IsEnded status × (reason ≡ some (exit (pos 0)))))
      × ((from_terminal status reason ≡ some exit_75)
          ↔ (IsEnded status × (reason ≡ some (exit (pos 75)))))
      × ((from_terminal status reason ≡ some RunEnd.cancelled)
          ↔ (IsEnded status × (reason ≡ some ExitReason.cancelled)))
unfolding from_terminal
from_terminal-reason status reason =
    (ground arith, ground arith, ground arith, ground arith, ground arith)
