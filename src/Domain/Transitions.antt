-- ===== src/Domain/Transitions.antt =====
-- Status transitions of src/domain.rs: `check_status_transition` and `check_report_allowed`.
use homebased.Base.{Bool, true, false, ◌&&◌, if◌then◌else◌, Result, ok, err, str_append}
use homebased.Error.{AppError, internal}
use homebased.Domain.ProcessStatus
use homebased.Domain.ProcessStatus.{
  ProcessStatus, queued, running, succeeded, failed, cancelled, lost, preempted,
}

pub data TransitionError : Type 0 where
  lost_to_running : TransitionError
  report_on_terminal : ProcessStatus → TransitionError
  illegal_status : ProcessStatus → ProcessStatus → TransitionError

-- The `matches!` of `check_status_transition`.
allowed : ProcessStatus → ProcessStatus → Bool
allowed queued running = true
allowed queued failed = true
allowed queued cancelled = true
allowed queued lost = true
allowed running succeeded = true
allowed running failed = true
allowed running cancelled = true
allowed running lost = true
allowed running preempted = true
allowed _ _ = false

is_lost : ProcessStatus → Bool
is_lost lost = true
is_lost _ = false

is_running : ProcessStatus → Bool
is_running running = true
is_running _ = false

unfoldable pub check_status_transition :
    ProcessStatus → ProcessStatus → Result (Unit {0}) TransitionError
unfolding allowed is_lost is_running
check_status_transition from to =
    if is_lost from && is_running to
    then err lost_to_running
    else if allowed from to
    then ok tt
    else err (illegal_status from to)

unfoldable pub check_report_allowed : ProcessStatus → Result (Unit {0}) TransitionError
check_report_allowed status =
    if ProcessStatus.is_terminal status then err (report_on_terminal status) else ok tt

-- `From<TransitionError> for AppError`, with the text of each error.
unfoldable pub to_app_error : TransitionError → AppError
to_app_error lost_to_running = internal "cannot move Lost to Running"
to_app_error (report_on_terminal status) =
    internal
      (str_append "cannot report on terminal task (" (str_append (ProcessStatus.as_str status) ")"))
to_app_error (illegal_status from to) = internal (
    str_append "illegal status transition "
      (str_append (ProcessStatus.as_str from) (str_append " -> " (ProcessStatus.as_str to))))
