-- ===== src/Store/Cancel.antt =====
-- A person's cancel of a job (src/store/queue/jobs.rs): `apply_cancel` and `end_job`.
use homebased.Base.{◌==◌, String, none, Result, ok, ◌>>=◌, ◌>>◌, ensure}
use homebased.Ids.{TaskId, MachineId, JobId, ResourceId, Time}
use homebased.Error.{AppError, queue, invariant, cannot_end_as}
use homebased.Queue.StopCause.{user_cancel}
use homebased.Queue.Job.{
  JobState, queued, active, succeeded, failed, cancelled, is_terminal, state_as_str,
}
use homebased.Store.Types.{JobRecord, job_cancelled, Tables, Tx}
use homebased.Store.Access.{update, require_machine_job}
use homebased.Store.Levels.{renumber_level}
use homebased.Store.Events.{append_job_event}
use homebased.Store.Requests.{request_stop}

pub data CancelResult : Type 0 where
  cancelled_at_once : CancelResult
  stopping_run : ResourceId → TaskId → CancelResult
  already_terminal : String → CancelResult

-- `end_job`: take a job out of the queue with a terminal state, and close the gap.
unfoldable pub end_job : JobRecord → JobState → Tables → Result Tables AppError
unfolding update renumber_level
end_job j state s = do
  ensure (is_terminal state) (queue (invariant (cannot_end_as j.id (state_as_str state))))
  renumber_level j.machine j.priority (record s {
    jobs = update (λ k. k.id == j.id) (λ k. record k { state = state; position = none }) s.jobs;
  })

unfoldable pub cancel_in : JobRecord → JobState → Time → Tx CancelResult
unfolding end_job append_job_event request_stop
cancel_in j succeeded now s = ok (already_terminal "succeeded", s)
cancel_in j (failed run) now s = ok (already_terminal "failed", s)
cancel_in j cancelled now s = ok (already_terminal "cancelled", s)
cancel_in j (queued resume) now s = do
  t ← end_job j cancelled s
  (_, u) ← append_job_event j.id job_cancelled none none none t
  ok (cancelled_at_once, u)
cancel_in j (active at) now s = do
  (run, t) ← request_stop at none user_cancel now s
  ok (stopping_run at run.task, t)

unfoldable pub apply_cancel : MachineId → JobId → Time → Tx CancelResult
unfolding require_machine_job cancel_in
apply_cancel machine id now s = do j ← require_machine_job s machine id; cancel_in j j.state now s
