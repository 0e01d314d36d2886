-- ===== src/Store/Finish.antt =====
-- The end of a run (src/store/queue/runs.rs): the commit of its task's terminal state, and what it does
-- to the job and the resource.
use homebased.Base.{
  false, find, map_or, Option, none, some, if◌then◌else◌, ◌==◌, Result, ok, ◌>>=◌, ◌>>◌, ensure,
  ok_or,
}
use homebased.Ids.{TaskId, JobId}
use homebased.Error.{AppError, queue, invariant, no_active_run_of, run_ended, stale_run}
use homebased.Domain.ExitReason.{ExitReason}
use homebased.Queue.Job.{JobState, StepIndex, next_step, is_terminal}
use homebased.Queue.Run.{ActiveRun, cleaning, holds_job}
use homebased.Queue.Classify.{JobTransition, requeue}
use homebased.Store.Types.{
  JobRecord, JobEventKind, job_succeeded, job_failed, job_cancelled, job_preempted, Tables,
}
use homebased.Store.Access.{update, stale, require_run, require_job, write_run}
use homebased.Store.Events.{append_job_event, event_run}
use homebased.Store.Levels.{renumber_level}

pub data RunEndSource : Type 0 where
  task_end launch_abandoned : RunEndSource

pub record JobAfterRun : Type 0 where
  pub state : JobState
  pub step : StepIndex
  pub event : Option JobEventKind

-- The `match` of `finish_run`, with `JobAfterRun::queued` and `JobAfterRun::ended`.
unfoldable pub after_run : ActiveRun → Option JobTransition → JobAfterRun
unfolding next_step
after_run run none = record { state = JobState.queued run.resume; step = run.step; event = none }
after_run run (some JobTransition.next_step) = record {
  state = JobState.queued false;
  step = next_step run.step;
  event = none;
}
after_run run (some (requeue resume)) = record {
  state = JobState.queued resume;
  step = run.step;
  event = some job_preempted;
}
after_run run (some JobTransition.succeeded) = record {
  state = JobState.succeeded;
  step = run.step;
  event = some job_succeeded;
}
after_run run (some JobTransition.failed) = record {
  state = JobState.failed run.task;
  step = run.step;
  event = some job_failed;
}
after_run run (some JobTransition.cancelled) = record {
  state = JobState.cancelled;
  step = run.step;
  event = some job_cancelled;
}

unfoldable pub leave_run : JobId → JobAfterRun → Tables → Tables
unfolding update
leave_run id after s = record s {
  jobs =
      update (λ j. j.id == id)
        (λ j. record j {
          state = after.state;
          step = after.step;
          position = if is_terminal after.state then none else j.position;
        })
        s.jobs;
}

unfoldable pub end_event :
    ActiveRun → JobId → Option JobEventKind → Option ExitReason → Tables → Result Tables AppError
unfolding append_job_event event_run
end_event run id none process s = ok s
end_event run id (some kind) process s = do
  (_, t) ← append_job_event id kind (some (event_run run)) process none s
  ok t

-- `finish_run`: move the job, close the gap that it leaves, set the run `Cleaning`, tell of the end.
unfoldable pub finish_run :
    ActiveRun
    → JobRecord
    → Option JobTransition
    → Option ExitReason
    → Tables
    → Result Tables AppError
unfolding after_run leave_run renumber_level write_run end_event
finish_run run j transition process s =
    let after = after_run run transition in
    let t = leave_run j.id after s in
    do
      t₂ ← if is_terminal after.state then renumber_level j.machine j.priority t else ok t
      (_, t₃) ← write_run (record run { phase = cleaning 1 }) t₂
      end_event run j.id after.event process t₃

-- `run_for_task`: the run of a task that has not ended, and its job.
unfoldable pub run_for_task : Tables → TaskId → Result (ActiveRun × JobRecord) AppError
unfolding require_run require_job stale
run_for_task s task = do
  holder ←
      ok_or (find (λ r. map_or r.run false (λ run. run.task == task)) s.resources)
        (queue (invariant (no_active_run_of task)))
  run ← require_run s holder.id task
  ensure (holds_job run.phase) (queue (stale_run holder.id run_ended))
  j ← require_job s run.job
  ok (run, j)
