-- ===== src/Store/Requests.antt =====
-- What the actor writes to a run that has not ended (src/store/queue/runs.rs): its start, and the
-- stops that are asked of it.
use homebased.Base.{Option, none, some, if◌then◌else◌, ◌==◌, Result, ok, ◌>>=◌, ok_or}
use homebased.Ids.{TaskId, ResourceId, Time}
use homebased.Error.{AppError, queue, stale_run, no_active_run, not_executing, run_ended}
use homebased.Queue.StopCause
use homebased.Queue.StopCause.{StopCause, user_cancel, upgrade}
use homebased.Queue.Run.{
  ActiveRun, RunPhase, launching, executing, stopping, cleaning, attention, stop_cause,
}
use homebased.Store.Types.{Tables, Tx}
use homebased.Store.Access.{update, stale, require_resource, require_run, write_run, immediate}

unfoldable pub started : ResourceId → Time → RunPhase → Result RunPhase AppError
unfolding stale
started id at (launching _) = ok (executing at)
started id at (stopping none cause requested_at) = ok (stopping (some at) cause requested_at)
started id at (executing first) = ok (executing first)
started id at (stopping (some first) cause requested_at) =
    ok (stopping (some first) cause requested_at)
started id at (cleaning _) = stale id run_ended
started id at (attention _ _) = stale id run_ended

-- The body of `mark_run_executing`.
unfoldable pub mark_run_executing : ResourceId → TaskId → Time → Tx ActiveRun
unfolding require_run started write_run
mark_run_executing id task at s = do
  run ← require_run s id task
  phase ← started id at run.phase
  write_run (record run { phase = phase }) s

-- The phase that a stop leads to.
unfoldable pub stopped : ResourceId → StopCause → Time → RunPhase → Result RunPhase AppError
unfolding stale upgrade
stopped id cause now (launching _) =
    if StopCause.is cause user_cancel then ok (stopping none cause now) else stale id not_executing
stopped id cause now (executing at) = ok (stopping (some at) cause now)
stopped id cause now (stopping at earlier requested_at) =
    ok (stopping at (upgrade earlier cause) requested_at)
stopped id cause now (cleaning _) = stale id run_ended
stopped id cause now (attention _ _) = stale id run_ended

unfoldable pub the_run : Tables → ResourceId → Option TaskId → Result ActiveRun AppError
unfolding require_run require_resource
the_run s id (some task) = require_run s id task
the_run s id none = do
  holder ← require_resource s id
  ok_or holder.run (queue (stale_run id no_active_run))

unfoldable pub record_stop : TaskId → Option StopCause → Tables → Tables
unfolding update
record_stop task cause s = record s {
  history = update (λ h. h.task == task) (λ h. record h { stop_cause = cause }) s.history;
}

unfoldable pub request_stop : ResourceId → Option TaskId → StopCause → Time → Tx ActiveRun
unfolding the_run stopped record_stop write_run
request_stop id task cause now s = do
  run ← the_run s id task
  phase ← stopped id cause now run.phase
  write_run (record run { phase = phase }) (record_stop run.task (stop_cause phase) s)

-- `commit_stop`.
unfoldable pub commit_stop :
    ResourceId → TaskId → StopCause → Time → Tables → Result ActiveRun AppError × Tables
unfolding immediate request_stop
commit_stop id task cause now s = immediate (request_stop id (some task) cause now) s
