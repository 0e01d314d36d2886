-- ===== src/Store/Commit.antt =====
-- The commits of a run task's terminal state (src/store/queue/runs.rs): `commit_terminal`,
-- `commit_lost`, `abandon_launch` and `fail_job_launch`.
use homebased.Base.{
  Bool, true, false, ◌&&◌, any, Option, none, some, is_some, if◌then◌else◌, ◌==◌, Result, ok, err,
  ◌>>=◌, ◌>>◌, ensure, ok_or, String, str_eq,
}
use homebased.Ids.{TaskId, ThreadId, MachineId, JobId, ResourceId, Time}
use homebased.Error.{
  AppError, queue, invariant, corrupt, not_terminal, stale_run, not_launching, no_step,
}
use homebased.Domain.ProcessStatus
use homebased.Domain.ProcessStatus.{ProcessStatus}
use homebased.Domain.ExitReason
use homebased.Domain.ExitReason.{ExitReason, spawn_failed}
use homebased.Domain.Evidence.{TaskExitEvidence, no_child_spawned, of_process_group}
use homebased.Domain.TaskState
use homebased.Domain.TaskState.{TaskState}
use homebased.Domain.Transitions.{check_status_transition, to_app_error}
use homebased.Queue.Job.{is_last, get_step}
use homebased.Queue.Run.{
  ActiveRun, RunPhase, launching, executing, stopping, cleaning, attention, stop_cause,
}
use homebased.Queue.Classify.{
  RunEnd, RunOutcome, JobTransition, classify, from_terminal, outcome_status,
}
use homebased.Store.Types.{JobRecord, StoredTask, Tables, Tx}
use homebased.Store.Access.{update, require_run, require_machine_job, require_task}
use homebased.Store.Reserve.{reserve_run_inner}
use homebased.Store.Finish.{RunEndSource, task_end, launch_abandoned, finish_run, run_for_task}

unfoldable pub same_status : ProcessStatus → ProcessStatus → Bool
same_status a b = str_eq (ProcessStatus.as_str a) (ProcessStatus.as_str b)

unfoldable pub check_transition : ProcessStatus → ProcessStatus → Result (Unit {0}) AppError
unfolding check_status_transition to_app_error
check_transition from to = elim (check_status_transition from to) [
  | ok u ↦ ok u
  | err e ↦ err (to_app_error e)
]

-- The outcome of a run's end, and where its job goes.
unfoldable pub outcome_of :
    RunEndSource
    → ExitReason
    → ActiveRun
    → JobRecord
    → Result (RunOutcome × Option JobTransition) AppError
unfolding from_terminal classify is_last ExitReason.status
outcome_of launch_abandoned reason run j = ok (RunOutcome.failed, none)
outcome_of task_end reason run j = do
  let raw = ExitReason.status reason
  end ←
      ok_or (from_terminal raw (some reason))
        (queue (invariant (not_terminal (ProcessStatus.as_str raw))))
  let class = classify end (stop_cause run.phase) (is_last j.steps run.step)
  ok (class.outcome, some class.job)

unfoldable pub stored_reason : RunOutcome → ExitReason → ExitReason
stored_reason RunOutcome.cancelled reason = ExitReason.cancelled
stored_reason RunOutcome.succeeded reason = reason
stored_reason RunOutcome.failed reason = reason
stored_reason RunOutcome.preempted reason = reason
stored_reason RunOutcome.lost reason = reason

unfoldable pub coalesce : Option ThreadId → Option ThreadId → Option ThreadId
coalesce none old = old
coalesce (some t) old = some t

-- `UPDATE tasks … WHERE id = … AND status = …`: the tables, or none when no row changed.
unfoldable pub end_task :
    TaskId → ProcessStatus → (StoredTask → StoredTask) → Tables → Option Tables
unfolding same_status update
end_task task from change s =
    let hit : StoredTask → Bool = λ t. (t.id == task) && same_status t.status from in
    if any hit s.tasks then some (record s { tasks = update hit change s.tasks }) else none

-- What follows the update of the task: no row changed, or the run is finished and the task read back.
unfoldable pub finish_ended :
    ActiveRun
    → JobRecord
    → Option JobTransition
    → Option ExitReason
    → TaskId
    → Tables
    → Option Tables
    → Result (Option TaskState × Tables) AppError
unfolding finish_run require_task
finish_ended run j moved process task s none = ok (none, s)
finish_ended run j moved process task s (some t) = do
  t₂ ← finish_run run j moved process t
  row ← require_task t₂ task
  ok (some row, t₂)

-- `commit_terminal` once the task is known to have the status `from`.
unfoldable pub commit_from :
    TaskId
    → ProcessStatus
    → ExitReason
    → TaskExitEvidence
    → Option ThreadId
    → RunEndSource
    → Tx (Option TaskState)
unfolding run_for_task outcome_of check_transition stored_reason coalesce end_task finish_ended
    outcome_status
commit_from task from reason evidence worker_thread source s = do
  (run, j) ← run_for_task s task
  (outcome, moved) ← outcome_of source reason run j
  check_transition from (outcome_status outcome)
  let change : StoredTask → StoredTask = λ t. record t {
    status = outcome_status outcome;
    exit_reason = some (stored_reason outcome reason);
    evidence = evidence;
    worker_thread = coalesce worker_thread t.worker_thread;
  }
  finish_ended run j moved (some reason) task s (end_task task from change s)

-- `commit_terminal`. None when the task has moved on.
unfoldable pub commit_terminal :
    TaskId
    → ProcessStatus
    → ExitReason
    → TaskExitEvidence
    → Option ThreadId
    → RunEndSource
    → Tx (Option TaskState)
unfolding require_task same_status TaskState.status commit_from
commit_terminal task from reason evidence worker_thread source s = do
  current ← require_task s task
  if same_status (TaskState.status current) from
      then commit_from task from reason evidence worker_thread source s
      else ok (none, s)

-- `commit_lost`.
unfoldable pub commit_lost : TaskId → ProcessStatus → Option ThreadId → Tx (Option TaskState)
unfolding check_transition run_for_task coalesce end_task classify is_last finish_ended
commit_lost task from worker_thread s = do
  check_transition from ProcessStatus.lost
  (run, j) ← run_for_task s task
  let change : StoredTask → StoredTask = λ t. record t {
    status = ProcessStatus.lost;
    worker_thread = coalesce worker_thread t.worker_thread;
  }
  let class = classify RunEnd.lost (stop_cause run.phase) (is_last j.steps run.step)
  finish_ended run j (some class.job) none task s (end_task task from change s)

abbrev pub is_launching : RunPhase → Bool
is_launching (launching _) = true
is_launching (executing _) = false
is_launching (stopping _ _ _) = false
is_launching (cleaning _) = false
is_launching (attention _ _) = false

-- The body of `abandon_launch`.
unfoldable pub abandon_launch : ResourceId → TaskId → Tx Bool
unfolding require_run commit_terminal of_process_group
abandon_launch id task s = do
  run ← require_run s id task
  ensure (is_launching run.phase) (queue (stale_run id not_launching))
  (row, t) ←
      commit_terminal task ProcessStatus.queued
        (spawn_failed "the worker did not confirm the launch in time")
        (of_process_group no_child_spawned) none launch_abandoned s
  ok (is_some row, t)

-- The body of `fail_job_launch`; the program of the step goes to no one.
unfoldable pub fail_job_launch :
    MachineId → JobId → ResourceId → TaskId → String → Time → Tx (Unit {0})
unfolding require_machine_job get_step reserve_run_inner commit_terminal of_process_group
fail_job_launch machine id holder task message now s = do
  j ← require_machine_job s machine id
  step ← ok_or (get_step j.steps j.step) (queue (corrupt (no_step id j.step)))
  (_, t) ← reserve_run_inner machine id holder task now s
  (_, t₂) ←
      commit_terminal task ProcessStatus.queued (spawn_failed message)
        (of_process_group no_child_spawned) none task_end t
  ok (tt, t₂)
