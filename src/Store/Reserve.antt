-- ===== src/Store/Reserve.antt =====
-- Reserving a run (src/store/queue/runs.rs): `reserve_run_inner`.
use homebased.Base.{
  Bool, [], ◌∷◌, ◌++◌, any, none, some, if◌then◌else◌, ◌==◌, Result, ok, err, ◌>>=◌, ◌>>◌, ensure,
  ok_or,
}
use homebased.Ids.{TaskId, MachineId, JobId, ResourceId, Time}
use homebased.Error.{
  AppError, queue, constraint, invariant, corrupt, not_queued, resource_not_found, resource_busy,
  pinned_elsewhere, job_busy, no_step, run_count_limit,
}
use homebased.Domain.ProcessStatus.{ProcessStatus}
use homebased.Domain.Evidence.{ProcessGroupExitEvidence, of_process_group}
use homebased.Queue.Job.{
  JobState, queued, active, succeeded, failed, cancelled, allows, get_step, checked_next,
  run_number, RunNumber,
}
use homebased.Queue.Run.{ActiveRun, launching, phase_as_str}
use homebased.Store.Types.{ResourceRecord, JobRecord, StoredTask, RunHistory, Tables, Tx}
use homebased.Store.Access.{
  update, require_resource, require_machine_job, run_of_job, write_run, immediate,
}

-- The resume flag of a queued job.
unfoldable pub queued_resume : JobId → JobState → Result Bool AppError
queued_resume id (queued resume) = ok resume
queued_resume id (active r) = err (queue (invariant (not_queued id "active")))
queued_resume id succeeded = err (queue (invariant (not_queued id "succeeded")))
queued_resume id (failed t) = err (queue (invariant (not_queued id "failed")))
queued_resume id cancelled = err (queue (invariant (not_queued id "cancelled")))

unfoldable pub idle : ResourceRecord → Result (Unit {0}) AppError
idle holder = elim holder.run [
  | none ↦ ok tt
  | some run ↦ err (queue (invariant (resource_busy holder.id run.job (phase_as_str run.phase))))
]

unfoldable pub free_of_runs : Tables → JobId → Result (Unit {0}) AppError
unfolding run_of_job
free_of_runs s id = elim (run_of_job s id) [
  | none ↦ ok tt
  | some other ↦ err (queue (invariant (job_busy id other.resource (phase_as_str other.phase))))
]

-- `checked_add(1)`, and then `RunNumber::new`.
unfoldable pub attempt_number : JobRecord → Result RunNumber AppError
unfolding run_number
attempt_number j = do
  n ← ok_or (checked_next j.runs) (queue (invariant (run_count_limit j.id)))
  elim (run_number n) [ ok k ↦ ok k | err e ↦ err (queue e) ]

-- `new_queued_task` and `insert_accepted_task_on`, then the link to the job. The id is a primary key.
unfoldable pub insert_run_task : TaskId → JobRecord → RunNumber → Tables → Result Tables AppError
unfolding of_process_group
insert_run_task task j n s =
    if any (λ t. t.id == task) s.tasks
    then err constraint
    else (let row : StoredTask = record {
      id = task;
      thread = j.thread;
      status = ProcessStatus.queued;
      exit_reason = none;
      evidence = of_process_group ProcessGroupExitEvidence.unconfirmed;
      worker_thread = none;
      resource_job = some j.id;
      run_number = some n;
      step_index = some j.step;
    } in
        ok (record s { tasks = s.tasks ++ (row ∷ []) }))

-- The job takes the run.
unfoldable pub activate : JobId → ResourceId → RunNumber → Tables → Tables
unfolding update
activate id holder n s = record s {
  jobs = update (λ j. j.id == id) (λ j. record j { state = active holder; runs = n }) s.jobs;
}

unfoldable pub start_history : TaskId → ResourceId → Tables → Tables
start_history task id s =
    let row : RunHistory = record {
      task = task;
      resource = id;
      stop_cause = none;
      cleanup = none;
    } in
    record s { history = s.history ++ (row ∷ []) }

-- `reserve_run_inner`.
unfoldable pub reserve_run_inner : MachineId → JobId → ResourceId → TaskId → Time → Tx ActiveRun
unfolding require_machine_job queued_resume require_resource idle free_of_runs get_step
    attempt_number insert_run_task activate start_history write_run
reserve_run_inner machine id holder_id task now s = do
  j ← require_machine_job s machine id
  resume ← queued_resume id j.state
  holder ← require_resource s holder_id
  ensure (holder.machine == machine) (queue (resource_not_found holder_id))
  idle holder
  ensure (allows j.target holder_id) (queue (invariant (pinned_elsewhere id)))
  free_of_runs s id
  step ← ok_or (get_step j.steps j.step) (queue (corrupt (no_step id j.step)))
  n ← attempt_number j
  t ← insert_run_task task j n s
  let run : ActiveRun = record {
    resource = holder_id;
    job = id;
    task = task;
    run_number = n;
    step = j.step;
    resume = resume;
    phase = launching now;
  }
  write_run run (start_history task holder_id (activate id holder_id n t))

-- `reserve_run`.
unfoldable pub reserve_run :
    MachineId → JobId → ResourceId → TaskId → Time → Tables → Result ActiveRun AppError × Tables
unfolding immediate reserve_run_inner
reserve_run machine id holder_id task now s =
    immediate (reserve_run_inner machine id holder_id task now) s
