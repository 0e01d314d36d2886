-- ===== src/Store/Access.antt =====
-- Reads and single updates of the tables (src/store/queue/runs.rs, src/store/queue/jobs.rs,
-- src/store/queue/resources.rs, src/store.rs).
use homebased.Base.{
  Bool, false, List, map, find, Option, none, some, Result, ok, err, ◌>>=◌, ◌>>◌, ensure, ok_or,
  if◌then◌else◌, ◌==◌, map_or,
}
use homebased.Ids.{TaskId, MachineId, JobId, ResourceId}
use homebased.Error.{
  AppError, queue, task_not_found, Diagnostic, stale_run, job_not_found, resource_not_found,
  no_active_run, other_run,
}
use homebased.Domain.TaskState
use homebased.Domain.TaskState.{TaskState}
use homebased.Queue.Run.{ActiveRun}
use homebased.Store.Types.{ResourceRecord, JobRecord, Tables, Tx}

-- `Store::immediate`: the body's tables are committed when it returns a value, and dropped when it
-- returns an error.
unfoldable pub immediate :
    {A S : Type 0} → (S → Result (A × S) AppError) → S → Result A AppError × S
immediate body s = elim (body s) [ ok (a, t) ↦ (ok a, t) | err e ↦ (err e, s) ]

-- `UPDATE … WHERE …`.
unfoldable pub update : {A : Type 0} → (A → Bool) → (A → A) → List A → List A
update p f xs = map (λ x. if p x then f x else x) xs

unfoldable pub stale : {A : Type 0} → ResourceId → Diagnostic → Result A AppError
stale resource message = err (queue (stale_run resource message))

unfoldable pub resource : Tables → ResourceId → Option ResourceRecord
resource s id = find (λ r. r.id == id) s.resources

unfoldable pub require_resource : Tables → ResourceId → Result ResourceRecord AppError
unfolding resource
require_resource s id = ok_or (resource s id) (queue (resource_not_found id))

unfoldable pub require_run : Tables → ResourceId → TaskId → Result ActiveRun AppError
unfolding require_resource stale
require_run s id task = do
  record_ ← require_resource s id
  run ← ok_or record_.run (queue (stale_run id no_active_run))
  if run.task == task then ok run else stale id (other_run run.task task)

-- `run_of_job`: the first resource whose run is of the job.
unfoldable pub run_of_job : Tables → JobId → Option ActiveRun
run_of_job s job = elim (find (λ r. map_or r.run false (λ run. run.job == job)) s.resources) [
  | none ↦ none
  | some r ↦ r.run
]

unfoldable pub job : Tables → JobId → Option JobRecord
job s id = find (λ j. j.id == id) s.jobs

unfoldable pub require_job : Tables → JobId → Result JobRecord AppError
unfolding job
require_job s id = ok_or (job s id) (queue (job_not_found id))

unfoldable pub require_machine_job : Tables → MachineId → JobId → Result JobRecord AppError
unfolding require_job
require_machine_job s machine id = do
  found ← require_job s id
  ensure (found.machine == machine) (queue (job_not_found id))
  ok found

-- `require_task`, for the state that its columns spell. A run task has no process id column here.
unfoldable pub require_task : Tables → TaskId → Result TaskState AppError
require_task s id = do
  row ← ok_or (find (λ t. t.id == id) s.tasks) (task_not_found id)
  TaskState.from_storage row.status row.exit_reason none

-- `write_run`: the run becomes the active run of its resource, and is read back.
unfoldable pub set_run : Option ActiveRun → ResourceId → Tables → Tables
unfolding update
set_run run id s = record s {
  resources = update (λ r. r.id == id) (λ r. record r { run = run }) s.resources;
}

unfoldable pub write_run : ActiveRun → Tx ActiveRun
unfolding set_run require_run
write_run run s =
    let t = set_run (some run) run.resource s in
    do stored ← require_run t run.resource run.task; ok (stored, t)

unfoldable pub clear_run : ResourceId → Tables → Tables
unfolding set_run
clear_run id s = set_run none id s
