-- ===== src/Store/Examples.antt =====
-- The theorems on runs at the tables of one job's life (src/store/queue/runs.rs,
-- src/store/queue/jobs.rs).
use homebased.Base.{◌≡◌, refl, ◌≢◌, ◌⊎◌, true, false, none, some, Result, ok, err, pos}
use homebased.Ids.{ResourceId, JobId}
use homebased.Error.{AppError}
use homebased.Domain.ProcessStatus.{ProcessStatus}
use homebased.Domain.ExitReason.{exit, spawn_failed}
use homebased.Domain.Evidence.{of_process_group, no_child_spawned}
use homebased.Domain.TaskState
use homebased.Domain.TaskState.{TaskState}
use homebased.Queue.StopCause.{StopCause}
use homebased.Queue.Job.{queued, active, is_last}
use homebased.Queue.Run.{
  ActiveRun, launching, stopping, cleaning, holds_job, stop_cause, process_group_unconfirmed,
}
use homebased.Queue.Classify.{RunEnd, RunOutcome, requeue, classify, outcome_status}
use homebased.Store.Types.{JobRecord, Tables}
use homebased.Store.Invariant.{Holds, state_at, IsActiveOn}
use homebased.Store.Requests.{mark_run_executing, request_stop, stopped}
use homebased.Store.Reserve.{reserve_run_inner}
use homebased.Store.Finish.{task_end}
use homebased.Store.Commit.{commit_terminal, commit_lost, outcome_of, stored_reason}
use homebased.Store.Cancel.{CancelResult, stopping_run, apply_cancel}
use homebased.Store.CancelLaws.{Cancelled, apply_cancel-Agrees}
use homebased.Store.Cleanup.{apply_cleanup_result}
use homebased.Store.Steps.{Agrees}
use homebased.Store.Agreement.{request_stop-Agrees}
use homebased.Store.CleanupLaws.{Settled, apply_cleanup_result-Agrees}
use homebased.Store.ReserveLaws.{reserve_run_inner-Agrees}
use homebased.Store.CommitLaws.{Committed, commit_terminal-Agrees, commit_lost-Agrees}
use homebased.Store.CommitSteps.{IsRunOf, HasMoved}
use homebased.Store.CommitReads.{IsStored, outcome_of-reads_back}
use homebased.Store.Reach.{here, later, reserve, executes, reachable-Agrees}
use homebased.Store.Scenario.{
  tables_after, value_of, no_run, training, start, reserved, launching_tables, executing,
  executing_tables, start-Agrees, executing-Agrees, cancelled, failed_start, cleaning_tables,
  lost_run, left_over, cleaning-Agrees,
}

reserve_run_inner-Agrees_example :
    Agrees launching_tables
    × Holds launching_tables.resources 1 (value_of no_run reserved)
    × ((value_of no_run reserved).phase ≡ launching 50)
    × (state_at launching_tables.jobs 10 ≡ some (active 1))
    × (state_at start.jobs 10 ≡ some (queued (value_of no_run reserved).resume))
    × ((other : ActiveRun) → ¬ Holds start.resources 1 other)
    × ((other : ResourceId) (held : ActiveRun) → Holds start.resources other held → held.job ≢ 10)
unfolding reserve_run_inner
reserve_run_inner-Agrees_example =
    reserve_run_inner-Agrees start launching_tables 7 10 1 100 50 (value_of no_run reserved)
      start-Agrees refl

request_stop-Agrees_example :
    Agrees (tables_after start cancelled)
    × Holds (tables_after start cancelled).resources 1 (value_of no_run cancelled)
    × (old : ActiveRun) × Holds executing_tables.resources 1 old
    × (holds_job old.phase ≡ true)
    × (value_of no_run cancelled ≡ record old { phase = (value_of no_run cancelled).phase })
    × (stopped 1 StopCause.user_cancel 70 old.phase ≡ ok (value_of no_run cancelled).phase)
unfolding reserve_run_inner mark_run_executing request_stop
request_stop-Agrees_example =
    request_stop-Agrees executing_tables (tables_after start cancelled) 1 none StopCause.user_cancel
      70 (value_of no_run cancelled) executing-Agrees refl

commit_terminal-Agrees_example :
    Agrees cleaning_tables
    × Committed executing_tables cleaning_tables 100 ProcessStatus.queued task_end
        (spawn_failed "no such program")
        (value_of none failed_start)
unfolding reserve_run_inner mark_run_executing commit_terminal TaskState.from_storage
commit_terminal-Agrees_example =
    commit_terminal-Agrees executing_tables cleaning_tables 100 ProcessStatus.queued
      (spawn_failed "no such program") (of_process_group no_child_spawned) none task_end
      (value_of none failed_start) executing-Agrees refl

commit_lost-Agrees_example :
    Agrees (tables_after start lost_run)
    × (at : ResourceId) × (run : ActiveRun) × (j : JobRecord) × IsRunOf executing_tables 100 at run
        j
    × (((value_of none lost_run ≡ none) × (tables_after start lost_run ≡ executing_tables))
        ⊎ HasMoved
            (tables_after start lost_run)
            at
            run
            (some ((classify RunEnd.lost (stop_cause run.phase) (is_last j.steps run.step)).job)))
unfolding reserve_run_inner mark_run_executing commit_lost TaskState.from_storage
commit_lost-Agrees_example =
    commit_lost-Agrees executing_tables (tables_after start lost_run) 100 ProcessStatus.queued none
      (value_of none lost_run) executing-Agrees refl

apply_cleanup_result-Agrees_example :
    Agrees (tables_after start left_over)
    × (old : ActiveRun) × Holds cleaning_tables.resources 1 old
    × (old.task ≡ 100)
    × (old.phase ≡ cleaning 1)
    × Settled (tables_after start left_over) 1 old 77 (err process_group_unconfirmed)
unfolding reserve_run_inner mark_run_executing commit_terminal TaskState.from_storage
    apply_cleanup_result
apply_cleanup_result-Agrees_example =
    apply_cleanup_result-Agrees cleaning_tables (tables_after start left_over) 1 100 1
      (err process_group_unconfirmed) 77 (value_of none left_over) cleaning-Agrees refl

reachable-Agrees_example :
    Agrees executing_tables
    × ((k : JobId) (at : ResourceId)
        → IsActiveOn executing_tables.jobs k at
        → (run : ActiveRun) × Holds executing_tables.resources at run
          × (run.job ≡ k)
          × (holds_job run.phase ≡ true))
    × ((at : ResourceId) (run : ActiveRun)
        → Holds executing_tables.resources at run
        → holds_job run.phase ≡ true
        → IsActiveOn executing_tables.jobs run.job at)
    × ((at other : ResourceId) (run run' : ActiveRun)
        → Holds executing_tables.resources at run
        → Holds executing_tables.resources other run'
        → run.job ≡ run'.job
        → at ≡ other)
unfolding reserve_run_inner mark_run_executing
reachable-Agrees_example =
    reachable-Agrees start executing_tables
      (later (later here (reserve 7 10 1 100 50 (value_of no_run reserved) refl))
        (executes 1 100 60 (value_of no_run executing) refl))
      start-Agrees

-- A run of the only step of the job that was asked to yield.
abbrev yielding : ActiveRun
yielding = record {
  resource = 1;
  job = 10;
  task = 100;
  run_number = 1;
  step = 0;
  resume = false;
  phase = stopping (some 60) StopCause.yield 70;
}

outcome_of-reads_back_example :
    (state : TaskState) × (TaskState.from_storage
        (outcome_status RunOutcome.preempted)
        (some (stored_reason RunOutcome.preempted (exit (pos 75))))
        none
      ≡ ok state)
    × IsStored state RunOutcome.preempted (exit (pos 75))
unfolding outcome_of
outcome_of-reads_back_example =
    outcome_of-reads_back (exit (pos 75)) yielding training RunOutcome.preempted
      (some (requeue true)) refl

abbrev cancelled_job : Result (CancelResult × Tables) AppError
cancelled_job = apply_cancel 7 10 70 executing_tables

apply_cancel-Agrees_example :
    Agrees (tables_after start cancelled_job)
    × Cancelled executing_tables (tables_after start cancelled_job) 10 (stopping_run 1 100)
unfolding reserve_run_inner mark_run_executing apply_cancel
apply_cancel-Agrees_example =
    apply_cancel-Agrees executing_tables (tables_after start cancelled_job) 7 10 70
      (stopping_run 1 100) executing-Agrees refl
