-- ===== src/Store/Scenario.antt =====
-- One job from its reservation to the cleanup after it, operation by operation
-- (src/store/queue/runs.rs).
use homebased.Base.{
  ℕ, ◌≡◌, refl, ◌≢◌, inl, inr, false, [], ◌∷◌, In, Option, none, some, Result, ok, err,
}
use homebased.Ids.{ResourceId}
use homebased.Error.{AppError}
use homebased.Domain.ProcessStatus.{ProcessStatus}
use homebased.Domain.ExitReason.{spawn_failed}
use homebased.Domain.Evidence.{of_process_group, no_child_spawned}
use homebased.Domain.TaskState
use homebased.Domain.TaskState.{TaskState}
use homebased.Queue.Priority
use homebased.Queue.StopCause.{StopCause}
use homebased.Queue.Job.{queued, active, any_resource, StepWorkload}
use homebased.Queue.Run.{ActiveRun, RunPhase, launching, process_group_unconfirmed}
use homebased.Store.Types.{ResourceRecord, JobRecord, Tables}
use homebased.Store.Requests.{mark_run_executing, request_stop}
use homebased.Store.Reserve.{reserve_run_inner}
use homebased.Store.Finish.{task_end}
use homebased.Store.Commit.{commit_terminal, commit_lost}
use homebased.Store.Cleanup.{begin_cleanup_attempt, apply_cleanup_result}
use homebased.Store.Steps.{Agrees}
use homebased.Store.Agreement.{mark_run_executing-Agrees}
use homebased.Store.ReserveLaws.{reserve_run_inner-Agrees}
use homebased.Store.CommitLaws.{commit_terminal-Agrees}
use homebased.Store.Reach.{Agrees-initial}

abbrev pub tables_after : {A : Type 0} → Tables → Result (A × Tables) AppError → Tables
tables_after s (ok (a, t)) = t
tables_after s (err e) = s

abbrev pub value_of : {A : Type 0} → A → Result (A × Tables) AppError → A
value_of d (ok (a, t)) = a
value_of d (err e) = d

abbrev pub no_run : ActiveRun
no_run = record {
  resource = 0;
  job = 0;
  task = 0;
  run_number = 0;
  step = 0;
  resume = false;
  phase = launching 0;
}

abbrev pub gpu : ResourceRecord
gpu = record { id = 1; machine = 7; name = 103 ∷ []; run = none }

abbrev pub training : JobRecord
training = record {
  id = 10;
  machine = 7;
  origin = 7;
  thread = 5;
  steps = record { list = StepWorkload.task "train" ∷ [] };
  digest = 77;
  target = any_resource;
  priority = Priority.high;
  position = some 1;
  state = queued false;
  step = 0;
  runs = 0;
  event_seq = 0;
}

abbrev pub start : Tables
start = record { resources = gpu ∷ []; jobs = training ∷ []; tasks = []; history = []; events = [] }

abbrev pub reserved : Result (ActiveRun × Tables) AppError
reserved = reserve_run_inner 7 10 1 100 50 start

abbrev pub launching_tables : Tables
launching_tables = tables_after start reserved

abbrev pub executing : Result (ActiveRun × Tables) AppError
executing = mark_run_executing 1 100 60 launching_tables

abbrev pub executing_tables : Tables
executing_tables = tables_after start executing

pub start-Agrees : Agrees start
start-Agrees = Agrees-initial start idle waits
  where
    idle : (r : ResourceRecord) → In r start.resources → r.run ≡ none
    idle r (inl e) = rw e refl
    idle r (inr m) = absurd m

    waits : (j : JobRecord) (at : ResourceId) → In j start.jobs → j.state ≢ active at
    waits j at (inl e) = rw e (λ q. cc q)
    waits j at (inr m) = absurd m

pub launching-Agrees : Agrees launching_tables
unfolding reserve_run_inner
launching-Agrees =
    (reserve_run_inner-Agrees start launching_tables 7 10 1 100 50 (value_of no_run reserved)
      start-Agrees refl).0

pub executing-Agrees : Agrees executing_tables
unfolding reserve_run_inner mark_run_executing
executing-Agrees =
    (mark_run_executing-Agrees launching_tables executing_tables 1 100 60
      (value_of no_run executing) launching-Agrees refl).0

abbrev pub cancelled : Result (ActiveRun × Tables) AppError
cancelled = request_stop 1 none StopCause.user_cancel 70 executing_tables

abbrev pub failed_start : Result (Option TaskState × Tables) AppError
failed_start =
    commit_terminal 100 ProcessStatus.queued (spawn_failed "no such program")
      (of_process_group no_child_spawned) none task_end executing_tables

abbrev pub cleaning_tables : Tables
cleaning_tables = tables_after start failed_start

abbrev pub lost_run : Result (Option TaskState × Tables) AppError
lost_run = commit_lost 100 ProcessStatus.queued none executing_tables

abbrev pub second_attempt : Result (ℕ × Tables) AppError
second_attempt = begin_cleanup_attempt 1 100 cleaning_tables

abbrev pub left_over : Result (Option RunPhase × Tables) AppError
left_over = apply_cleanup_result 1 100 1 (err process_group_unconfirmed) 77 cleaning_tables

pub cleaning-Agrees : Agrees cleaning_tables
unfolding reserve_run_inner mark_run_executing commit_terminal TaskState.from_storage
cleaning-Agrees =
    (commit_terminal-Agrees executing_tables cleaning_tables 100 ProcessStatus.queued
      (spawn_failed "no such program") (of_process_group no_child_spawned) none task_end
      (value_of none failed_start) executing-Agrees refl).0
