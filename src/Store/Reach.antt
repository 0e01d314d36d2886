-- ===== src/Store/Reach.antt =====
-- The operations of src/store/queue/runs.rs, and the submission, the cancel and the move of
-- src/store/queue/jobs.rs, as steps of one relation, and what holds after any sequence of them.
use homebased.Base.{
  ℕ, ◌≡◌, sym, ◌∙◌, subst, ◌≢◌, Bool, true, String, find-In, In, Option, none, some, Option-cases,
  inl, inr, ◌==◌, arith, Result, ok, >>=-ok, ensure-ok, ok_or,
}
use homebased.Ids.{TaskId, ThreadId, ResourceId, JobId, MachineId, AttentionId, Time}
use homebased.Error.{AppError, queue, corrupt, no_step}
use homebased.Domain.ProcessStatus.{ProcessStatus}
use homebased.Domain.ExitReason.{ExitReason, spawn_failed}
use homebased.Domain.Evidence.{TaskExitEvidence, of_process_group, no_child_spawned}
use homebased.Domain.TaskState.{TaskState}
use homebased.Queue.StopCause.{StopCause}
use homebased.Queue.Job.{active, get_step}
use homebased.Queue.Run.{ActiveRun, RunPhase, holds_job, CleanupFailure}
use homebased.Store.Types.{ResourceRecord, JobRecord, Tables}
use homebased.Store.Access.{require_run, require_machine_job}
use homebased.Store.Invariant.{Holds, at_job, IsActiveOn}
use homebased.Store.Requests.{mark_run_executing, request_stop}
use homebased.Store.Reserve.{reserve_run_inner}
use homebased.Store.Finish.{task_end, launch_abandoned}
use homebased.Store.Commit.{
  commit_terminal, commit_lost, abandon_launch, fail_job_launch, is_launching,
}
use homebased.Store.Cleanup.{begin_cleanup_attempt, apply_cleanup_result}
use homebased.Store.Cancel.{CancelResult, apply_cancel}
use homebased.Store.CancelLaws.{apply_cancel-Agrees}
use homebased.Store.Steps.{Agrees}
use homebased.Store.Submit.{JobSpec, NewJob, JobAccepted, submit_job}
use homebased.Store.SubmitAgrees.{submit_job-Agrees}
use homebased.Store.Move.{MoveResult, apply_move}
use homebased.Store.MoveAgrees.{apply_move-Agrees}
use homebased.Queue.Placement.{Placement}
use homebased.Store.Agreement.{mark_run_executing-Agrees, request_stop-Agrees}
use homebased.Store.CleanupLaws.{begin_cleanup_attempt-Agrees, apply_cleanup_result-Agrees}
use homebased.Store.ReserveLaws.{reserve_run_inner-Agrees}
use homebased.Store.CommitLaws.{commit_terminal-Agrees, commit_lost-Agrees}

-- One committed transaction on runs.
infix 40 ◌⟶◌
pub data ◌⟶◌ (s t : Tables) : Type 0 where
  reserve :
      (machine : MachineId) (id : JobId) (at : ResourceId) (task : TaskId) (now : Time)
      (run : ActiveRun)
      → reserve_run_inner machine id at task now s ≡ ok (run, t)
      → s ⟶ t
  fail_launch :
      (machine : MachineId) (id : JobId) (at : ResourceId) (task : TaskId) (message : String)
      (now : Time)
      → fail_job_launch machine id at task message now s ≡ ok (tt, t)
      → s ⟶ t
  executes :
      (at : ResourceId) (task : TaskId) (since : Time) (run : ActiveRun)
      → mark_run_executing at task since s ≡ ok (run, t)
      → s ⟶ t
  stop :
      (at : ResourceId) (task : Option TaskId) (cause : StopCause) (now : Time) (run : ActiveRun)
      → request_stop at task cause now s ≡ ok (run, t)
      → s ⟶ t
  abandon :
      (at : ResourceId) (task : TaskId) (gone : Bool)
      → abandon_launch at task s ≡ ok (gone, t)
      → s ⟶ t
  terminal :
      (task : TaskId) (from : ProcessStatus) (reason : ExitReason) (evidence : TaskExitEvidence)
      (worker_thread : Option ThreadId) (row : Option TaskState)
      → commit_terminal task from reason evidence worker_thread task_end s ≡ ok (row, t)
      → s ⟶ t
  task_lost :
      (task : TaskId) (from : ProcessStatus) (worker_thread : Option ThreadId)
      (row : Option TaskState)
      → commit_lost task from worker_thread s ≡ ok (row, t)
      → s ⟶ t
  attempt :
      (at : ResourceId) (task : TaskId) (next : ℕ)
      → begin_cleanup_attempt at task s ≡ ok (next, t)
      → s ⟶ t
  cleaned :
      (at : ResourceId) (task : TaskId) (attempt : ℕ) (result : Result (Unit {0}) CleanupFailure)
      (fresh : AttentionId) (phase : Option RunPhase)
      → apply_cleanup_result at task attempt result fresh s ≡ ok (phase, t)
      → s ⟶ t
  cancel :
      (machine : MachineId) (id : JobId) (now : Time) (result : CancelResult)
      → apply_cancel machine id now s ≡ ok (result, t)
      → s ⟶ t
  submit :
      (digest : JobSpec → Result ℕ AppError) (new : NewJob) (accepted : JobAccepted)
      → submit_job digest new s ≡ ok (accepted, t)
      → s ⟶ t
  move :
      (machine : MachineId) (id : JobId) (placement : Placement) (result : MoveResult)
      → apply_move machine id placement s ≡ ok (result, t)
      → s ⟶ t

infix 40 ◌⟶*◌
pub data ◌⟶*◌ (s : Tables) : Tables → Type 0 where
  here : s ⟶* s
  later : {t u : Tables} → s ⟶* t → t ⟶ u → s ⟶* u

abandon_launch-Agrees :
    (s t : Tables) (at : ResourceId) (task : TaskId) (gone : Bool)
    → Agrees s
    → abandon_launch at task s ≡ ok (gone, t)
    → Agrees t
unfolding abandon_launch
abandon_launch-Agrees s t at task gone agree h =
    let (run, h₁, _) = >>=-ok _ (require_run s at task) h in
    let (_, h₂) = ensure-ok (is_launching run.phase) _ _ h₁ in
    let ((row, u), h₃, ended) =
      >>=-ok _ (commit_terminal task ProcessStatus.queued _ _ none launch_abandoned s) h₂ in
    let e : u ≡ t = ground arith in
    subst Agrees e
      (commit_terminal-Agrees s u task ProcessStatus.queued _ _ none launch_abandoned row agree
        ended).0

fail_job_launch-Agrees :
    (s t : Tables) (machine : MachineId) (id : JobId) (at : ResourceId) (task : TaskId)
    (message : String) (now : Time)
    → Agrees s
    → fail_job_launch machine id at task message now s ≡ ok (tt, t)
    → Agrees t
unfolding fail_job_launch
fail_job_launch-Agrees s t machine id at task message now agree h =
    let (j, h₁, _) = >>=-ok _ (require_machine_job s machine id) h in
    let (step, h₂, _) =
      >>=-ok _ (ok_or (get_step j.steps j.step) (queue (corrupt (no_step id j.step)))) h₁ in
    let ((run, u), h₃, reserved) = >>=-ok _ (reserve_run_inner machine id at task now s) h₂ in
    let ((row, v), h₄, ended) =
      >>=-ok _
        (commit_terminal task ProcessStatus.queued (spawn_failed message)
          (of_process_group no_child_spawned) none task_end u)
        h₃ in
    let e : v ≡ t = ground arith in
    subst Agrees e
      (commit_terminal-Agrees u v task ProcessStatus.queued (spawn_failed message)
        (of_process_group no_child_spawned) none task_end row
        (reserve_run_inner-Agrees s u machine id at task now run agree reserved).0 ended).0

step-Agrees : (s t : Tables) → s ⟶ t → Agrees s → Agrees t
step-Agrees s t (reserve m j at task now run h) a =
    (reserve_run_inner-Agrees s t m j at task now run a h).0
step-Agrees s t (fail_launch m j at task msg now h) a =
    fail_job_launch-Agrees s t m j at task msg now a h
step-Agrees s t (executes at task since run h) a =
    (mark_run_executing-Agrees s t at task since run a h).0
step-Agrees s t (stop at task cause now run h) a =
    (request_stop-Agrees s t at task cause now run a h).0
step-Agrees s t (abandon at task gone h) a = abandon_launch-Agrees s t at task gone a h
step-Agrees s t (terminal task from reason ev w row h) a =
    (commit_terminal-Agrees s t task from reason ev w task_end row a h).0
step-Agrees s t (task_lost task from w row h) a = (commit_lost-Agrees s t task from w row a h).0
step-Agrees s t (attempt at task next h) a = (begin_cleanup_attempt-Agrees s t at task next a h).0
step-Agrees s t (cleaned at task n result fresh phase h) a =
    (apply_cleanup_result-Agrees s t at task n result fresh phase a h).0
step-Agrees s t (cancel m j now result h) a = (apply_cancel-Agrees s t m j now result a h).0
step-Agrees s t (submit digest new accepted h) a = submit_job-Agrees digest new s t accepted a h
step-Agrees s t (move m j placement result h) a = (apply_move-Agrees s t m j placement result a h).0

-- After any sequence of operations on runs, and of submissions, cancels and moves, that starts with runs
-- and jobs in agreement, a job is active on a resource exactly if the resource has a run of that job that still holds it, and no two
-- resources have runs of one job, in whatever phase.
pub reachable-Agrees :
    (s t : Tables)
    → s ⟶* t
    → Agrees s
    → Agrees t
      × ((k : JobId) (at : ResourceId)
          → IsActiveOn t.jobs k at
          → (run : ActiveRun) × Holds t.resources at run
            × (run.job ≡ k)
            × (holds_job run.phase ≡ true))
      × ((at : ResourceId) (run : ActiveRun)
          → Holds t.resources at run
          → holds_job run.phase ≡ true
          → IsActiveOn t.jobs run.job at)
      × ((at other : ResourceId) (run run' : ActiveRun)
          → Holds t.resources at run
          → Holds t.resources other run'
          → run.job ≡ run'.job
          → at ≡ other)
unfolding Agrees
reachable-Agrees s t steps agree =
    let end = reach steps agree in (end, end.holder, end.held, end.one_run)
  where
    reach : {s t : Tables} → s ⟶* t → Agrees s → Agrees t
    reach here a = a
    reach {s} (later {t = t} {u = u} r e) a = step-Agrees t u e (reach r a)

-- Tables without runs and without active jobs are in agreement.
pub Agrees-initial :
    (s : Tables)
    → ((r : ResourceRecord) → In r s.resources → r.run ≡ none)
    → ((j : JobRecord) (at : ResourceId) → In j s.jobs → j.state ≢ active at)
    → Agrees s
unfolding Agrees
Agrees-initial s idle inactive = record {
  home = λ id run h. no_run id run h;
  held = λ id run h p. no_run id run h;
  holder = λ k at a. elim (Option-cases (at_job s.jobs k)) [
    | inl e ↦ absurd (cc (rw e at a))
    | inr (j, e) ↦
        absurd (inactive j at (find-In (λ x. x.id == k) s.jobs e).0 (same_state (rw e at a)))
  ];
  one_run = λ at other run run' h h' e. no_run at run h;
}
  where
    no_run : {P : Type 0} (id : ResourceId) (run : ActiveRun) → Holds s.resources id run → P
    no_run id run (r, e, q) =
        absurd (cc (sym q ∙ idle r (find-In (λ x. x.id == id) s.resources e).0))

    same_state : {A : Type 0} {a b : A} → some a ≡ some b → a ≡ b
    same_state h = ground arith
