-- ===== src/Store/CommitLaws.antt =====
-- The commits of a run task's end keep runs and jobs in agreement (src/store/queue/runs.rs).
use homebased.Base.{
  Result, ◌≡◌, sym, subst, ◌⊎◌, inl, inr, Option, none, some, arith, Bool-cases, ◌≢◌, ok, >>=-ok,
  >>-ok,
}
use homebased.Ids.{TaskId, ThreadId, ResourceId}
use homebased.Error.{AppError}
use homebased.Domain.ProcessStatus.{ProcessStatus}
use homebased.Domain.ExitReason.{ExitReason}
use homebased.Domain.Evidence.{TaskExitEvidence}
use homebased.Domain.TaskState
use homebased.Domain.TaskState.{TaskState}
use homebased.Queue.Job.{is_last}
use homebased.Queue.Run.{ActiveRun, stop_cause}
use homebased.Queue.Classify.{RunEnd, RunOutcome, JobTransition, classify, outcome_status}
use homebased.Store.Types.{JobRecord, Tables}
use homebased.Store.Access.{require_task}
use homebased.Store.Finish.{RunEndSource, run_for_task}
use homebased.Store.Steps.{Agrees}
use homebased.Store.CommitSteps.{
  IsRunOf, HasMoved, run_for_task-ok, end_task-ok, finish_ended-some, finish_ended-Agrees,
}
use homebased.Store.CommitHits.{same_status_eq, same_status_ne, end_task-some}
use homebased.Store.Commit.{
  outcome_of, finish_ended, commit_from, commit_terminal, commit_lost, check_transition,
  same_status,
}

-- What a commit found and did. It left all as it was exactly because the task has another status than
-- `from`; otherwise the task's run held its job, the job has moved, and the row is read back.
pub data Committed (s t : Tables) (task : TaskId) (from : ProcessStatus) (source : RunEndSource)
    (reason : ExitReason) (row : Option TaskState) : Type 0 where
  moved_on :
      (current : TaskState)
      → require_task s task ≡ ok current
      → TaskState.status current ≢ from
      → row ≡ none
      → t ≡ s
      → Committed s t task from source reason row
  ended :
      (current after : TaskState)
      → require_task s task ≡ ok current
      → TaskState.status current ≡ from
      → row ≡ some after
      → require_task t task ≡ ok after
      → (at : ResourceId) (run : ActiveRun) (j : JobRecord) (outcome : RunOutcome)
        (moved : Option JobTransition)
      → IsRunOf s task at run j
      → outcome_of source reason run j ≡ ok (outcome, moved)
      → HasMoved t at run moved
      → Committed s t task from source reason row

commit_from-Agrees :
    (s t : Tables) (task : TaskId) (from : ProcessStatus) (reason : ExitReason)
    (evidence : TaskExitEvidence) (worker_thread : Option ThreadId) (source : RunEndSource)
    (row : Option TaskState) (current : TaskState)
    → Agrees s
    → require_task s task ≡ ok current
    → TaskState.status current ≡ from
    → commit_from task from reason evidence worker_thread source s ≡ ok (row, t)
    → Agrees t × Committed s t task from source reason row
unfolding commit_from
commit_from-Agrees s t task from reason evidence worker_thread source row current agree known same
      h =
    let ((run, j), h₁, found) = >>=-ok _ (run_for_task s task) h in
    let (at, here) = run_for_task-ok s task run j found in
    let ((outcome, moved), h₂, class) = >>=-ok _ (outcome_of source reason run j) h₁ in
    let (h₃, allowed) = >>-ok _ (check_transition from (outcome_status outcome)) h₂ in
    let (u, e) = end_task-some s task from (outcome_status outcome) _ current known same allowed in
    let (done, has_moved, after, told, read) =
      finish_ended-some s t u at run j moved (some reason) task row agree here
        (end_task-ok task from _ s u e)
        (subst (λ o. finish_ended run j moved (some reason) task s o ≡ ok (row, t)) e h₃) in
    (done, ended current after known same told read at run j outcome moved here class has_moved)

-- The commit of a run task's end, by the worker, the task layer or a cancel, or by giving up its
-- launch, keeps runs and jobs in agreement. If the task has moved on from the status that the commit
-- expects, it changes nothing and returns no row. If the task has that status, its run held its job, the
-- job has then the state that the outcome of the run's end says, the resource keeps the run, in the
-- first attempt of its cleanup, and the row that is returned is the task's afterwards.
pub commit_terminal-Agrees :
    (s t : Tables) (task : TaskId) (from : ProcessStatus) (reason : ExitReason)
    (evidence : TaskExitEvidence) (worker_thread : Option ThreadId) (source : RunEndSource)
    (row : Option TaskState)
    → Agrees s
    → commit_terminal task from reason evidence worker_thread source s ≡ ok (row, t)
    → Agrees t × Committed s t task from source reason row
unfolding commit_terminal
commit_terminal-Agrees s t task from reason evidence worker_thread source row agree h =
    let (current, h₁, known) = >>=-ok _ (require_task s task) h in
    elim (Bool-cases (same_status (TaskState.status current) from)) [
      | inl y ↦
          commit_from-Agrees s t task from reason evidence worker_thread source row current agree
            known (same_status_eq (TaskState.status current) from y) (rw y at h₁)
      | inr n ↦
          let q : ◌≡◌ {A = Result (Option TaskState × Tables) AppError} (ok (none, s))
              (ok (row, t)) =
            rw n at h₁ in
          let (e, same) : (none ≡ row) × (s ≡ t) = (ground arith, ground arith) in
          (
            subst Agrees same agree,
            moved_on current known (same_status_ne (TaskState.status current) from n) (sym e)
                (sym same),
          )
    ]

-- The commit of a lost task keeps runs and jobs in agreement, and moves the job of its run as the
-- table says for a lost run, or changes nothing.
pub commit_lost-Agrees :
    (s t : Tables) (task : TaskId) (from : ProcessStatus) (worker_thread : Option ThreadId)
    (row : Option TaskState)
    → Agrees s
    → commit_lost task from worker_thread s ≡ ok (row, t)
    → Agrees t
      × (at : ResourceId) × (run : ActiveRun) × (j : JobRecord) × IsRunOf s task at run j
      × (((row ≡ none) × (t ≡ s))
          ⊎ HasMoved t at run
              (some ((classify RunEnd.lost (stop_cause run.phase) (is_last j.steps run.step)).job)))
unfolding commit_lost
commit_lost-Agrees s t task from worker_thread row agree h =
    let (h₁, _) = >>-ok _ (check_transition from ProcessStatus.lost) h in
    let ((run, j), h₂, found) = >>=-ok _ (run_for_task s task) h₁ in
    let (at, here) = run_for_task-ok s task run j found in
    let class = classify RunEnd.lost (stop_cause run.phase) (is_last j.steps run.step) in
    let (done, was) =
      finish_ended-Agrees s t at run j (some class.job) none task from _ row agree here h₂ in
    (done, at, run, j, here, was)
