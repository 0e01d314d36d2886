-- ===== src/Store/CommitSteps.antt =====
-- What the commits of a run task's end have in common (src/store/queue/runs.rs): the run of the task,
-- and what follows the update of the task.
use homebased.Base.{
  ℕ, ◌≡◌, sym, ap, ◌∙◌, subst, ◌⊎◌, inl, inr, true, false, Option, none, some, arith, ◌==◌,
  Option-cases, ok, >>=-ok, ensure-ok, ok_or, map_or, find, find-In,
}
use homebased.Ids.{TaskId, ResourceId}
use homebased.Error.{queue, invariant, no_active_run_of}
use homebased.Domain.ProcessStatus.{ProcessStatus}
use homebased.Domain.ExitReason.{ExitReason}
use homebased.Domain.TaskState.{TaskState}
use homebased.Queue.Run.{ActiveRun, cleaning, holds_job}
use homebased.Queue.Classify.{JobTransition}
use homebased.Store.Types.{JobRecord, StoredTask, Tables}
use homebased.Store.Access.{require_run, require_job, require_task}
use homebased.Store.Invariant.{Holds, RunsAgree, at_job, state_at}
use homebased.Store.Finish.{after_run, finish_run, run_for_task}
use homebased.Store.FinishLaws.{finish_run-Agrees}
use homebased.Store.Steps.{Agrees, require_run-ok}
use homebased.Store.ReserveLaws.{require_job-ok}
use homebased.Store.Commit.{end_task, finish_ended}

-- The run of the task, which still holds the job `j`.
abbrev pub IsRunOf : Tables → TaskId → ResourceId → ActiveRun → JobRecord → Type 0
IsRunOf s task at run j =
    Holds s.resources at run
    × (run.task ≡ task)
    × (holds_job run.phase ≡ true)
    × (at_job s.jobs run.job ≡ some j)
    × (j.id ≡ run.job)

-- The job has moved as the run's end says, and the resource cleans up after the run.
abbrev pub HasMoved : Tables → ResourceId → ActiveRun → Option JobTransition → Type 0
HasMoved t at run moved =
    Holds t.resources at (record run { phase = cleaning 1 })
    × (state_at t.jobs run.job ≡ some ((after_run run moved).state))

test_id : (a b : ℕ) → (a == b) ≡ true → a ≡ b
test_id a b h = ground arith

pub run_for_task-ok :
    (s : Tables) (task : TaskId) (run : ActiveRun) (j : JobRecord)
    → run_for_task s task ≡ ok (run, j)
    → (at : ResourceId) × IsRunOf s task at run j
unfolding run_for_task
run_for_task-ok s task run j h =
    let (r, h₁, _) =
      >>=-ok _
        (ok_or (find (λ r. map_or r.run false (λ run. run.task == task)) s.resources)
          (queue (invariant (no_active_run_of task))))
        h in
    let (old, h₂, found) = >>=-ok _ (require_run s r.id task) h₁ in
    let (holds, h₃) = ensure-ok (holds_job old.phase) _ _ h₂ in
    let (k, h₄, is_job) = >>=-ok _ (require_job s old.job) h₃ in
    let (e, f) : (old ≡ run) × (k ≡ j) = (ground arith, ground arith) in
    let (here, same_task) = require_run-ok s r.id task old found in
    let known = require_job-ok s old.job k is_job in
    let same_id : k.id ≡ old.job =
      test_id k.id old.job (find-In (λ x. x.id == old.job) s.jobs known).1 in
    (
      r.id,
      subst (λ x. IsRunOf s task r.id x j) e
          (subst (λ y. IsRunOf s task r.id old y) f (here, same_task, holds, known, same_id)),
    )

pub end_task-ok :
    (task : TaskId) (from : ProcessStatus) (change : StoredTask → StoredTask) (s t : Tables)
    → end_task task from change s ≡ some t
    → (t.resources ≡ s.resources) × (t.jobs ≡ s.jobs)
unfolding end_task
end_task-ok task from change s t h = (ground arith, ground arith)

-- The end of a run whose task's row was changed: its job has moved, and the row is read back.
pub finish_ended-some :
    (s t u : Tables) (at : ResourceId) (run : ActiveRun) (j : JobRecord)
    (moved : Option JobTransition) (process : Option ExitReason) (task : TaskId)
    (row : Option TaskState)
    → Agrees s
    → IsRunOf s task at run j
    → (u.resources ≡ s.resources) × (u.jobs ≡ s.jobs)
    → finish_ended run j moved process task s (some u) ≡ ok (row, t)
    → Agrees t
      × HasMoved t at run moved
      × (state : TaskState) × (row ≡ some state)
      × (require_task t task ≡ ok state)
unfolding Agrees finish_ended
finish_ended-some s t u at run j moved process task row agree here (same_rs, same_js) h =
    let (v, h₁, finished) = >>=-ok _ (finish_run run j moved process u) h in
    let (state, h₂, read) = >>=-ok _ (require_task v task) h₁ in
    let (e, told) : (v ≡ t) × (row ≡ some state) = (ground arith, ground arith) in
    let (holds, _, _, is_job, same_id) = here in
    let agree_u : RunsAgree u.resources u.jobs =
      subst (λ rs. RunsAgree rs u.jobs) (sym same_rs)
        (subst (λ js. RunsAgree s.resources js) (sym same_js) agree) in
    let (done, kept, moved_job) =
      finish_run-Agrees u v at run j moved process agree_u
        (subst (λ rs. Holds rs at run) (sym same_rs) holds)
        (ap (λ js. at_job js run.job) same_js ∙ is_job) same_id finished in
    let (a, b) = subst (λ w. Agrees w × HasMoved w at run moved) e (done, (kept, moved_job)) in
    (a, b, state, told, subst (λ (w : Tables). require_task w task ≡ ok state) e read)

pub finish_ended-Agrees :
    (s t : Tables) (at : ResourceId) (run : ActiveRun) (j : JobRecord)
    (moved : Option JobTransition) (process : Option ExitReason) (task : TaskId)
    (from : ProcessStatus) (change : StoredTask → StoredTask) (row : Option TaskState)
    → Agrees s
    → IsRunOf s task at run j
    → finish_ended run j moved process task s (end_task task from change s) ≡ ok (row, t)
    → Agrees t × (((row ≡ none) × (t ≡ s)) ⊎ HasMoved t at run moved)
unfolding Agrees finish_ended
finish_ended-Agrees s t at run j moved process task from change row agree here h =
    elim (Option-cases (end_task task from change s)) [
      | inl e ↦
          let h' = subst (λ o. finish_ended run j moved process task s o ≡ ok (row, t)) e h in
          let (no_row, same) : (row ≡ none) × (s ≡ t) = stays h' in
          (subst Agrees same agree, inl (no_row, sym same))
      | inr (u, e) ↦
          let h' = subst (λ o. finish_ended run j moved process task s o ≡ ok (row, t)) e h in
          let (done, moved_job, _, _, _) =
            finish_ended-some s t u at run j moved process task row agree here
              (end_task-ok task from change s u e) h' in
          (done, inr moved_job)
    ]
  where
    stays : finish_ended run j moved process task s none ≡ ok (row, t) → (row ≡ none) × (s ≡ t)
    stays h = (ground arith, ground arith)
