-- ===== src/Store/CommitHits.antt =====
-- A task whose state has the status that a commit expects has it in its row too, so that the commit's
-- update finds the row (src/store/queue/runs.rs).
use text.Mathlib.TextEquality.{eq_iff}
use homebased.Domain.RoundTrips.{status_from-as_str}
use homebased.Base.{
  Result, Option-cases, inl, inr, ap, ◌∙◌, refl, ◌≡◌, ◌≢◌, sym, true, false, Option, none, some,
  find, any, any_intro, find-In, ◌==◌, ◌&&◌, ok, >>=-ok, ok_or, arith,
}
use homebased.Ids.{TaskId}
use homebased.Error.{AppError, task_not_found}
use homebased.Domain.ProcessStatus
use homebased.Domain.ProcessStatus.{ProcessStatus}
use homebased.Domain.ExitReason
use homebased.Domain.ExitReason.{ExitReason, exit, signal, spawn_failed}
use homebased.Domain.TaskState
use homebased.Domain.TaskState.{TaskState}
use homebased.Domain.Transitions.{check_status_transition}
use homebased.Store.Types.{StoredTask, Tables}
use homebased.Store.Access.{require_task}
use homebased.Store.Steps.{ok_or-ok}
use homebased.Store.Commit.{same_status, check_transition, end_task}

pub same_status_eq : (a b : ProcessStatus) → same_status a b ≡ true → a ≡ b
unfolding same_status
same_status_eq a b h = ok_inj (
    sym (status_from-as_str a)
    ∙ ap ProcessStatus.from_storage ((eq_iff (ProcessStatus.as_str a) (ProcessStatus.as_str b)).0 h)
    ∙ status_from-as_str b)
  where
    ok_inj : {x y : ProcessStatus} → ◌≡◌ {A = Result ProcessStatus AppError} (ok x) (ok y) → x ≡ y
    ok_inj e = ground arith

same_status_refl : (a : ProcessStatus) → same_status a a ≡ true
unfolding same_status
same_status_refl a = (eq_iff (ProcessStatus.as_str a) (ProcessStatus.as_str a)).1 refl

pub same_status_ne : (a b : ProcessStatus) → same_status a b ≡ false → a ≢ b
same_status_ne a b h e = cc (same_status_refl b, rw e at h)

not_terminal :
    (from to : ProcessStatus)
    → check_transition from to ≡ ok tt
    → ProcessStatus.is_terminal from ≡ false
unfolding check_transition check_status_transition
not_terminal from to h = ground arith

-- Only a queued or a running task may end, and such a state is stored under its own status.
row_status :
    (st : ProcessStatus) (r : Option ExitReason) (state : TaskState)
    → TaskState.from_storage st r none ≡ ok state
    → ProcessStatus.is_terminal (TaskState.status state) ≡ false
    → st ≡ TaskState.status state
unfolding TaskState.from_storage TaskState.status ExitReason.status
row_status st r state stored lives = ground arith

pub end_task-some :
    (s : Tables) (task : TaskId) (from to : ProcessStatus) (change : StoredTask → StoredTask)
    (current : TaskState)
    → require_task s task ≡ ok current
    → TaskState.status current ≡ from
    → check_transition from to ≡ ok tt
    → (u : Tables) × (end_task task from change s ≡ some u)
unfolding require_task end_task
end_task-some s task from to change current known same allowed =
    let (row, h, found) =
      >>=-ok _ (ok_or (find (λ t. t.id == task) s.tasks) (task_not_found task)) known in
    let (there, own) =
      find-In (λ t. t.id == task) s.tasks (ok_or-ok _ (task_not_found task) found) in
    let e =
      row_status row.status row.exit_reason current h (rw same (not_terminal from to allowed)) in
    let hit : any (λ t. (t.id == task) && same_status t.status from) s.tasks ≡ true =
      any_intro (λ t. (t.id == task) && same_status t.status from) row s.tasks there
        (rw (own, e ∙ same, same_status_refl from) refl) in
    elim (Option-cases (end_task task from change s)) [
      | inl e ↦ cc (rw hit at e)
      | inr (u, e) ↦ (u, e)
    ]
