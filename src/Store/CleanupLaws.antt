-- ===== src/Store/CleanupLaws.antt =====
-- What cleanup does to the resources and to the jobs (src/store/queue/runs.rs).
use homebased.Base.{
  inl, inr, ==_refl, ℕ, ◌≡◌, sym, ap, ◌∙◌, subst, true, false, Option, none, some, arith, Result,
  ok, err, >>=-ok, ensure-ok, ok_or,
}
use homebased.Ids.{TaskId, ResourceId, AttentionId}
use homebased.Error.{queue, stale_run, invariant, not_cleaning, cleanup_attempt_limit}
use homebased.Queue.Job.{checked_next}
use homebased.Queue.Run.{ActiveRun, RunPhase, cleaning, attention, holds_job, CleanupFailure}
use homebased.Store.Types.{Tables, job_attention}
use homebased.Store.Access.{require_run, set_run, clear_run, write_run}
use homebased.Store.Events.{append_job_event, event_run}
use homebased.Store.Updates.{put}
use homebased.Store.Invariant.{Holds, Holds-put, RunsAgree}
use homebased.Store.Preserved.{Holds-unique, RunsAgree-jobs}
use homebased.Store.Turnover.{RunsAgree-cleared}
use homebased.Store.Cleanup.{
  cleaning_attempt, begin_cleanup_attempt, is_attempt, record_cleanup, settle_cleanup,
  apply_cleanup_result,
}
use homebased.Store.States.{append_job_event-state}
use homebased.Store.Steps.{Agrees, ok_or-ok, require_run-ok}
use homebased.Store.Agreement.{write_run-Agrees}

gives_up :
    (phase : RunPhase) (n : ℕ)
    → cleaning_attempt phase ≡ some n
    → (phase ≡ cleaning n) × (holds_job phase ≡ false)
gives_up phase n h = ground arith

attempt_of :
    (phase : RunPhase) (n : ℕ)
    → is_attempt phase n ≡ true
    → (phase ≡ cleaning n) × (holds_job phase ≡ false)
unfolding is_attempt
attempt_of phase n h = ground arith

-- Another cleanup attempt keeps runs and jobs in agreement; it is begun only for the resource's run of
-- the task, while that is cleaning, and its number is the next one after the run's attempt.
pub begin_cleanup_attempt-Agrees :
    (s t : Tables) (id : ResourceId) (task : TaskId) (next : ℕ)
    → Agrees s
    → begin_cleanup_attempt id task s ≡ ok (next, t)
    → Agrees t
      × (old : ActiveRun) × (attempt : ℕ) × Holds s.resources id old
      × (old.task ≡ task)
      × (old.phase ≡ cleaning attempt)
      × (checked_next attempt ≡ some next)
unfolding begin_cleanup_attempt
begin_cleanup_attempt-Agrees s t id task next agree h =
    let (old, h₁, found) = >>=-ok _ (require_run s id task) h in
    let (here, same_task) = require_run-ok s id task old found in
    let (attempt, h₂, cleans) =
      >>=-ok _ (ok_or (cleaning_attempt old.phase) (queue (stale_run id not_cleaning))) h₁ in
    let (e, gave_up) = gives_up old.phase attempt (ok_or-ok _ _ cleans) in
    let (n, h₃, counted) =
      >>=-ok _ (ok_or (checked_next attempt) (queue (invariant (cleanup_attempt_limit task)))) h₂ in
    let ((stored, u), h₄, wrote) = >>=-ok _ (write_run (record old { phase = cleaning n }) s) h₃ in
    let (done, _, _) =
      write_run-Agrees s u id old stored (cleaning n) agree here (sym gave_up) wrote in
    let (e₁, e₂) : (n ≡ next) × (u ≡ t) = (ground arith, ground arith) in
    (subst Agrees e₂ done, old, attempt, here, same_task, e, ok_or-ok _ _ counted ∙ ap some e₁)

-- What a result makes of the run.
abbrev pub Settled :
    Tables → ResourceId → ActiveRun → AttentionId → Result (Unit {0}) CleanupFailure → Type 0
Settled t id run fresh (ok _) = (other : ActiveRun) → ¬ Holds t.resources id other
Settled t id run fresh (err failure) =
    Holds t.resources id (record run { phase = attention fresh failure })

settled :
    (s t : Tables) (id : ResourceId) (run : ActiveRun) (fresh : AttentionId)
    (result : Result (Unit {0}) CleanupFailure) (phase : Option RunPhase)
    → Agrees s
    → Holds s.resources id run
    → holds_job run.phase ≡ false
    → settle_cleanup id run fresh result s ≡ ok (phase, t)
    → Agrees t × Settled t id run fresh result
unfolding settle_cleanup clear_run set_run put Agrees
settled s t id run fresh (ok u) phase agree here gave_up h =
    let e : clear_run id s ≡ t = ground arith in
    (
      subst (λ (v : Tables). RunsAgree v.resources v.jobs) e
          (RunsAgree-cleared s.resources s.jobs agree id (λ other k.
            ap (λ (x : ActiveRun). holds_job x.phase) (Holds-unique s.resources id other run k here)
            ∙ gave_up)),
      λ other k.
          elim (Holds-put none id id s.resources other
            (subst (λ (v : Tables). Holds v.resources id other) (sym e) k)) [
              | inl (i, q) ↦ cc q
              | inr (apart, was) ↦ cc (sym (==_refl id) ∙ apart)
            ],
    )
settled s t id run fresh (err failure) phase agree here gave_up h =
    let ((stored, u), h₁, wrote) =
      >>=-ok _ (write_run (record run { phase = attention fresh failure }) s) h in
    let (done, is_run, kept) =
      write_run-Agrees s u id run stored (attention fresh failure) agree here (sym gave_up) wrote in
    let ((event, v), h₂, told) =
      >>=-ok _
        (append_job_event stored.job job_attention (some (event_run stored)) none (some fresh) u)
        h₁ in
    let e : v ≡ t = ground arith in
    let (states, same) =
      append_job_event-state stored.job job_attention (some (event_run stored)) none (some fresh) u
        v event told in
    (
      subst Agrees e (
          subst (λ rs. RunsAgree rs v.jobs) (sym same)
            (RunsAgree-jobs u.resources u.jobs done v.jobs states)),
      subst (λ (w : Tables). Holds w.resources id (record run { phase = attention fresh failure }))
          e
          (subst (λ rs. Holds rs id (record run { phase = attention fresh failure })) (sym same)
            (subst (λ x. Holds u.resources id x) is_run kept)),
    )

-- A cleanup result keeps runs and jobs in agreement, and it is accepted only if the resource has a run
-- of the task that it names, in the cleanup attempt that it names. After a success the resource has
-- no run; after a failure it has the same run, waiting for a person under the fresh attention id.
pub apply_cleanup_result-Agrees :
    (s t : Tables) (id : ResourceId) (task : TaskId) (attempt : ℕ)
    (result : Result (Unit {0}) CleanupFailure) (fresh : AttentionId) (phase : Option RunPhase)
    → Agrees s
    → apply_cleanup_result id task attempt result fresh s ≡ ok (phase, t)
    → Agrees t
      × (old : ActiveRun) × Holds s.resources id old
      × (old.task ≡ task)
      × (old.phase ≡ cleaning attempt)
      × Settled t id old fresh result
unfolding apply_cleanup_result record_cleanup Agrees
apply_cleanup_result-Agrees s t id task attempt result fresh phase agree h =
    let (old, h₁, found) = >>=-ok _ (require_run s id task) h in
    let (here, same_task) = require_run-ok s id task old found in
    let (named, h₂) = ensure-ok (is_attempt old.phase attempt) _ _ h₁ in
    let (e, gave_up) = attempt_of old.phase attempt named in
    let (done, left) =
      settled (record_cleanup task result s) t id old fresh result phase agree here gave_up h₂ in
    (done, old, here, same_task, e, left)
