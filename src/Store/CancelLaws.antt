-- ===== src/Store/CancelLaws.antt =====
-- What a person's cancel does to a job (src/store/queue/jobs.rs).
use homebased.Base.{
  ◌≡◌, refl, sym, ap, ◌∙◌, subst, ◌≢◌, inl, inr, Bool, true, false, ◌==◌, List, none, some, arith,
  ok, >>=-ok, ensure-ok, map_or, find-In, Bool-cases,
}
use homebased.Ids.{MachineId, JobId, ResourceId, Time}
use homebased.Error.{queue, invariant, cannot_end_as}
use homebased.Queue.StopCause.{user_cancel}
use homebased.Queue.Job.{
  JobState, queued, active, succeeded, failed, cancelled, is_terminal, state_as_str,
}
use homebased.Queue.Run.{ActiveRun, stop_cause}
use homebased.Store.Types.{JobRecord, ResourceRecord, job_cancelled, Tables}
use homebased.Store.Access.{update, require_machine_job}
use homebased.Store.Events.{append_job_event}
use homebased.Store.Requests.{request_stop, stopped}
use homebased.Store.Invariant.{Holds, RunsAgree, at_job, state_at, IsActiveOn}
use homebased.Store.Preserved.{RunsAgree-jobs}
use homebased.Store.States.{state_at-set, renumber_level-state, append_job_event-state}
use homebased.Store.Steps.{Agrees}
use homebased.Store.Agreement.{request_stop-Agrees}
use homebased.Store.ReserveLaws.{require_machine_job-ok}
use homebased.Store.Cancel.{
  CancelResult, cancelled_at_once, stopping_run, already_terminal, end_job, cancel_in, apply_cancel,
}

-- The states of a job before and after a cancel.
abbrev pub Cancelled : Tables → Tables → JobId → CancelResult → Type 0
Cancelled s t id cancelled_at_once =
    ((resume : Bool) × (state_at s.jobs id ≡ some (queued resume)))
    × (state_at t.jobs id ≡ some cancelled)
Cancelled s t id (stopping_run at task) =
    (state_at s.jobs id ≡ some (active at))
    × (run : ActiveRun) × Holds t.resources at run
    × (run.task ≡ task)
    × (stop_cause run.phase ≡ some user_cancel)
Cancelled s t id (already_terminal name) =
    (state : JobState) × (state_at s.jobs id ≡ some state)
    × (is_terminal state ≡ true)
    × (name ≡ state_as_str state)
    × (t ≡ s)

stopped-user_cancel :
    (id : ResourceId) (now : Time) (phase new : _)
    → stopped id user_cancel now phase ≡ ok new
    → stop_cause new ≡ some user_cancel
unfolding stopped
stopped-user_cancel id now phase new h = ground arith

test_id : (a b : JobId) → (a == b) ≡ true → a ≡ b
test_id a b h = ground arith

-- A job that is not active, and is not active after a change that keeps every other state.
RunsAgree-inactive :
    (rs : List ResourceRecord) (js : List JobRecord)
    → RunsAgree rs js
    → (id : JobId) (js' : List JobRecord) → ((at : ResourceId) → state_at js id ≢ some (active at))
    → ((at : ResourceId) → state_at js' id ≢ some (active at))
    → ((k : JobId) → (k == id) ≡ false → state_at js' k ≡ state_at js k)
    → RunsAgree rs js'
RunsAgree-inactive rs js agree id js' before after keep = record {
  home = agree.home;
  held = λ at run h p.
      let was = agree.held at run h p in
      elim (Bool-cases (run.job == id)) [
        | inl t ↦ absurd (before at (subst (λ k. IsActiveOn js k at) (test_id run.job id t) was))
        | inr apart ↦ keep run.job apart ∙ was
      ];
  holder = λ k at a. elim (Bool-cases (k == id)) [
    | inl t ↦ absurd (after at (subst (λ i. IsActiveOn js' i at) (test_id k id t) a))
    | inr apart ↦ agree.holder k at (sym (keep k apart) ∙ a)
  ];
  one_run = agree.one_run;
}

-- The states of the queue after the end of one job.
ended :
    (s t : Tables) (id : JobId) (j : JobRecord)
    → Agrees s
    → at_job s.jobs id ≡ some j
    → ((at : ResourceId) → j.state ≢ active at)
    → end_job j cancelled s ≡ ok t
    → Agrees t × (state_at t.jobs id ≡ some cancelled)
unfolding end_job Agrees
ended s t id j agree is_job inactive h =
    let (_, h₁) = ensure-ok true (queue (invariant (cannot_end_as j.id "cancelled"))) _ h in
    let set : JobRecord → JobRecord = λ k. record k { state = cancelled; position = none } in
    let left : Tables = record s { jobs = update (λ k. k.id == j.id) set s.jobs } in
    let same_id : j.id ≡ id = test_id j.id id (find-In (λ x. x.id == id) s.jobs is_job).1 in
    let (now, keep) = state_at-set set j.id cancelled s.jobs (λ k. refl) (λ k. refl) in
    let (states, same) = renumber_level-state j.machine j.priority left t h₁ in
    let here : state_at t.jobs id ≡ some cancelled =
      subst (λ k. state_at t.jobs k ≡ some cancelled) same_id
        (states j.id ∙ now j (ap (λ k. at_job s.jobs k) same_id ∙ is_job)) in
    let was : state_at s.jobs id ≡ some j.state =
      ap (λ o. map_or o none (λ (j : JobRecord). some j.state)) is_job in
    let elsewhere : (k : JobId) → (k == id) ≡ false → state_at t.jobs k ≡ state_at s.jobs k =
      λ k apart. states k ∙ keep k (subst (λ i. (k == i) ≡ false) (sym same_id) apart) in
    (
      subst (λ rs. RunsAgree rs t.jobs) (sym same)
          (RunsAgree-inactive s.resources s.jobs agree id t.jobs
            (λ at q. inactive at (same_state (sym was ∙ q)))
            (λ at q. not_active at (same_state (sym here ∙ q))) elsewhere),
      here,
    )
  where
    same_state : {a b : JobState} → some a ≡ some b → a ≡ b
    same_state h = ground arith

    not_active : (at : ResourceId) → cancelled ≢ active at
    not_active at h = ground arith

state_of_job :
    (s : Tables) (id : JobId) (j : JobRecord) (state : JobState)
    → at_job s.jobs id ≡ some j
    → j.state ≡ state
    → state_at s.jobs id ≡ some state
state_of_job s id j state is_job is_state =
    ap (λ o. map_or o none (λ (j : JobRecord). some j.state)) is_job ∙ ap some is_state

cancel_in-Agrees :
    (s t : Tables) (id : JobId) (j : JobRecord) (state : JobState) (now : Time)
    (result : CancelResult)
    → Agrees s
    → at_job s.jobs id ≡ some j
    → j.id ≡ id
    → j.state ≡ state
    → cancel_in j state now s ≡ ok (result, t)
    → Agrees t × Cancelled s t id result
unfolding cancel_in Agrees
cancel_in-Agrees s t id j succeeded now result agree is_job same_id is_state h =
    let (e, f) : (already_terminal "succeeded" ≡ result) × (s ≡ t) = (ground arith, ground arith) in
    (
      subst Agrees f agree,
      subst (Cancelled s t id) e
          (succeeded, state_of_job s id j succeeded is_job is_state, refl, refl, sym f),
    )
cancel_in-Agrees s t id j (failed run) now result agree is_job same_id is_state h =
    let (e, f) : (already_terminal "failed" ≡ result) × (s ≡ t) = (ground arith, ground arith) in
    (
      subst Agrees f agree,
      subst (Cancelled s t id) e
          ((failed run), state_of_job s id j (failed run) is_job is_state, refl, refl, sym f),
    )
cancel_in-Agrees s t id j cancelled now result agree is_job same_id is_state h =
    let (e, f) : (already_terminal "cancelled" ≡ result) × (s ≡ t) = (ground arith, ground arith) in
    (
      subst Agrees f agree,
      subst (Cancelled s t id) e
          (cancelled, state_of_job s id j cancelled is_job is_state, refl, refl, sym f),
    )
cancel_in-Agrees s t id j (queued resume) now result agree is_job same_id is_state h =
    let (u, h₁, out) = >>=-ok _ (end_job j cancelled s) h in
    let ((event, v), h₂, told) =
      >>=-ok _ (append_job_event j.id job_cancelled none none none u) h₁ in
    let (e, f) : (cancelled_at_once ≡ result) × (v ≡ t) = (ground arith, ground arith) in
    let (done, ends) =
      ended s u id j agree is_job (λ at q. queued_not_active at (sym is_state ∙ q)) out in
    let (states, same) = append_job_event-state j.id job_cancelled none none none u v event told in
    (
      subst Agrees f (
          subst (λ rs. RunsAgree rs v.jobs) (sym same)
            (RunsAgree-jobs u.resources u.jobs done v.jobs states)),
      subst (Cancelled s t id) e (
        (resume, state_of_job s id j (queued resume) is_job is_state),
        subst (λ (w : Tables). state_at w.jobs id ≡ some cancelled) f (states id ∙ ends),
      ),
    )
  where
    queued_not_active : (at : ResourceId) → queued resume ≢ active at
    queued_not_active at h = ground arith
cancel_in-Agrees s t id j (active at) now result agree is_job same_id is_state h =
    let ((run, u), h₁, asked) = >>=-ok _ (request_stop at none user_cancel now s) h in
    let (e, f) : (stopping_run at run.task ≡ result) × (u ≡ t) = (ground arith, ground arith) in
    let (done, kept, old, here, holds, same, phase) =
      request_stop-Agrees s u at none user_cancel now run agree asked in
    (
      subst Agrees f done,
      subst (Cancelled s t id) e (
        state_of_job s id j (active at) is_job is_state,
        run,
        subst (λ (w : Tables). Holds w.resources at run) f kept,
        refl,
        stopped-user_cancel at now old.phase run.phase phase,
      ),
    )

-- A cancel that succeeds keeps runs and jobs in agreement, and its answer tells the state that the job
-- was in. A queued job is cancelled at once; the run of an active job is asked to stop, and its cause is
-- then the cancel, whatever it was before; and only of a job that has ended does it say so, by the name of
-- the state, and then nothing changes.
pub apply_cancel-Agrees :
    (s t : Tables) (machine : MachineId) (id : JobId) (now : Time) (result : CancelResult)
    → Agrees s
    → apply_cancel machine id now s ≡ ok (result, t)
    → Agrees t × Cancelled s t id result
unfolding apply_cancel
apply_cancel-Agrees s t machine id now result agree h =
    let (j, h₁, found) = >>=-ok _ (require_machine_job s machine id) h in
    let is_job = require_machine_job-ok s machine id j found in
    cancel_in-Agrees s t id j j.state now result agree is_job
      (test_id j.id id (find-In (λ x. x.id == id) s.jobs is_job).1) refl h₁
