-- ===== src/Store/FinishLaws.antt =====
-- The end of a run moves its job and keeps runs and jobs in agreement (src/store/queue/runs.rs).
use homebased.Base.{
  ◌≡◌, refl, sym, ap, ◌∙◌, subst, ◌≢◌, Bool, true, false, Option, none, some, arith, ◌==◌, ok,
  >>=-ok, if◌then◌else◌,
}
use homebased.Ids.{ResourceId, JobId, MachineId}
use homebased.Domain.ExitReason.{ExitReason}
use homebased.Queue.Priority.{Priority}
use homebased.Queue.Job.{JobState, active, is_terminal}
use homebased.Queue.Run.{ActiveRun, cleaning}
use homebased.Queue.Classify.{JobTransition}
use homebased.Store.Types.{JobRecord, JobEventKind, Tables}
use homebased.Store.Access.{set_run, write_run}
use homebased.Store.Updates.{put}
use homebased.Store.Invariant.{Holds, RunsAgree, at_job, state_at, put-Holds}
use homebased.Store.Preserved.{RunsAgree-ended, RunsAgree-jobs}
use homebased.Store.Levels.{renumber_level}
use homebased.Store.Events.{append_job_event, event_run}
use homebased.Store.Finish.{after_run, leave_run, end_event, finish_run}
use homebased.Store.States.{state_at-set, renumber_level-state, append_job_event-state}
use homebased.Store.Steps.{Agrees, write_run-ok}

after_run-inactive :
    (run : ActiveRun) (transition : Option JobTransition) (at : ResourceId)
    → (after_run run transition).state ≢ active at
unfolding after_run
after_run-inactive run transition at h = ground arith

closed :
    (test : Bool) (machine : MachineId) (p : Priority) (s t : Tables)
    → (if test then renumber_level machine p s else ok s) ≡ ok t
    → ((k : JobId) → state_at t.jobs k ≡ state_at s.jobs k) × (t.resources ≡ s.resources)
closed true machine p s t h = renumber_level-state machine p s t h
closed false machine p s t h =
    let e : t ≡ s = ground arith in
    (λ k. ap (λ (u : Tables). state_at u.jobs k) e, ap (λ (u : Tables). u.resources) e)

end_event-state :
    (run : ActiveRun) (id : JobId) (kind : Option JobEventKind) (process : Option ExitReason)
    (s t : Tables)
    → end_event run id kind process s ≡ ok t
    → ((k : JobId) → state_at t.jobs k ≡ state_at s.jobs k) × (t.resources ≡ s.resources)
unfolding end_event
end_event-state run id none process s t h =
    let e : t ≡ s = ground arith in
    (λ k. ap (λ (u : Tables). state_at u.jobs k) e, ap (λ (u : Tables). u.resources) e)
end_event-state run id (some kind) process s t h =
    let ((event, u), h₁, told) =
      >>=-ok _ (append_job_event id kind (some (event_run run)) process none s) h in
    let e : t ≡ u = ground arith in
    let (states, same) =
      append_job_event-state id kind (some (event_run run)) process none s u event told in
    (
      λ k. ap (λ (w : Tables). state_at w.jobs k) e ∙ states k,
      ap (λ (w : Tables). w.resources) e ∙ same,
    )

-- The end of a run that holds its job keeps runs and jobs in agreement: the job takes the state that
-- follows from the end, and the resource keeps the run, in the first attempt of its cleanup.
pub finish_run-Agrees :
    (s t : Tables) (at : ResourceId) (run : ActiveRun) (j : JobRecord)
    (transition : Option JobTransition) (process : Option ExitReason)
    → Agrees s
    → Holds s.resources at run
    → at_job s.jobs run.job ≡ some j
    → j.id ≡ run.job
    → finish_run run j transition process s ≡ ok t
    → Agrees t
      × Holds t.resources at (record run { phase = cleaning 1 })
      × (state_at t.jobs run.job ≡ some ((after_run run transition).state))
unfolding finish_run leave_run Agrees set_run put
finish_run-Agrees s t at run j transition process agree here is_job same_id h =
    let after = after_run run transition in
    let left = leave_run j.id after s in
    let (u, h₁, close) =
      >>=-ok _
        (if is_terminal after.state then renumber_level j.machine j.priority left else ok left) h in
    let ((stored, v), h₂, wrote) = >>=-ok _ (write_run (record run { phase = cleaning 1 }) u) h₁ in
    let (states_u, same_u) = closed (is_terminal after.state) j.machine j.priority left u close in
    let (e, _) = write_run-ok (record run { phase = cleaning 1 }) u stored v wrote in
    let (states_t, same_t) = end_event-state run j.id after.event process v t h₂ in
    let set : JobRecord → JobRecord = λ j. record j {
      state = after.state;
      step = after.step;
      position = if is_terminal after.state then none else j.position;
    } in
    let (now, keep) = state_at-set set j.id after.state s.jobs (λ j. refl) (λ j. refl) in
    let ended_there = now j (ap (λ k. at_job s.jobs k) same_id ∙ is_job) in
    let ended : state_at u.jobs run.job ≡ some after.state =
      subst (λ k. state_at u.jobs k ≡ some after.state) same_id (states_u j.id ∙ ended_there) in
    let kept : (k : JobId) → (k == run.job) ≡ false → state_at u.jobs k ≡ state_at s.jobs k =
      λ k apart. states_u k ∙ keep k (subst (λ i. (k == i) ≡ false) (sym same_id) apart) in
    let written = put (some (record run { phase = cleaning 1 })) at s.resources in
    let to : v.resources ≡ written =
      ap (λ (w : Tables). w.resources) e
      ∙ ap (λ k. put (some (record run { phase = cleaning 1 })) k u.resources)
          (agree.home at run here)
      ∙ ap (λ rs. put (some (record run { phase = cleaning 1 })) at rs) same_u in
    let jobs_v : v.jobs ≡ u.jobs = ap (λ (w : Tables). w.jobs) e in
    let done : RunsAgree written u.jobs =
      RunsAgree-ended s.resources s.jobs agree at run here (cleaning 1) u.jobs refl
        (λ other q. after_run-inactive run transition other (some_state (sym ended ∙ q))) kept in
    let (r, found, q) = here in
    (
      subst (λ rs. RunsAgree rs t.jobs) (sym (same_t ∙ to))
          (RunsAgree-jobs written u.jobs done t.jobs
            (λ k. states_t k ∙ ap (λ js. state_at js k) jobs_v)),
      subst (λ rs. Holds rs at (record run { phase = cleaning 1 })) (sym (same_t ∙ to))
          (put-Holds (record run { phase = cleaning 1 }) at s.resources r found),
      states_t run.job ∙ ap (λ js. state_at js run.job) jobs_v ∙ ended,
    )
  where
    some_state : {a b : JobState} → some a ≡ some b → a ≡ b
    some_state h = ground arith
