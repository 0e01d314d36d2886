-- ===== src/Store/ReserveLaws.antt =====
-- A reservation keeps runs and jobs in agreement (src/store/queue/runs.rs).
use homebased.Base.{
  ◌≡◌, refl, sym, ap, ◌∙◌, subst, ◌≢◌, inl, inr, Bool, true, false, Option, none, some, arith, ◌==◌,
  Option-cases, ok, >>=-ok, >>-ok, ensure-ok, ok_or, map_or, find, find-In, find-none,
}
use homebased.Ids.{TaskId, ResourceId, JobId, MachineId, Time}
use homebased.Error.{queue, job_not_found}
use homebased.Queue.Job.{JobState, active, queued, RunNumber, allows, get_step}
use homebased.Queue.Run.{ActiveRun, launching, holds_job}
use homebased.Store.Types.{ResourceRecord, JobRecord, Tables}
use homebased.Store.Access.{
  require_resource, require_job, require_machine_job, run_of_job, job, set_run, write_run,
}
use homebased.Store.Updates.{at_resource, put}
use homebased.Store.Invariant.{some_inj, Holds, RunsAgree, at_job, state_at, put-Holds}
use homebased.Store.Preserved.{Holds-unique}
use homebased.Store.Turnover.{RunsAgree-reserved}
use homebased.Store.Reserve.{
  queued_resume, idle, free_of_runs, attempt_number, insert_run_task, activate, start_history,
  reserve_run_inner,
}
use homebased.Store.States.{state_at-set}
use homebased.Store.Steps.{Agrees, ok_or-ok, require_resource-ok, write_run-ok}

pub require_job-ok :
    (s : Tables) (id : JobId) (j : JobRecord) → require_job s id ≡ ok j → at_job s.jobs id ≡ some j
unfolding require_job job
require_job-ok s id j h = ok_or-ok (at_job s.jobs id) (queue (job_not_found id)) h

pub require_machine_job-ok :
    (s : Tables) (machine : MachineId) (id : JobId) (j : JobRecord)
    → require_machine_job s machine id ≡ ok j
    → at_job s.jobs id ≡ some j
unfolding require_machine_job
require_machine_job-ok s machine id j h =
    let (found, h₁, e) = >>=-ok _ (require_job s id) h in
    let (_, h₂) = ensure-ok (found.machine == machine) _ _ h₁ in
    let same : found ≡ j = ground arith in require_job-ok s id found e ∙ ap some same

queued_resume-ok :
    (id : JobId) (state : JobState) (resume : Bool)
    → queued_resume id state ≡ ok resume
    → state ≡ queued resume
unfolding queued_resume
queued_resume-ok id state resume h = ground arith

idle-ok : (r : ResourceRecord) → idle r ≡ ok tt → r.run ≡ none
unfolding idle
idle-ok r h = ground arith

-- The run of the row that the search finds.
run_of : Option ResourceRecord → Option ActiveRun
run_of o = elim o [ none ↦ none | some r ↦ r.run ]

-- A job that `run_of_job` finds no run of has none on any resource.
run_of_job-none :
    (s : Tables) (id : JobId)
    → run_of_job s id ≡ none
    → (at : ResourceId) (run : ActiveRun) → Holds s.resources at run
    → run.job ≢ id
unfolding run_of_job run_of
run_of_job-none s id h at run (r, e, q) same =
    let test : ResourceRecord → Bool = λ r. map_or r.run false (λ run. run.job == id) in
    let member = (find-In (λ r. r.id == at) s.resources e).0 in
    elim (Option-cases (find test s.resources)) [
      | inl gone ↦
          let no : test r ≡ false = find-none test r s.resources gone member in
          absurd (ground (arith, q))
      | inr (other, found) ↦
          let yes : test other ≡ true = (find-In test s.resources found).1 in
          elim (Option-cases other.run) [
            | inl none_there ↦ absurd (cc (rw none_there at yes))
            | inr (held, has) ↦ absurd (cc (sym has ∙ subst (λ o. run_of o ≡ none) found h))
          ]
    ]

free_of_runs-ok : (s : Tables) (id : JobId) → free_of_runs s id ≡ ok tt → run_of_job s id ≡ none
unfolding free_of_runs
free_of_runs-ok s id h = elim (Option-cases (run_of_job s id)) [
  | inl e ↦ e
  | inr (run, e) ↦ absurd (cc (rw (e, free_of_runs) at h))
]

insert_run_task-ok :
    (task : TaskId) (j : JobRecord) (n : RunNumber) (s t : Tables)
    → insert_run_task task j n s ≡ ok t
    → (t.resources ≡ s.resources) × (t.jobs ≡ s.jobs)
unfolding insert_run_task
insert_run_task-ok task j n s t h = (ground arith, ground arith)

-- The writes of a reservation, once every check has passed.
reserved :
    (s u t : Tables) (at : ResourceId) (j : JobRecord) (r : ResourceRecord) (new run : ActiveRun)
    → Agrees s
    → at_job s.jobs new.job ≡ some j
    → at_resource s.resources at ≡ some r
    → r.run ≡ none
    → ((other : ResourceId) (held : ActiveRun) → Holds s.resources other held → held.job ≢ new.job)
    → new.resource ≡ at
    → holds_job new.phase ≡ true
    → (u.resources ≡ s.resources) × (u.jobs ≡ s.jobs)
    → write_run new (start_history new.task at (activate new.job at new.run_number u)) ≡ ok (run, t)
    → Agrees t
      × Holds t.resources at run
      × (run ≡ new)
      × (state_at t.jobs new.job ≡ some (active at))
unfolding activate start_history Agrees set_run put
reserved s u t at j r new run agree is_job there is_idle free home holds (same_rs, same_js) h =
    let v = start_history new.task at (activate new.job at new.run_number u) in
    let (e, kept) = write_run-ok new v run t h in
    let to : t ≡ set_run (some new) at v = e ∙ ap (λ k. set_run (some new) k v) home in
    let set : JobRecord → JobRecord = λ j. record j { state = active at; runs = new.run_number } in
    let (now, keep) = state_at-set set new.job (active at) u.jobs (λ j. refl) (λ j. refl) in
    let is_active = now j (ap (λ js. at_job js new.job) same_js ∙ is_job) in
    let there' : at_resource u.resources at ≡ some r =
      ap (λ rs. at_resource rs at) same_rs ∙ there in
    let agree_u : RunsAgree u.resources u.jobs =
      subst (λ rs. RunsAgree rs u.jobs) (sym same_rs)
        (subst (λ js. RunsAgree s.resources js) (sym same_js) agree) in
    let free_u : (other : ResourceId) (held : ActiveRun)
        → Holds u.resources other held
        → held.job ≢ new.job =
      λ other held k. free other held (subst (λ rs. Holds rs other held) same_rs k) in
    let here = subst (λ k. Holds t.resources k run) home kept in
    (
      subst (λ (w : Tables). RunsAgree w.resources w.jobs) (sym to)
          (RunsAgree-reserved u.resources u.jobs agree_u at r new v.jobs there' is_idle free_u home
            is_active keep holds),
      here,
      Holds-unique (set_run (some new) at v).resources at run new
          (subst (λ (w : Tables). Holds w.resources at run) to here)
          (put-Holds new at u.resources r there'),
      ap (λ (w : Tables). state_at w.jobs new.job) to ∙ is_active,
    )

-- A reservation keeps runs and jobs in agreement. The run that it returns is the one that the resource
-- then has, launching; its job is then active on that resource, and was queued, with the resume flag
-- of the run. The resource had no run before, and no resource had a run of the job.
pub reserve_run_inner-Agrees :
    (s t : Tables) (machine : MachineId) (id : JobId) (at : ResourceId) (task : TaskId) (now : Time)
    (run : ActiveRun)
    → Agrees s
    → reserve_run_inner machine id at task now s ≡ ok (run, t)
    → Agrees t
      × Holds t.resources at run
      × (run.phase ≡ launching now)
      × (state_at t.jobs id ≡ some (active at))
      × (state_at s.jobs id ≡ some (queued run.resume))
      × ((other : ActiveRun) → ¬ Holds s.resources at other)
      × ((other : ResourceId) (held : ActiveRun) → Holds s.resources other held → held.job ≢ id)
unfolding reserve_run_inner
reserve_run_inner-Agrees s t machine id at task now run agree h =
    let (j, h₁, found) = >>=-ok _ (require_machine_job s machine id) h in
    let (resume, h₂, queued_job) = >>=-ok _ (queued_resume id j.state) h₁ in
    let (r, h₃, there) = >>=-ok _ (require_resource s at) h₂ in
    let (own, h₄) = ensure-ok (r.machine == machine) _ _ h₃ in
    let (h₅, is_idle) = >>-ok _ (idle r) h₄ in
    let (allowed, h₆) = ensure-ok (allows j.target at) _ _ h₅ in
    let (h₇, free) = >>-ok _ (free_of_runs s id) h₆ in
    let (step, h₈, _) = >>=-ok _ (ok_or (get_step j.steps j.step) _) h₇ in
    let (n, h₉, _) = >>=-ok _ (attempt_number j) h₈ in
    let (u, wrote, inserted) = >>=-ok _ (insert_run_task task j n s) h₉ in
    let new : ActiveRun = record {
      resource = at;
      job = id;
      task = task;
      run_number = n;
      step = j.step;
      resume = resume;
      phase = launching now;
    } in
    let (done, here, e, is_active) =
      reserved s u t at j r new run agree (require_machine_job-ok s machine id j found)
        (require_resource-ok s at r there) (idle-ok r is_idle)
        (run_of_job-none s id (free_of_runs-ok s id free)) refl refl
        (insert_run_task-ok task j n s u inserted) wrote in
    (
      done,
      here,
      ap (λ (x : ActiveRun). x.phase) e,
      is_active,
      ap (λ o. map_or o none (λ (j : JobRecord). some j.state))
            (require_machine_job-ok s machine id j found)
          ∙ ap some (queued_resume-ok id j.state resume queued_job)
          ∙ ap (λ (x : ActiveRun). some (queued x.resume)) (sym e),
      λ other (r', e', q'). absurd (
          cc (
            sym q'
            ∙ ap (λ (x : ResourceRecord). x.run)
                (some_inj (sym e' ∙ require_resource-ok s at r there))
            ∙ idle-ok r is_idle)),
      run_of_job-none s id (free_of_runs-ok s id free),
    )
