-- ===== src/Store/Agreement.antt =====
-- Runs and jobs agree after the operations on a run that has not ended, and after cleanup
-- (src/store/queue/runs.rs).
use homebased.Base.{◌≡◌, sym, ap, ◌∙◌, subst, true, Option, none, some, arith, ok, >>=-ok}
use homebased.Ids.{TaskId, ResourceId, Time}
use homebased.Error.{queue, stale_run, no_active_run}
use homebased.Queue.StopCause.{StopCause}
use homebased.Queue.Run.{ActiveRun, RunPhase, holds_job, stop_cause}
use homebased.Store.Types.{Tables}
use homebased.Store.Access.{require_run, require_resource, set_run, write_run, stale}
use homebased.Store.Updates.{put}
use homebased.Store.Invariant.{Holds, RunsAgree, put-Holds}
use homebased.Store.Preserved.{Holds-unique, RunsAgree-rephased}
use homebased.Store.Requests.{
  mark_run_executing, started, request_stop, stopped, the_run, record_stop,
}
use homebased.Store.Steps.{Agrees, ok_or-ok, require_resource-ok, require_run-ok, write_run-ok}

-- A run that is written back with a phase that holds its job as before.
pub write_run-Agrees :
    (s t : Tables) (id : ResourceId) (old stored : ActiveRun) (phase : RunPhase)
    → Agrees s
    → Holds s.resources id old
    → holds_job phase ≡ holds_job old.phase
    → write_run (record old { phase = phase }) s ≡ ok (stored, t)
    → Agrees t × (stored ≡ record old { phase = phase }) × Holds t.resources id stored
unfolding Agrees set_run put
write_run-Agrees s t id old stored phase agree here same h =
    let run : ActiveRun = record old { phase = phase } in
    let (e, kept) = write_run-ok run s stored t h in
    let home : old.resource ≡ id = agree.home id old here in
    let u = set_run (some run) id s in
    let to : t ≡ u = e ∙ ap (λ k. set_run (some run) k s) home in
    let (r, found, q) = here in
    (
      subst (λ (v : Tables). RunsAgree v.resources v.jobs) (sym to)
          (RunsAgree-rephased s.resources s.jobs agree id old here phase same),
      Holds-unique u.resources id stored run
          (subst (λ (v : Tables). Holds v.resources id stored) to
            (subst (λ k. Holds t.resources k stored) home kept))
          (put-Holds run id s.resources r found),
      subst (λ k. Holds t.resources k stored) home kept,
    )

started-holds :
    (id : ResourceId) (at : Time) (phase new : RunPhase)
    → started id at phase ≡ ok new
    → (holds_job phase ≡ true) × (holds_job new ≡ true)
unfolding started stale
started-holds id at phase new h = ground arith

stopped-holds :
    (id : ResourceId) (cause : StopCause) (now : Time) (phase new : RunPhase)
    → stopped id cause now phase ≡ ok new
    → (holds_job phase ≡ true) × (holds_job new ≡ true)
unfolding stopped stale
stopped-holds id cause now phase new h = ground arith

the_run-ok :
    (s : Tables) (id : ResourceId) (task : Option TaskId) (run : ActiveRun)
    → the_run s id task ≡ ok run
    → Holds s.resources id run
unfolding the_run
the_run-ok s id (some task) run h = (require_run-ok s id task run h).0
the_run-ok s id none run h =
    let (r, h₁, found) = >>=-ok _ (require_resource s id) h in
    (r, require_resource-ok s id r found, ok_or-ok r.run (queue (stale_run id no_active_run)) h₁)

-- The confirmed start of a run keeps runs and jobs in agreement. The run that it returns is the one
-- that the resource then has; it differs from the resource's old run of that task only in its phase,
-- and it holds its job.
pub mark_run_executing-Agrees :
    (s t : Tables) (id : ResourceId) (task : TaskId) (at : Time) (run : ActiveRun)
    → Agrees s
    → mark_run_executing id task at s ≡ ok (run, t)
    → Agrees t
      × Holds t.resources id run
      × (old : ActiveRun) × Holds s.resources id old
      × (old.task ≡ task)
      × (run ≡ record old { phase = run.phase })
      × (holds_job run.phase ≡ true)
unfolding mark_run_executing
mark_run_executing-Agrees s t id task at run agree h =
    let (old, h₁, found) = >>=-ok _ (require_run s id task) h in
    let (phase, h₂, moved) = >>=-ok _ (started id at old.phase) h₁ in
    let (here, same_task) = require_run-ok s id task old found in
    let (before, after) = started-holds id at old.phase phase moved in
    let (done, e, kept) =
      write_run-Agrees s t id old run phase agree here (after ∙ sym before) h₂ in
    (
      done,
      kept,
      old,
      here,
      same_task,
      e ∙ ap (λ p. record old { phase = p }) (sym (ap (λ (x : ActiveRun). x.phase) e)),
      ap (λ (x : ActiveRun). holds_job x.phase) e ∙ after,
    )

-- A stop that is accepted keeps runs and jobs in agreement. The run that it returns is the one that
-- the resource then has; it differs from the old run, which held its job, only in its phase, and that
-- is the phase that the stop leads to from the old one.
pub request_stop-Agrees :
    (s t : Tables) (id : ResourceId) (task : Option TaskId) (cause : StopCause) (now : Time)
    (run : ActiveRun)
    → Agrees s
    → request_stop id task cause now s ≡ ok (run, t)
    → Agrees t
      × Holds t.resources id run
      × (old : ActiveRun) × Holds s.resources id old
      × (holds_job old.phase ≡ true)
      × (run ≡ record old { phase = run.phase })
      × (stopped id cause now old.phase ≡ ok run.phase)
unfolding request_stop record_stop Agrees
request_stop-Agrees s t id task cause now run agree h =
    let (old, h₁, found) = >>=-ok _ (the_run s id task) h in
    let (phase, h₂, moved) = >>=-ok _ (stopped id cause now old.phase) h₁ in
    let here = the_run-ok s id task old found in
    let (before, after) = stopped-holds id cause now old.phase phase moved in
    let u = record_stop old.task (stop_cause phase) s in
    let (done, e, kept) =
      write_run-Agrees u t id old run phase agree here (after ∙ sym before) h₂ in
    let same_phase = ap (λ (x : ActiveRun). x.phase) e in
    (
      done,
      kept,
      old,
      here,
      before,
      e ∙ ap (λ p. record old { phase = p }) (sym same_phase),
      moved ∙ ap ok (sym same_phase),
    )
