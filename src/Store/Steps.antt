-- ===== src/Store/Steps.antt =====
-- What the shared steps of src/store/queue/runs.rs did when they succeeded.
use homebased.Base.{
  ◌≡◌, sym, ap, ◌∙◌, subst, inl, inr, Option, none, some, arith, ◌==◌, Bool-cases, ok, >>=-ok,
  ok_or,
}
use homebased.Ids.{TaskId, ResourceId}
use homebased.Error.{AppError, queue, resource_not_found, stale_run, no_active_run}
use homebased.Queue.Run.{ActiveRun}
use homebased.Store.Types.{ResourceRecord, Tables}
use homebased.Store.Access.{require_resource, resource, require_run, stale, set_run, write_run}
use homebased.Store.Updates.{at_resource}
use homebased.Store.Invariant.{Holds, RunsAgree}

-- The runs and the jobs of the tables agree.
unfoldable pub Agrees : Tables → Type 0
Agrees s = RunsAgree s.resources s.jobs

pub ok_or-ok : {A : Type 0} (o : Option A) (e : AppError) {a : A} → ok_or o e ≡ ok a → o ≡ some a
ok_or-ok none e h = cc
ok_or-ok (some x) e h = ground arith

pub require_resource-ok :
    (s : Tables) (id : ResourceId) (r : ResourceRecord)
    → require_resource s id ≡ ok r
    → at_resource s.resources id ≡ some r
unfolding require_resource resource
require_resource-ok s id r h =
    ok_or-ok (at_resource s.resources id) (queue (resource_not_found id)) h

pub require_run-ok :
    (s : Tables) (id : ResourceId) (task : TaskId) (run : ActiveRun)
    → require_run s id task ≡ ok run
    → Holds s.resources id run × (run.task ≡ task)
unfolding require_run stale
require_run-ok s id task run h =
    let (r, h₁, found) = >>=-ok _ (require_resource s id) h in
    let (old, h₂, has) = >>=-ok _ (ok_or r.run (queue (stale_run id no_active_run))) h₁ in
    let q = ok_or-ok r.run (queue (stale_run id no_active_run)) has in
    elim (Bool-cases (old.task == task)) [
      | inl t ↦
          let same : old ≡ run = ground arith in
          (
            (r, require_resource-ok s id r found, q ∙ ap some same),
            sym (ap (λ (x : ActiveRun). x.task) same) ∙ (ground arith),
          )
      | inr f ↦ absurd (cc (rw f at h₂))
    ]

pub write_run-ok :
    (run : ActiveRun) (s : Tables) (stored : ActiveRun) (t : Tables)
    → write_run run s ≡ ok (stored, t)
    → (t ≡ set_run (some run) run.resource s) × (Holds t.resources run.resource stored)
unfolding write_run
write_run-ok run s stored t h =
    let u = set_run (some run) run.resource s in
    let (got, h₁, read) = >>=-ok _ (require_run u run.resource run.task) h in
    let (e, f) : (got ≡ stored) × (u ≡ t) = (ground arith, ground arith) in
    (
      sym f,
      subst (λ (v : Tables). Holds v.resources run.resource stored) f
          (subst (λ x. Holds u.resources run.resource x) e
            (require_run-ok u run.resource run.task got read).0),
    )
