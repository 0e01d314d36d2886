-- ===== src/Store/Invariant.antt =====
-- The runs and the jobs of the tables agree: the invariant that src/store/queue.rs names, over the
-- tables of resources and jobs.
use homebased.Base.{
  ◌≡◌, refl, sym, ap, ◌∙◌, subst, ◌⊎◌, inl, inr, true, false, List, find, Option, none, some, arith,
  ◌==◌, map_or, Bool-cases, Option-cases,
}
use homebased.Ids.{ResourceId, JobId}
use homebased.Queue.Job.{JobState, active}
use homebased.Queue.Run.{ActiveRun, holds_job}
use homebased.Store.Types.{ResourceRecord, JobRecord}
use homebased.Store.Updates.{find-update, changed, at_resource, put, put_here, put_elsewhere}

abbrev pub at_job : List JobRecord → JobId → Option JobRecord
at_job js id = find (λ j. j.id == id) js

-- The resource `id` has the run.
abbrev pub Holds : List ResourceRecord → ResourceId → ActiveRun → Type 0
Holds rs id run = (r : ResourceRecord) × (at_resource rs id ≡ some r) × (r.run ≡ some run)

-- The state of the job `k`.
abbrev pub state_at : List JobRecord → JobId → Option JobState
state_at js k = map_or (at_job js k) none (λ j. some j.state)

-- The job `k` is active on the resource `id`.
abbrev pub IsActiveOn : List JobRecord → JobId → ResourceId → Type 0
IsActiveOn js k id = state_at js k ≡ some (active id)

-- A run names its resource; the job of a run that holds it is active on the run's resource; a job that
-- is active has such a run there; and no two resources have runs of one job.
pub record RunsAgree (rs : List ResourceRecord) (js : List JobRecord) : Type 0 where
  pub home : (id : ResourceId) (run : ActiveRun) → Holds rs id run → run.resource ≡ id
  pub held :
      (id : ResourceId) (run : ActiveRun)
      → Holds rs id run
      → holds_job run.phase ≡ true
      → IsActiveOn js run.job id
  pub holder :
      (k : JobId) (id : ResourceId)
      → IsActiveOn js k id
      → (run : ActiveRun) × Holds rs id run × (run.job ≡ k) × (holds_job run.phase ≡ true)
  pub one_run :
      (id other : ResourceId) (run run' : ActiveRun)
      → Holds rs id run
      → Holds rs other run'
      → run.job ≡ run'.job
      → id ≡ other

pub some_inj : {A : Type 0} {a b : A} → some a ≡ some b → a ≡ b
some_inj h = ground arith

-- A resource that is not there is not there after a write.
lost :
    (written : Option ActiveRun) (id : ResourceId) (rs : List ResourceRecord)
    → at_resource rs id ≡ none
    → (r : ResourceRecord) → at_resource (put written id rs) id ≡ some r
    → ⊥
unfolding put
lost written id rs gone r e = cc (
    sym e
    ∙ find-update (λ r. r.id) (λ r. r.id == id) (λ r. record r { run = written }) id rs (λ x. refl)
    ∙ ap (changed (λ r. r.id) (λ r. r.id == id) (λ r. record r { run = written })) gone)

-- A run that is found after a write is the written one, or is on another resource and was there.
pub Holds-put :
    (written : Option ActiveRun) (id other : ResourceId) (rs : List ResourceRecord)
    (run : ActiveRun)
    → Holds (put written id rs) other run
    → ((other ≡ id) × (written ≡ some run)) ⊎ (((other == id) ≡ false) × Holds rs other run)
Holds-put written id other rs run (r, e, q) = elim (Bool-cases (other == id)) [
  | inr apart ↦ inr (apart, (r, sym (put_elsewhere written id other rs apart) ∙ e, q))
  | inl t ↦
      let same : other ≡ id = ground arith in
      elim (Option-cases (at_resource rs id)) [
        | inl gone ↦ absurd (
            lost written id rs gone r
              (subst (λ k. at_resource (put written id rs) k ≡ some r) same e))
        | inr (old, was) ↦
            let e' = subst (λ k. at_resource (put written id rs) k ≡ some r) same e in
            let new : record old { run = written } ≡ r =
              some_inj (sym (put_here written id rs old was) ∙ e') in
            inl (same, ap (λ (x : ResourceRecord). x.run) new ∙ q)
      ]
]

pub put-Holds_other :
    (written : Option ActiveRun) (id other : ResourceId) (rs : List ResourceRecord)
    (run : ActiveRun)
    → (other == id) ≡ false
    → Holds rs other run
    → Holds (put written id rs) other run
put-Holds_other written id other rs run apart (r, e, q) =
    (r, put_elsewhere written id other rs apart ∙ e, q)

pub put-Holds :
    (run : ActiveRun) (id : ResourceId) (rs : List ResourceRecord) (r : ResourceRecord)
    → at_resource rs id ≡ some r
    → Holds (put (some run) id rs) id run
put-Holds run id rs r e = (record r { run = some run }, put_here (some run) id rs r e, refl)
