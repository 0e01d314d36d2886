-- ===== src/Store/Turnover.antt =====
-- The other two ways in which the operations of src/store/queue/runs.rs change runs and jobs: a
-- reservation gives an idle resource a run, and a run that is cleaned up leaves its resource.
use homebased.Base.{
  ◌≡◌, sym, ap, ◌∙◌, subst, ◌≢◌, inl, inr, true, false, List, none, some, arith, ◌==◌, Bool-cases,
}
use homebased.Ids.{ResourceId, JobId}
use homebased.Queue.Job.{active}
use homebased.Queue.Run.{ActiveRun, holds_job}
use homebased.Store.Types.{ResourceRecord, JobRecord}
use homebased.Store.Updates.{at_resource, put}
use homebased.Store.Invariant.{
  some_inj, Holds, state_at, RunsAgree, Holds-put, put-Holds_other, put-Holds,
}
use homebased.Store.Preserved.{test_eq}

module _ (rs : List ResourceRecord) (js : List JobRecord) (agree : RunsAgree rs js)
    (id : ResourceId) where
  kept :
      (at : ResourceId) (run : ActiveRun)
      → Holds (put none id rs) at run
      → ((at == id) ≡ false) × Holds rs at run
  kept at run h = elim (Holds-put none id at rs run h) [
    | inl (e, q) ↦ absurd (cc q)
    | inr was ↦ was
  ]

  -- A resource whose run, if it has one, gave up its job.
  pub RunsAgree-cleared :
      ((run : ActiveRun) → Holds rs id run → holds_job run.phase ≡ false)
      → RunsAgree (put none id rs) js
  RunsAgree-cleared idle = record {
    home = λ at run h. agree.home at run (kept at run h).1;
    held = λ at run h p. agree.held at run (kept at run h).1 p;
    holder = λ k at a.
        let (run, h, j, p) = agree.holder k at a in
        elim (Bool-cases (at == id)) [
          | inl t ↦
              absurd (cc (sym (idle run (subst (λ i. Holds rs i run) (test_eq at id t) h)) ∙ p))
          | inr apart ↦ (run, put-Holds_other none id at rs run apart h, j, p)
        ];
    one_run = λ at other run run' h h' e.
        agree.one_run at other run run' (kept at run h).1 (kept other run' h').1 e;
  }

  -- A run of a job that has none, on a resource that has none, when the job becomes active on it and
  -- every other job keeps its state.
  pub RunsAgree-reserved :
      (r : ResourceRecord) (new : ActiveRun) (js' : List JobRecord)
      → at_resource rs id ≡ some r
      → r.run ≡ none
      → ((at : ResourceId) (run : ActiveRun) → Holds rs at run → run.job ≢ new.job)
      → new.resource ≡ id
      → state_at js' new.job ≡ some (active id)
      → ((k : JobId) → (k == new.job) ≡ false → state_at js' k ≡ state_at js k)
      → holds_job new.phase ≡ true
      → RunsAgree (put (some new) id rs) js'
  RunsAgree-reserved r new js' e idle free home_here now keep holds = record {
    home = λ at run h. elim (Holds-put (some new) id at rs run h) [
      | inl (i, q) ↦ sym (ap (λ (x : ActiveRun). x.resource) (some_inj q)) ∙ home_here ∙ sym i
      | inr (_, was) ↦ agree.home at run was
    ];
    held = λ at run h p. elim (Holds-put (some new) id at rs run h) [
      | inl (i, q) ↦
          subst (λ k. state_at js' k ≡ some (active at))
            (ap (λ (x : ActiveRun). x.job) (some_inj q))
            (subst (λ i'. state_at js' new.job ≡ some (active i')) (sym i) now)
      | inr (_, was) ↦ elim (Bool-cases (run.job == new.job)) [
        | inl t ↦ absurd (free at run was (test_eq run.job new.job t))
        | inr other ↦ keep run.job other ∙ agree.held at run was p
      ]
    ];
    holder = λ k at a. elim (Bool-cases (k == new.job)) [
      | inl t ↦
          let same : k ≡ new.job = test_eq k new.job t in
          let place : at ≡ id =
            active_inj
              (some_inj (sym (subst (λ i. state_at js' i ≡ some (active at)) same a) ∙ now)) in
          (
            new,
            subst (λ i. Holds (put (some new) id rs) i new) (sym place) (put-Holds new id rs r e),
            sym same,
            holds,
          )
      | inr other ↦
          let (run, h, j, p) = agree.holder k at (sym (keep k other) ∙ a) in
          elim (Bool-cases (at == id)) [
            | inl t ↦
                let (r', e', q') = subst (λ i. Holds rs i run) (test_eq at id t) h in
                let same : r' ≡ r = some_inj (sym e' ∙ e) in
                absurd (cc (sym q' ∙ (ap (λ (x : ResourceRecord). x.run) same ∙ idle)))
            | inr apart ↦ (run, put-Holds_other (some new) id at rs run apart h, j, p)
          ]
    ];
    one_run = λ at other run run' h h' same. elim (Holds-put (some new) id at rs run h) [
      | inl (i, q) ↦ elim (Holds-put (some new) id other rs run' h') [
        | inl (i', q') ↦ i ∙ sym i'
        | inr (_, was') ↦
            absurd
              (free other run' was' (sym same ∙ sym (ap (λ (x : ActiveRun). x.job) (some_inj q))))
      ]
      | inr (_, was) ↦ elim (Holds-put (some new) id other rs run' h') [
        | inl (i', q') ↦
            absurd (free at run was (same ∙ sym (ap (λ (x : ActiveRun). x.job) (some_inj q'))))
        | inr (_, was') ↦ agree.one_run at other run run' was was' same
      ]
    ];
  }
    where
      active_inj : {a b : ResourceId} → active a ≡ active b → a ≡ b
      active_inj h = ground arith
