-- ===== src/Store/Preserved.antt =====
-- Two of the ways in which the operations of src/store/queue/runs.rs change runs and jobs keep them in
-- agreement: a new phase, and the end of a run.
use homebased.Base.{
  ℕ, ◌≡◌, refl, sym, ap, ◌∙◌, subst, ◌≢◌, ◌⊎◌, inl, inr, true, false, List, some, arith, ◌==◌,
  Bool-cases,
}
use homebased.Ids.{ResourceId, JobId}
use homebased.Queue.Job.{active}
use homebased.Queue.Run.{ActiveRun, RunPhase, holds_job}
use homebased.Store.Types.{ResourceRecord, JobRecord}
use homebased.Store.Updates.{put}
use homebased.Store.Invariant.{
  some_inj, Holds, state_at, IsActiveOn, RunsAgree, Holds-put, put-Holds_other, put-Holds,
}

pub Holds-unique :
    (rs : List ResourceRecord) (id : ResourceId) (a b : ActiveRun)
    → Holds rs id a
    → Holds rs id b
    → a ≡ b
Holds-unique rs id a b (r, e, q) (r', e', q') =
    let same : r ≡ r' = some_inj (sym e ∙ e') in
    some_inj (sym q ∙ ap (λ (x : ResourceRecord). x.run) same ∙ q')

module _ (rs : List ResourceRecord) (js : List JobRecord) (agree : RunsAgree rs js) where
  -- Jobs whose states are the same.
  pub RunsAgree-jobs :
      (js' : List JobRecord) → ((k : JobId) → state_at js' k ≡ state_at js k) → RunsAgree rs js'
  RunsAgree-jobs js' same = record {
    home = agree.home;
    held = λ id run h p. same run.job ∙ agree.held id run h p;
    holder = λ k id a. agree.holder k id (sym (same k) ∙ a);
    one_run = agree.one_run;
  }

pub test_eq : (a b : ℕ) → (a == b) ≡ true → a ≡ b
test_eq a b h = ground arith

abbrev job_of : ActiveRun → JobId
job_of run = run.job

module _ (rs : List ResourceRecord) (id : ResourceId) (old : ActiveRun) (here : Holds rs id old)
    (phase : RunPhase) where
  -- The run with its new phase.
  abbrev pub rephased : ActiveRun
  rephased = record old { phase = phase }

  -- A run that is found after the write was there before, but for its phase on the resource written.
  pub Holds-rephased :
      (at : ResourceId) (run : ActiveRun)
      → Holds (put (some rephased) id rs) at run
      → (was : ActiveRun) × Holds rs at was
        × (was.resource ≡ run.resource)
        × (was.job ≡ run.job)
        × (((at ≡ id) × (rephased ≡ run)) ⊎ (((at == id) ≡ false) × (was ≡ run)))
  Holds-rephased at run h = elim (Holds-put (some rephased) id at rs run h) [
    | inl (e, q) ↦
        let new : rephased ≡ run = some_inj q in
        (
          old,
          subst (λ k. Holds rs k old) (sym e) here,
          ap (λ (x : ActiveRun). x.resource) new,
          ap (λ (x : ActiveRun). x.job) new,
          inl (e, new),
        )
    | inr (apart, was) ↦ (run, was, refl, refl, inr (apart, refl))
  ]

  rephased_here : Holds (put (some rephased) id rs) id rephased
  rephased_here = let (r, e, q) = here in put-Holds rephased id rs r e

module _ (rs : List ResourceRecord) (js : List JobRecord) (agree : RunsAgree rs js)
    (id : ResourceId) (old : ActiveRun) (here : Holds rs id old) (phase : RunPhase) where
  home_rephased :
      (at : ResourceId) (run : ActiveRun)
      → Holds (put (some (rephased rs id old here phase)) id rs) at run
      → run.resource ≡ at
  home_rephased at run h =
      let (was, w, e, j, c) = Holds-rephased rs id old here phase at run h in
      sym e ∙ agree.home at was w

  one_rephased :
      (at other : ResourceId) (run run' : ActiveRun)
      → Holds (put (some (rephased rs id old here phase)) id rs) at run
      → Holds (put (some (rephased rs id old here phase)) id rs) other run'
      → run.job ≡ run'.job
      → at ≡ other
  one_rephased at other run run' h h' e =
      let (was, w, r, j, c) = Holds-rephased rs id old here phase at run h in
      let (was', w', r', j', c') = Holds-rephased rs id old here phase other run' h' in
      agree.one_run at other was was' w w' (j ∙ e ∙ sym j')

  -- Another phase that holds the job exactly if the old one does.
  pub RunsAgree-rephased :
      holds_job phase ≡ holds_job old.phase
      → RunsAgree (put (some (rephased rs id old here phase)) id rs) js
  RunsAgree-rephased same = record {
    home = home_rephased;
    held = λ at run h p.
        let (was, w, r, j, c) = Holds-rephased rs id old here phase at run h in
        elim c [
          | inl (e, q) ↦
              let holds : holds_job old.phase ≡ true =
                sym same ∙ (ap (λ (x : ActiveRun). holds_job x.phase) q ∙ p) in
              subst (λ k. IsActiveOn js k at) (ap job_of q)
                (subst (λ k. IsActiveOn js old.job k) (sym e) (agree.held id old here holds))
          | inr (apart, q) ↦
              subst (λ k. IsActiveOn js k at) j
                (agree.held at was w (ap (λ (x : ActiveRun). holds_job x.phase) q ∙ p))
        ];
    holder = λ k at a.
        let (run, h, j, p) = agree.holder k at a in
        elim (Bool-cases (at == id)) [
          | inl t ↦
              let e : at ≡ id = test_eq at id t in
              let is_old : run ≡ old =
                Holds-unique rs id run old (subst (λ i. Holds rs i run) e h) here in
              (
                rephased rs id old here phase,
                subst
                    (λ i.
                      Holds (put (some (rephased rs id old here phase)) id rs) i
                        (rephased rs id old here phase))
                    (sym e) (rephased_here rs id old here phase),
                sym (ap job_of is_old) ∙ j,
                same ∙ (sym (ap (λ (x : ActiveRun). holds_job x.phase) is_old) ∙ p),
              )
          | inr apart ↦ (
            run,
            put-Holds_other (some (rephased rs id old here phase)) id at rs run apart h,
            j,
            p,
          )
        ];
    one_run = one_rephased;
  }

  -- A phase that gives up the job, which is active no more, while every other job keeps its state.
  pub RunsAgree-ended :
      (js' : List JobRecord)
      → holds_job phase ≡ false
      → ((at : ResourceId) → state_at js' old.job ≢ some (active at))
      → ((k : JobId) → (k == old.job) ≡ false → state_at js' k ≡ state_at js k)
      → RunsAgree (put (some (rephased rs id old here phase)) id rs) js'
  RunsAgree-ended js' ends gone keep = record {
    home = home_rephased;
    held = λ at run h p.
        let (was, w, r, j, c) = Holds-rephased rs id old here phase at run h in
        elim c [
          | inl (e, q) ↦ absurd (cc (sym ends ∙ (ap (λ (x : ActiveRun). holds_job x.phase) q ∙ p)))
          | inr (apart, q) ↦ elim (Bool-cases (run.job == old.job)) [
            | inl t ↦
                let one = agree.one_run at id was old w here (j ∙ test_eq run.job old.job t) in
                absurd (ground arith)
            | inr other ↦
                keep run.job other
                ∙ subst (λ k. IsActiveOn js k at) j
                    (agree.held at was w (ap (λ (x : ActiveRun). holds_job x.phase) q ∙ p))
          ]
        ];
    holder = λ k at a. elim (Bool-cases (k == old.job)) [
      | inl t ↦ absurd (gone at (subst (λ i. IsActiveOn js' i at) (test_eq k old.job t) a))
      | inr other ↦
          let (run, h, j, p) = agree.holder k at (sym (keep k other) ∙ a) in
          elim (Bool-cases (at == id)) [
            | inl t ↦
                let is_old : run ≡ old =
                  Holds-unique rs id run old (subst (λ i. Holds rs i run) (test_eq at id t) h)
                    here in
                let same_job : k ≡ old.job = sym j ∙ ap job_of is_old in absurd (ground arith)
            | inr apart ↦ (
              run,
              put-Holds_other (some (rephased rs id old here phase)) id at rs run apart h,
              j,
              p,
            )
          ]
    ];
    one_run = one_rephased;
  }
