-- ===== src/Store/SubmitAgrees.antt =====
-- A submission starts no run (src/store/queue/jobs.rs).
use homebased.Base.{
  ℕ, ◌≡◌, ◌∙◌, sym, subst, refl, false, ◌∷◌, none, Bool-cases, inl, inr, Result, ok, ◌==◌, ==_iff,
}
use homebased.Error.{AppError}
use homebased.Ids.{JobId, ResourceId}
use homebased.Queue.Job.{queued, active}
use homebased.Store.Types.{JobRecord, Tables}
use homebased.Store.Invariant.{at_job, IsActiveOn, some_inj}
use homebased.Store.Steps.{Agrees}
use homebased.Store.Submit.{JobSpec, NewJob, JobAccepted, submit_job}
use homebased.Store.SubmitLaws.{back_row, submit_job-ok}

not_active : (id : ResourceId) → queued false ≡ active id → ⊥
not_active id h = cc h

-- A job that is there is still found behind a new one.
known :
    (s : Tables) (row : JobRecord)
    → at_job s.jobs row.id ≡ none
    → (k : JobId) (id : ResourceId) → IsActiveOn s.jobs k id
    → IsActiveOn (row ∷ s.jobs) k id
known s row fresh k id a = elim (Bool-cases (row.id == k)) [
  | inl same ↦
      let gone : at_job s.jobs k ≡ none =
        subst (λ (i : JobId). at_job s.jobs i ≡ none) ((==_iff row.id k).0 same) fresh in
      cc (rw gone at a)
  | inr apart ↦ rw apart a
]

-- A new job that waits changes the state of no other job.
waiting-Agrees :
    (s : Tables) (row : JobRecord)
    → at_job s.jobs row.id ≡ none
    → row.state ≡ queued false
    → Agrees s
    → Agrees (record s { jobs = row ∷ s.jobs })
unfolding Agrees
waiting-Agrees s row fresh waits agree = record {
  home = agree.home;
  held = λ id run h p. known s row fresh run.job id (agree.held id run h p);
  holder = λ k id a. agree.holder k id (elim (Bool-cases (row.id == k)) [
    | inl same ↦ absurd (not_active id (sym waits ∙ some_inj (rw same at a)))
    | inr apart ↦ rw apart at a
  ]);
  one_run = agree.one_run;
}

-- A submission keeps runs and jobs in agreement.
pub submit_job-Agrees :
    (digest : JobSpec → Result ℕ AppError) (new : NewJob) (s t : Tables) (a : JobAccepted)
    → Agrees s
    → submit_job digest new s ≡ ok (a, t)
    → Agrees t
unfolding homebased.Store.Submit.new_record
submit_job-Agrees digest new s t a agree h =
    let (content, _, _, _, _, _, way) = submit_job-ok digest new s t a h in
    elim way [
      | inl same ↦ subst Agrees (sym same) agree
      | inr done ↦
          subst Agrees (sym done.tables)
            (waiting-Agrees s (back_row new content done.target s) done.fresh refl agree)
    ]
