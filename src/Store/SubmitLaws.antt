-- ===== src/Store/SubmitLaws.antt =====
-- A submission is accepted once, at the back of its level (src/store/queue/jobs.rs).
use homebased.Base.{
  ℕ, ◌+◌, ◌≡◌, ◌⊎◌, ◌∙◌, sym, ap, subst, refl, not, ◌&&◌, ◌∷◌, length, none, some, Option-cases,
  inl, inr, Result, ok, err, >>=-ok, ensure-ok, ◌==◌, ==_refl, arith, if◌then◌else◌,
}
use homebased.Ids.{JobId}
use homebased.Error.{AppError, constraint, queue, job_conflict}
use homebased.Queue.Job.{Target}
use homebased.Store.Types.{JobRecord, Tables}
use homebased.Store.Access.{job, require_job}
use homebased.Store.Invariant.{at_job, some_inj}
use homebased.Store.Levels.{level, sql_position}
use homebased.Store.Submit.{
  JobSpec, NewJob, JobAccepted, accepted, target_of, resubmit, new_record, slot_taken, insert_job,
  submit_job,
}

-- The row of a first submission: at the back of its level.
abbrev pub back_row : NewJob → ℕ → Target → Tables → JobRecord
back_row new digest target s =
    new_record new digest target (length (level s new.machine new.spec.priority) + 1)

-- The tables after a first submission: the new job at the back of its level, and nothing else.
pub record Enqueued (new : NewJob) (digest : ℕ) (s t : Tables) (a : JobAccepted) : Type 0 where
  pub fresh : at_job s.jobs new.id ≡ none
  pub target : Target
  pub resolved : target_of s new.machine new.spec.resource ≡ ok target
  pub tables : t ≡ record s { jobs = back_row new digest target s ∷ s.jobs }
  pub answer : a ≡ accepted (back_row new digest target s)

sql_position-ok : (n k : ℕ) → sql_position n ≡ ok k → k ≡ n
unfolding sql_position
sql_position-ok n k h = ground arith

-- The row that was inserted is the one that is read back.
read_back :
    (row j : JobRecord) (s : Tables)
    → require_job (record s { jobs = row ∷ s.jobs }) row.id ≡ ok j
    → j ≡ row
unfolding require_job job
read_back row j s h = let same = ==_refl row.id in ground arith

insert_job-Enqueued :
    (new : NewJob) (digest : ℕ) (s t : Tables) (a : JobAccepted)
    → at_job s.jobs new.id ≡ none
    → insert_job new digest s ≡ ok (a, t)
    → Enqueued new digest s t a
unfolding insert_job new_record
insert_job-Enqueued new digest s t a fresh h =
    let (target, h₁, e₁) = >>=-ok _ (target_of s new.machine new.spec.resource) h in
    let (position, h₂, e₂) =
      >>=-ok _ (sql_position (length (level s new.machine new.spec.priority) + 1)) h₁ in
    let (_, h₃) =
      ensure-ok (not (slot_taken s new.machine new.spec.priority position)) constraint _ h₂ in
    let row = new_record new digest target position in
    let u : Tables = record s { jobs = row ∷ s.jobs } in
    let (stored, h₄, found) = >>=-ok _ (require_job u new.id) h₃ in
    let (e, f) : (accepted stored ≡ a) × (u ≡ t) = (ground arith, ground arith) in
    let back = sql_position-ok (length (level s new.machine new.spec.priority) + 1) position e₂ in
    record {
      fresh = fresh;
      target = target;
      resolved = e₁;
      tables =
          sym f ∙ ap (λ (p : ℕ). record s { jobs = new_record new digest target p ∷ s.jobs }) back;
      answer =
          sym e
          ∙ ap accepted (read_back row stored s found)
          ∙ ap (λ (p : ℕ). accepted (new_record new digest target p)) back;
    }

-- A row that is of a submission.
abbrev pub OfSubmission : NewJob → ℕ → JobRecord → Type 0
OfSubmission new digest j =
    (j.digest ≡ digest) × (j.machine ≡ new.machine) × (j.origin ≡ new.origin)

resubmit-ok :
    (new : NewJob) (digest : ℕ) (j : JobRecord) (s t : Tables) (a : JobAccepted)
    → resubmit new digest j s ≡ ok (a, t)
    → OfSubmission new digest j × (a ≡ accepted j) × (t ≡ s)
unfolding resubmit
resubmit-ok new digest j s t a h = ground arith

resubmit-same :
    (new : NewJob) (digest : ℕ) (j : JobRecord) (s : Tables)
    → OfSubmission new digest j
    → resubmit new digest j s ≡ ok (accepted j, s)
unfolding resubmit
resubmit-same new digest j s same = ground arith

resubmit_lem :
    (new : NewJob) (digest : ℕ) (j : JobRecord) (s : Tables)
    → resubmit new digest j s ≡ (
        if (j.digest == digest) && ((j.machine == new.machine) && (j.origin == new.origin))
        then ok (accepted j, s)
        else err (queue (job_conflict new.id)))
unfolding resubmit
resubmit_lem new digest j s = ground arith

first_row :
    (row : JobRecord) (s : Tables)
    → at_job (record s { jobs = row ∷ s.jobs }).jobs row.id ≡ some row
first_row row s = rw (==_refl row.id) refl

ok_same : {a b : ℕ} → ◌≡◌ {A = Result ℕ AppError} (ok a) (ok b) → a ≡ b
ok_same h = ground arith

module _ (digest : JobSpec → Result ℕ AppError) where
  -- A submission that is accepted finds its job there, or puts it at the back of its level: then the
  -- level's jobs are counted, the resource it is pinned to is one of its machine, and nothing else changes.
  pub submit_job-ok :
      (new : NewJob) (s t : Tables) (a : JobAccepted)
      → submit_job digest new s ≡ ok (a, t)
      → (content : ℕ) × (digest new.spec ≡ ok content)
        × (j : JobRecord) × (at_job t.jobs new.id ≡ some j)
        × OfSubmission new content j
        × (a ≡ accepted j)
        × ((t ≡ s) ⊎ Enqueued new content s t a)
  unfolding submit_job job
  submit_job-ok new s t a h =
      let (content, h₁, e) = >>=-ok _ (digest new.spec) h in
      elim (Option-cases (at_job s.jobs new.id)) [
        | inl fresh ↦
            let done = insert_job-Enqueued new content s t a fresh (rw (fresh) at h₁) in
            (
              content,
              e,
              back_row new content done.target s,
              rw done.tables (first_row (back_row new content done.target s) s),
              (refl, refl, refl),
              done.answer,
              inr done,
            )
        | inr (j, found) ↦
            let (same, answer, left) = resubmit-ok new content j s t a (rw found at h₁) in
            (content, e, j, rw left found, same, answer, inl left)
      ]

  -- A submission that was accepted is not accepted twice. As long as the job's row keeps its identity,
  -- whatever became of the job, a retry gets the job as it is then, and changes nothing. Any submission
  -- under the id changes nothing: it is answered like a retry if the digest of its spec, its machine and
  -- its origin are those of the job, and it is a conflict if they are not.
  pub submit_job-again :
      (new other : NewJob) (s t u : Tables) (a : JobAccepted) (content d : ℕ) (i j : JobRecord)
      → submit_job digest new s ≡ ok (a, t)
      → digest new.spec ≡ ok content
      → at_job t.jobs new.id ≡ some i
      → at_job u.jobs new.id ≡ some j
      → (j.digest ≡ i.digest) × (j.machine ≡ i.machine) × (j.origin ≡ i.origin)
      → other.id ≡ new.id
      → digest other.spec ≡ ok d
      → (submit_job digest new u ≡ ok (accepted j, u))
        × (submit_job digest other u ≡ (
            if (j.digest == d) && ((j.machine == other.machine) && (j.origin == other.origin))
            then ok (accepted j, u)
            else err (queue (job_conflict new.id))))
  unfolding submit_job job
  submit_job-again new other s t u a content d i j h e at_t at_u same id_same e₂ =
      let (content', e', i', at_t', known, _, _) = submit_job-ok new s t a h in
      let one : content' ≡ content = ok_same (sym e' ∙ e) in
      let row : i' ≡ i = some_inj (sym at_t' ∙ at_t) in
      let kept : OfSubmission new content j = ground (arith, one, row, known, same) in
      let there : at_job u.jobs other.id ≡ some j =
        subst (λ (k : JobId). at_job u.jobs k ≡ some j) (sym id_same) at_u in
      (
        rw (e, at_u) (resubmit-same new content j u kept),
        rw (e₂, there) (resubmit_lem other d j u)
            ∙ ap
                (λ (k : JobId).
                  if (j.digest == d) && ((j.machine == other.machine) && (j.origin == other.origin))
                  then ok (accepted j, u)
                  else err (queue (job_conflict k)))
                id_same,
      )
