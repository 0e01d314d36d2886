-- ===== src/Store/States.antt =====
-- Which updates of the jobs table (src/store/queue/jobs.rs, src/store/queue/runs.rs) change the state
-- of a job.
use homebased.Base.{
  ℕ, suc, ◌+◌, ◌≡◌, refl, ap, ◌∙◌, inl, inr, Bool, false, ◌&&◌, List, [], ◌∷◌, Option, none, some,
  arith, ◌==◌, map_or, is_some, Bool-cases, Option-cases, find-In, ok, >>=-ok, ok_or,
}
use homebased.Ids.{JobId, MachineId, AttentionId}
use homebased.Error.{internal}
use homebased.Domain.ExitReason.{ExitReason}
use homebased.Queue.Priority.{Priority}
use homebased.Queue.Job.{JobState}
use homebased.Store.Types.{JobRecord, JobEventKind, EventRun, JobEvent, Tables}
use homebased.Store.Access.{update, job}
use homebased.Store.Updates.{find-update, changed}
use homebased.Store.Invariant.{at_job, state_at}
use homebased.Store.Levels.{
  in_level, lifted, lift_levels, sql_position, place, write_level, level, renumber_level,
}
use homebased.Store.Events.{next_seq, append_job_event}

-- An update that keeps ids and states.
pub state_at-update :
    (p : JobRecord → Bool) (f : JobRecord → JobRecord) (js : List JobRecord)
    → ((j : JobRecord) → (f j).id ≡ j.id)
    → ((j : JobRecord) → (f j).state ≡ j.state)
    → (k : JobId) → state_at (update p f js) k ≡ state_at js k
state_at-update p f js ids states k =
    ap (λ o. map_or o none (λ (j : JobRecord). some j.state)) (find-update (λ j. j.id) p f k js ids)
    ∙ same (at_job js k)
  where
    same :
        (o : Option JobRecord)
        → map_or (changed (λ j. j.id) p f o) none (λ j. some j.state)
          ≡ map_or o none (λ j. some j.state)
    same none = refl
    same (some j) = elim (Bool-cases (p j)) [
      | inl t ↦ rw t (ap some (states j))
      | inr t ↦ rw t refl
    ]

-- An update of one job's row that sets its state: that job has it, and every other job keeps its own.
pub state_at-set :
    (f : JobRecord → JobRecord) (id : JobId) (new : JobState) (js : List JobRecord)
    → ((j : JobRecord) → (f j).id ≡ j.id)
    → ((j : JobRecord) → (f j).state ≡ new)
    → ((j : JobRecord)
        → at_job js id ≡ some j
        → state_at (update (λ j. j.id == id) f js) id ≡ some new)
      × ((k : JobId)
          → (k == id) ≡ false
          → state_at (update (λ j. j.id == id) f js) k ≡ state_at js k)
state_at-set f id new js ids states = (
  λ j e.
      let here = (find-In (λ x. x.id == id) js e).1 in
      ap (λ o. map_or o none (λ (j : JobRecord). some j.state))
        (find-update (λ j. j.id) (λ j. j.id == id) f id js ids)
      ∙ rw e (rw here (ap some (states j))),
  λ k apart.
      ap (λ o. map_or o none (λ (j : JobRecord). some j.state))
        (find-update (λ j. j.id) (λ j. j.id == id) f k js ids)
      ∙ (elim (Option-cases (at_job js k)) [
        | inl e ↦ rw e refl
        | inr (j, e) ↦
            let here = (find-In (λ x. x.id == k) js e).1 in
            let other : (j.id == id) ≡ false = ground arith in rw e (rw other refl)
      ]),
)

-- Renumbering a level leaves every resource and every state as it was.
pub lift_levels-state :
    (machine : MachineId) (ps : List Priority) (s : Tables)
    → ((k : JobId) → state_at (lift_levels machine ps s).jobs k ≡ state_at s.jobs k)
      × ((lift_levels machine ps s).resources ≡ s.resources)
unfolding lift_levels lifted
lift_levels-state machine [] s = (λ k. refl, refl)
lift_levels-state machine (p ∷ ps) s =
    let t : Tables = record s { jobs = update (in_level machine p) lifted s.jobs } in
    let (states, same) = lift_levels-state machine ps t in
    (
      λ k. states k ∙ state_at-update (in_level machine p) lifted s.jobs (λ j. refl) (λ j. refl) k,
      same,
    )

pub write_level-state :
    (machine : MachineId) (p : Priority) (first : ℕ) (ids : List JobId) (s t : Tables)
    → write_level machine p first ids s ≡ ok t
    → ((k : JobId) → state_at t.jobs k ≡ state_at s.jobs k)
      × (t.resources ≡ s.resources)
      × (t.tasks ≡ s.tasks)
unfolding write_level place
write_level-state machine p first [] s t h =
    let e : t ≡ s = ground arith in
    (
      λ k. ap (λ (u : Tables). state_at u.jobs k) e,
      ap (λ (u : Tables). u.resources) e,
      ap (λ (u : Tables). u.tasks) e,
    )
write_level-state machine p first (id ∷ ids) s t h =
    let (position, h₁, _) = >>=-ok _ (sql_position first) h in
    let (states, same, tasks) =
      write_level-state machine p (suc first) ids (place machine p position id s) t h₁ in
    (
      λ k.
          states k
          ∙ state_at-update (λ j. (j.id == id) && ((j.machine == machine) && is_some j.position))
              (λ j. record j { priority = p; position = some position }) s.jobs (λ j. refl)
              (λ j. refl) k,
      same,
      tasks,
    )

pub renumber_level-state :
    (machine : MachineId) (p : Priority) (s t : Tables)
    → renumber_level machine p s ≡ ok t
    → ((k : JobId) → state_at t.jobs k ≡ state_at s.jobs k) × (t.resources ≡ s.resources)
unfolding renumber_level
renumber_level-state machine p s t h =
    let u = lift_levels machine (p ∷ []) s in
    let (states, same, _) = write_level-state machine p 1 (level s machine p) u t h in
    let (states', same') = lift_levels-state machine (p ∷ []) s in
    (λ k. states k ∙ states' k, same ∙ same')

-- An event leaves every resource and every state as it was.
pub append_job_event-state :
    (id : JobId) (kind : JobEventKind) (run : Option EventRun) (process : Option ExitReason)
    (attention : Option AttentionId) (s t : Tables) (event : JobEvent)
    → append_job_event id kind run process attention s ≡ ok (event, t)
    → ((k : JobId) → state_at t.jobs k ≡ state_at s.jobs k) × (t.resources ≡ s.resources)
unfolding append_job_event next_seq
append_job_event-state id kind run process attention s t event h =
    let (found, h₁, _) =
      >>=-ok _ (ok_or (job (next_seq id s) id) (internal "Query returned no rows")) h in
    let jobs : t.jobs ≡ (next_seq id s).jobs = ground arith in
    (
      λ k.
          ap (λ js. state_at js k) jobs
          ∙ state_at-update (λ j. j.id == id) (λ j. record j { event_seq = j.event_seq + 1 }) s.jobs
              (λ j. refl) (λ j. refl) k,
      ground arith,
    )
