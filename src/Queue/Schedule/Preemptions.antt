-- ===== src/Queue/Schedule/Preemptions.antt =====
-- What the preemption of `decide` (src/queue/schedule.rs) satisfies.
use homebased.Base.{
  ◌≡◌, sym, ◌∙◌, ap, subst, inl, inr, true, false, find, ◌==◌, none, some, arith, Bool-cases,
  Option-cases, ==_iff, In, In-filter, In-of_filter, In-of_filter_map, In-filter_map, find_map-some,
  find_map-none, find-Distinct, find-In, Distinct,
}
use homebased.Ids.{Time}
use homebased.Queue.Priority
use homebased.Queue.Preemption.{stop_at}
use homebased.Queue.Job.{allows}
use homebased.Queue.Run.{ActiveRun, RunPhase, executing}
use homebased.Queue.Schedule.Types.{ResourceView, JobView, Snapshot, Preempt, Chrono}
use homebased.Queue.Schedule.Preempt.{
  preemption_in_flight, Candidate, key_lt, min_by_key, candidate_of, executing_since, candidates,
  preempt_of, preempt_for, preemption,
}
use homebased.Queue.Schedule.Minimum.{min_by_key-least, min_by_key-none}
use homebased.Queue.Schedule.Fill.{filled}
use homebased.Queue.Schedule.Decide.{decide}

-- A run that higher work may stop for the job `w`: it executes on a resource that `w` may use, its
-- job is in the queue at a strictly lower level, and that job's mode allows a stop now.
pub record IsStoppable (s : Snapshot) (w : JobView) (c : Candidate) : Type 0 where
  pub victim : JobView
  pub resource : ResourceView
  pub queued : In victim s.queue
  pub named : (victim.id == c.run.job) ≡ true
  pub level : c.level ≡ victim.priority
  pub lower : Priority.lt victim.priority w.priority ≡ true
  pub held : In resource s.resources
  pub running : resource.run ≡ some c.run
  pub allowed : allows w.target resource.id ≡ true
  pub executes : c.run.phase ≡ executing c.started_at
  pub stop : stop_at victim.preempt c.started_at s.now ≡ some c.stop

executing_since-some : (p : RunPhase) (t : Time) → executing_since p ≡ some t → p ≡ executing t
unfolding executing_since
executing_since-some p t h = ground arith

module _ (s : Snapshot) (w : JobView) where
  candidate_of-some :
      (run : ActiveRun) (c : Candidate)
      → candidate_of s w run ≡ some c
      → (v : JobView) × (find (λ job. job.id == run.job) s.queue ≡ some v)
        × (c.run ≡ run)
        × (c.level ≡ v.priority)
        × (Priority.lt v.priority w.priority ≡ true)
        × (run.phase ≡ executing c.started_at)
        × (stop_at v.preempt c.started_at s.now ≡ some c.stop)
  unfolding candidate_of
  candidate_of-some run c h = elim (Option-cases (executing_since run.phase)) [
    | inl e ↦ absurd (ground arith)
    | inr (t, e) ↦ elim (Option-cases (find (λ job. job.id == run.job) s.queue)) [
      | inl q ↦ absurd (ground arith)
      | inr (v, q) ↦ (
        v,
        q,
        ground arith,
        ground arith,
        ground arith,
        executing_since-some run.phase c.started_at (ground arith),
        ground arith,
      )
    ]
  ]

  candidate_of-intro :
      (c : Candidate) (v : JobView)
      → find (λ job. job.id == c.run.job) s.queue ≡ some v
      → c.level ≡ v.priority
      → Priority.lt v.priority w.priority ≡ true
      → c.run.phase ≡ executing c.started_at
      → stop_at v.preempt c.started_at s.now ≡ some c.stop
      → candidate_of s w c.run ≡ some c
  unfolding candidate_of executing_since
  candidate_of-intro c v f l b x h = ground arith

  pub candidates-IsStoppable : (c : Candidate) → In c (candidates s w) → IsStoppable s w c
  unfolding candidates
  candidates-IsStoppable c m =
      let (run, mr, e) = In-of_filter_map (candidate_of s w) c _ m in
      let (r, ma, er) = In-of_filter_map (λ (r : ResourceView). r.run) run _ mr in
      let (held, ok) = In-of_filter (λ r. allows w.target r.id) r s.resources ma in
      let (v, f, er', el, lower, ex, st) = candidate_of-some run c e in
      let (mv, name) = find-In (λ job. job.id == run.job) s.queue f in
      record {
        victim = v;
        resource = r;
        queued = mv;
        named = subst (λ (x : ActiveRun). (v.id == x.job) ≡ true) (sym er') name;
        level = el;
        lower = lower;
        held = held;
        running = er ∙ ap some (sym er');
        allowed = ok;
        executes = ap (λ (x : ActiveRun). x.phase) er' ∙ ex;
        stop = st;
      }

  pub IsStoppable-candidates :
      (c : Candidate) → Distinct (λ j. j.id) s.queue → IsStoppable s w c → In c (candidates s w)
  unfolding candidates
  IsStoppable-candidates c d p =
      In-filter_map (candidate_of s w) c.run c _
        (In-filter_map (λ (r : ResourceView). r.run) p.resource c.run _
          (In-filter (λ r. allows w.target r.id) p.resource s.resources p.held p.allowed) p.running)
        (candidate_of-intro c p.victim found p.level p.lower p.executes p.stop)
    where
      found : find (λ (job : JobView). job.id == c.run.job) s.queue ≡ some p.victim
      found =
          subst (λ k. find (λ (job : JobView). job.id == k) s.queue ≡ some p.victim)
            ((==_iff p.victim.id c.run.job).0 p.named)
            (find-Distinct (λ (j : JobView). j.id) p.victim s.queue d p.queued)

preempt_for-some :
    (s : Snapshot) (w : JobView) (p : Preempt)
    → preempt_for s w ≡ some p
    → (c : Candidate) × (min_by_key (candidates s w) ≡ some c) × (p ≡ preempt_of c)
unfolding preempt_for
preempt_for-some s w p h = elim (Option-cases (min_by_key (candidates s w))) [
  | inl e ↦ absurd (ground arith)
  | inr (c, e) ↦ (c, e, ground arith)
]

preempt_for-none :
    (s : Snapshot) (w : JobView) → preempt_for s w ≡ none → min_by_key (candidates s w) ≡ none
unfolding preempt_for
preempt_for-none s w h = ground arith

-- A decision preempts only while no run is stopping for a preemption, and for a job that waits after
-- the launches. The run that it stops may be stopped for that job: it executes, on a resource that
-- the job may use, at a strictly lower level, in a mode that allows the stop now. If the queued jobs
-- have distinct ids, no other run that may be stopped for the job comes before it in the order of
-- level, cost of the stop, latest start and resource.
pub decide-preemption_least :
    (c : Chrono) (s : Snapshot) (p : Preempt)
    → Distinct (λ j. j.id) s.queue
    → (decide c s).preemption ≡ some p
    → (preemption_in_flight s ≡ false)
      × (w : JobView) × In w (filled s).waiting
      × (v : Candidate) × (p ≡ preempt_of v)
      × IsStoppable s w v
      × ((u : Candidate) → IsStoppable s w u → key_lt u v ≡ false)
unfolding decide preemption
decide-preemption_least c s p d h = elim (Bool-cases (preemption_in_flight s)) [
  | inl t ↦ cc (rw t at h)
  | inr f ↦
      let (w, m, e) = find_map-some (preempt_for s) p (filled s).waiting (rw f at h) in
      let (v, least, q) = preempt_for-some s w p e in
      let (mv, below) = min_by_key-least (candidates s w) v least in
      (
        f,
        w,
        m,
        v,
        q,
        candidates-IsStoppable s w v mv,
        λ u k. below u (IsStoppable-candidates s w u d k),
      )
]

-- If a decision preempts nothing while no run is stopping for a preemption, then, the queued jobs
-- having distinct ids, no run may be stopped for any job that waits after the launches.
pub decide-preemption_none :
    (c : Chrono) (s : Snapshot) (w : JobView) (v : Candidate)
    → Distinct (λ j. j.id) s.queue
    → (decide c s).preemption ≡ none
    → preemption_in_flight s ≡ false
    → In w (filled s).waiting
    → ¬ IsStoppable s w v
unfolding decide preemption
decide-preemption_none c s w v d h f m k =
    let none_for = find_map-none (preempt_for s) w (filled s).waiting (rw f at h) m in
    let empty = min_by_key-none (candidates s w) (preempt_for-none s w none_for) in
    subst (λ cs. In v cs) empty (IsStoppable-candidates s w v d k)
