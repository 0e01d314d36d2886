-- ===== src/Queue/Schedule/Launches.antt =====
-- What the launches of `decide` (src/queue/schedule.rs) satisfy.
use homebased.Base.{
  ◌≡◌, refl, sym, ap, inl, inr, Bool, true, false, List, [], ◌∷◌, any, ◌==◌, none, Option-cases, In,
  In-filter, In-of_filter, any-false_parts, ne_of_test,
}
use homebased.Queue.Job.{allows}
use homebased.Queue.Schedule.Types.{ResourceView, JobView, Snapshot, Launch, Chrono}
use homebased.Queue.Schedule.Fill.{take_allowed, startable, fill, filled}
use homebased.Queue.Schedule.FillLaws.{
  Picked, take_none, take_some, free_resources_intro, free_resources_elim,
}
use homebased.Queue.Schedule.Decide.{decide}

-- A launch starts a job on a resource, both of the given lists, that the job may use.
abbrev pub Placed : List ResourceView → List JobView → Launch → Type 0
Placed free jobs l =
    (j : JobView) × (r : ResourceView) × In j jobs
    × In r free
    × (l.job ≡ j.id)
    × (l.resource ≡ r.id)
    × (allows j.target r.id ≡ true)

pub fill-Placed :
    (free : List ResourceView) (jobs : List JobView) (l : Launch)
    → In l (fill free jobs).launches
    → Placed free jobs l
unfolding fill
fill-Placed free [] l m = absurd m
fill-Placed free (j ∷ js) l m = elim (Option-cases (take_allowed j.target free)) [
  | inl e ↦ later free (fill-Placed free js l (rw (e, fill) at m)) (λ r k. k)
  | inr ((r, rest), e) ↦
      let p : Picked j.target free r rest = take_some j.target free r rest e in
      elim (rw (e, fill) at m) [
        | inl q ↦ (j, r, inl refl, p.0, rw q, rw q, p.1)
        | inr k ↦ later rest (fill-Placed rest js l k) p.3
      ]
]
  where
    later :
        (rest : List ResourceView)
        → Placed rest js l
        → ((r : ResourceView) → In r rest → In r free)
        → Placed free (j ∷ js) l
    later rest (i, r, mi, mr, ej, er, ok) sub = (i, r, inr mi, sub r mr, ej, er, ok)

-- A job is launched, a resource is used.
abbrev pub launched : List Launch → JobView → Bool
launched ls j = any (λ l. l.job == j.id) ls

abbrev pub used : List Launch → ResourceView → Bool
used ls r = any (λ l. l.resource == r.id) ls

fill_exhausts :
    (free : List ResourceView) (jobs : List JobView) (j : JobView) (r : ResourceView)
    → In j jobs
    → In r free
    → launched (fill free jobs).launches j ≡ false
    → used (fill free jobs).launches r ≡ false
    → allows j.target r.id ≡ false
unfolding fill
fill_exhausts free [] j r mj mr hj hr = absurd mj
fill_exhausts free (i ∷ js) j r mj mr hj hr = elim (Option-cases (take_allowed i.target free)) [
  | inl e ↦ elim mj [
    | inl q ↦ rw q (take_none i.target free r e mr)
    | inr k ↦ fill_exhausts free js j r k mr (rw (e, fill) at hj) (rw (e, fill) at hr)
  ]
  | inr ((s, rest), e) ↦
      let p : Picked i.target free s rest = take_some i.target free s rest e in
      let first : Launch = record { job = i.id; resource = s.id } in
      let more = (fill rest js).launches in
      let (nj, hj') = any-false_parts (λ l. l.job == j.id) first more (rw (e, fill) at hj) in
      let (nr, hr') = any-false_parts (λ l. l.resource == r.id) first more (rw (e, fill) at hr) in
      elim mj [
        | inl q ↦ absurd (ne_of_test i.id j.id nj (ap (λ (v : JobView). v.id) (sym q)))
        | inr k ↦ elim (p.2 r mr) [
          | inl q ↦ absurd (ne_of_test s.id r.id nr (ap (λ (v : ResourceView). v.id) (sym q)))
          | inr mr' ↦ fill_exhausts rest js j r k mr' hj' hr'
        ]
      ]
]

-- Each launch starts a startable job of the queue on an idle resource that the job may use.
pub decide-launches_sound :
    (c : Chrono) (s : Snapshot) (l : Launch)
    → In l (decide c s).launches
    → (j : JobView) × (r : ResourceView) × In j s.queue
      × (startable s j ≡ true)
      × In r s.resources
      × (r.run ≡ none)
      × (l.job ≡ j.id)
      × (l.resource ≡ r.id)
      × (allows j.target r.id ≡ true)
unfolding decide filled
decide-launches_sound c s l m =
    let (j, r, mj, mr, ej, er, ok) = fill-Placed _ _ l m in
    let (mq, st) = In-of_filter (startable s) j s.queue mj in
    let (mi, idle) = free_resources_elim r s.resources mr in (j, r, mq, st, mi, idle, ej, er, ok)

-- No startable job waits while an idle resource that it may use is left: of the jobs and resources
-- of the snapshot, a job that is startable and not launched may not use a resource that is idle and
-- not used by a launch.
pub decide-work_conserving :
    (c : Chrono) (s : Snapshot) (j : JobView) (r : ResourceView)
    → In j s.queue
    → startable s j ≡ true
    → In r s.resources
    → r.run ≡ none
    → launched (decide c s).launches j ≡ false
    → used (decide c s).launches r ≡ false
    → allows j.target r.id ≡ false
unfolding decide filled
decide-work_conserving c s j r mj st mr idle hj hr =
    fill_exhausts _ _ j r (In-filter (startable s) j s.queue mj st)
      (free_resources_intro r s.resources mr idle) hj hr
