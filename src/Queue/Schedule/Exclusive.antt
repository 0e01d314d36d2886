-- ===== src/Queue/Schedule/Exclusive.antt =====
-- The launches of `decide` (src/queue/schedule.rs) share no job and no resource.
use homebased.Base.{
  ℕ, ◌≡◌, subst₂, inl, inr, Bool, false, List, [], ◌∷◌, any, ◌==◌, some, arith, Bool-cases,
  Option-cases, any-false, any_intro, any-false_transfer, Distinct, filter-Distinct,
}
use homebased.Queue.Job.{Target, allows}
use homebased.Queue.Schedule.Types.{ResourceView, JobView, Snapshot, Launch, Chrono}
use homebased.Queue.Schedule.Fill.{take_allowed, startable, fill, filled}
use homebased.Queue.Schedule.FillLaws.{Picked, take_some, DistinctIds, free_resources-DistinctIds}
use homebased.Queue.Schedule.Launches.{fill-Placed}
use homebased.Queue.Schedule.Decide.{decide}

has_id : List ResourceView → ℕ → Bool
has_id rs k = any (λ r. r.id == k) rs

take-DistinctIds :
    (t : Target) (free : List ResourceView) (s : ResourceView) (rest : List ResourceView)
    → take_allowed t free ≡ some (s, rest)
    → DistinctIds free
    → (has_id rest s.id ≡ false) × DistinctIds rest
unfolding take_allowed has_id
take-DistinctIds t [] s rest h d = absurd (ground arith)
take-DistinctIds t (x ∷ xs) s rest h d = elim (Bool-cases (allows t x.id)) [
  | inl yep ↦
      let (e, f) : (x ≡ s) × (xs ≡ rest) = (ground arith, ground arith) in
      subst₂ (λ a b. (has_id b a.id ≡ false) × DistinctIds b) e f d
  | inr nope ↦ elim (Option-cases (take_allowed t xs)) [
    | inl e ↦ absurd (ground arith)
    | inr ((u, us), e) ↦
        let (i, f) : (u ≡ s) × (x ∷ us ≡ rest) = (ground arith, ground arith) in
        let p : Picked t xs u us = take_some t xs u us e in
        let (fresh, rest_distinct) = take-DistinctIds t xs u us e d.1 in
        let apart : (u.id == x.id) ≡ false = any-false (λ r. r.id == x.id) u xs d.0 p.0 in
        subst₂ (λ a b. (has_id b a.id ≡ false) × DistinctIds b) i f
          (
            ground arith,
            (
              any-false_transfer (λ r. r.id == x.id) (λ r. r.id == x.id) us xs
                  (λ r m q. any_intro (λ r. r.id == x.id) r xs (p.3 r m) q) d.0,
              rest_distinct,
            ),
          )
  ]
]

-- The resources of the launches are among the free ones, the jobs among the given ones.
launch_resource_free :
    (free : List ResourceView) (jobs : List JobView) (k : ℕ)
    → has_id free k ≡ false
    → any (λ l. l.resource == k) (fill free jobs).launches ≡ false
unfolding has_id
launch_resource_free free jobs k =
    any-false_transfer (λ l. l.resource == k) (λ r. r.id == k) (fill free jobs).launches free
      λ l m e.
        let (j, r, mj, mr, ej, er, ok) = fill-Placed free jobs l m in
        any_intro (λ r. r.id == k) r free mr (rw (← er) e)

launch_job_given :
    (free : List ResourceView) (jobs : List JobView) (k : ℕ)
    → any (λ j. j.id == k) jobs ≡ false
    → any (λ l. l.job == k) (fill free jobs).launches ≡ false
launch_job_given free jobs k =
    any-false_transfer (λ l. l.job == k) (λ j. j.id == k) (fill free jobs).launches jobs
      λ l m e.
        let (j, r, mj, mr, ej, er, ok) = fill-Placed free jobs l m in
        any_intro (λ j. j.id == k) j jobs mj (rw (← ej) e)

abbrev pub DistinctLaunches : List Launch → Type 0
DistinctLaunches ls = Distinct (λ l. l.job) ls × Distinct (λ l. l.resource) ls

fill-DistinctLaunches :
    (free : List ResourceView) (jobs : List JobView)
    → DistinctIds free
    → Distinct (λ j. j.id) jobs
    → DistinctLaunches (fill free jobs).launches
unfolding fill
fill-DistinctLaunches free [] d e = (tt, tt)
fill-DistinctLaunches free (j ∷ js) d e = elim (Option-cases (take_allowed j.target free)) [
  | inl q ↦ rw (q, fill) (fill-DistinctLaunches free js d e.1)
  | inr ((r, rest), q) ↦
      let (fresh, d') = take-DistinctIds j.target free r rest q d in
      let (later_jobs, later_resources) = fill-DistinctLaunches rest js d' e.1 in
      rw (q, fill)
        (
          (launch_job_given rest js j.id e.0, later_jobs),
          (launch_resource_free rest js r.id fresh, later_resources),
        )
]

-- If the resources and the queued jobs of a snapshot have distinct ids, no two launches of one
-- decision share a job, and no two share a resource.
pub decide-DistinctLaunches :
    (c : Chrono) (s : Snapshot)
    → Distinct (λ r. r.id) s.resources
    → Distinct (λ j. j.id) s.queue
    → DistinctLaunches (decide c s).launches
unfolding decide filled
decide-DistinctLaunches c s dr dj =
    fill-DistinctLaunches _ _ (free_resources-DistinctIds s.resources dr)
      (filter-Distinct (λ j. j.id) (startable s) s.queue dj)
