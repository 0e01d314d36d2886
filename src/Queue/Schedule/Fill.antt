-- ===== src/Queue/Schedule/Fill.antt =====
-- The first half of `decide` (src/queue/schedule.rs): free resources by name, startable jobs, and
-- the walk that starts each job on the first free resource that it may use.
use homebased.Base.{
  ℕ, Bool, true, false, not, ◌&&◌, if◌then◌else◌, ltb, ◌==◌, List, [], ◌∷◌, any, filter, Option,
  none, some, is_none, map_or,
}
use homebased.Queue.Job.{Target, allows}
use homebased.Queue.Schedule.Types.{
  ResourceView, QueuedState, queued, active, JobView, Snapshot, Launch,
}

-- The order of names, byte by byte.
unfoldable pub name_le : List ℕ → List ℕ → Bool
name_le [] _ = true
name_le (a ∷ more) [] = false
name_le (a ∷ more) (b ∷ others) =
    if ltb a b then true else if ltb b a then false else name_le more others

unfoldable pub insert_by_name : ResourceView → List ResourceView → List ResourceView
insert_by_name r [] = r ∷ []
insert_by_name r (s ∷ ss) = if name_le r.name s.name then r ∷ s ∷ ss else s ∷ insert_by_name r ss

-- `sort_by`, which is stable.
unfoldable pub sort_by_name : List ResourceView → List ResourceView
sort_by_name [] = []
sort_by_name (r ∷ rs) = insert_by_name r (sort_by_name rs)

abbrev pub is_idle : ResourceView → Bool
is_idle r = is_none r.run

unfoldable pub free_resources : List ResourceView → List ResourceView
free_resources rs = sort_by_name (filter is_idle rs)

-- `position`, then `remove`.
unfoldable pub take_allowed : Target → List ResourceView → Option (ResourceView × List ResourceView)
take_allowed target [] = none
take_allowed target (r ∷ rs) =
    let rest = take_allowed target rs in
    if allows target r.id
    then some (r, rs)
    else elim rest [ none ↦ none | some (s, ss) ↦ some (s, r ∷ ss) ]

abbrev pub is_queued : QueuedState → Bool
is_queued queued = true
is_queued (active _) = false

-- The run of a resource belongs to the job.
abbrev pub runs_job : JobView → ResourceView → Bool
runs_job job r = map_or r.run false (λ run. run.job == job.id)

unfoldable pub startable : Snapshot → JobView → Bool
startable snapshot job = is_queued job.state && not (any (runs_job job) snapshot.resources)

-- The launches, and the jobs that wait.
pub record Filled : Type 0 where
  pub launches : List Launch
  pub waiting : List JobView

unfoldable pub fill : List ResourceView → List JobView → Filled
fill free [] = record { launches = []; waiting = [] }
fill free (job ∷ jobs) = elim (take_allowed job.target free) [
  | none ↦
      let later = fill free jobs in
      record { launches = later.launches; waiting = job ∷ later.waiting }
  | some (resource, rest) ↦
      let later = fill rest jobs in
      record {
        launches = record { job = job.id; resource = resource.id } ∷ later.launches;
        waiting = later.waiting;
      }
]

unfoldable pub filled : Snapshot → Filled
filled snapshot =
    fill (free_resources snapshot.resources) (filter (startable snapshot) snapshot.queue)
