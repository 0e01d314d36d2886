-- ===== src/Store/Submit.antt =====
-- The submission of a job (src/store/queue/jobs.rs, src/store/queue/resources.rs): `submit_job` and
-- `resolve_resource`. The captured environment and the times are left out.
use homebased.Base.{
  ℕ, ◌+◌, Bool, not, ◌&&◌, ◌||◌, String, List, [], ◌∷◌, length, find, filter, any, map_or, true,
  false, Option, none, some, Result, ok, err, ◌>>=◌, ◌>>◌, ensure, ok_or, if◌then◌else◌, ◌==◌,
}
use homebased.Ids.{MachineId, JobId, ThreadId, ResourceId}
use homebased.Error.{AppError, constraint, queue, job_conflict, resource_not_found, name_not_found}
use homebased.Queue.Priority.{Priority}
use homebased.Queue.Job.{Target, any_resource, pinned, Steps, queued, state_as_str}
use homebased.Store.Types.{ResourceRecord, JobRecord, Tables}
use homebased.Store.Access.{job, require_job}
use homebased.Store.Levels.{in_level, level, sql_position}

pub data ResourceSelector : Type 0 where
  by_id : ResourceId → ResourceSelector
  by_name : List ℕ → ResourceSelector

-- `JobSpec`: what the queue reads of it, and the rest as text.
pub record JobSpec : Type 0 where
  pub thread : ThreadId
  pub priority : Priority
  pub resource : Option ResourceSelector
  pub steps : Steps
  pub content : List ℕ

pub record NewJob : Type 0 where
  pub id : JobId
  pub machine : MachineId
  pub origin : MachineId
  pub spec : JobSpec

pub record JobAccepted : Type 0 where
  pub job_id : JobId
  pub machine : MachineId
  pub target : Target
  pub state : String
  pub priority : Priority
  pub position : Option ℕ

unfoldable pub accepted : JobRecord → JobAccepted
accepted j = record {
  job_id = j.id;
  machine = j.machine;
  target = j.target;
  state = state_as_str j.state;
  priority = j.priority;
  position = j.position;
}

unfoldable pub same_name : List ℕ → List ℕ → Bool
same_name [] [] = true
same_name [] (y ∷ ys) = false
same_name (x ∷ xs) [] = false
same_name (x ∷ xs) (y ∷ ys) = (x == y) && same_name xs ys

unfoldable pub selects : ResourceSelector → ResourceRecord → Bool
unfolding same_name
selects (by_id id) r = r.id == id
selects (by_name name) r = same_name r.name name

unfoldable pub not_found : ResourceSelector → AppError
not_found (by_id id) = queue (resource_not_found id)
not_found (by_name name) = queue (name_not_found name)

-- `resolve_resource`: a resource of the machine, by name or id.
unfoldable pub resolve_resource :
    Tables → MachineId → ResourceSelector → Result ResourceRecord AppError
unfolding selects not_found
resolve_resource s machine selector =
    ok_or (find (selects selector) (filter (λ r. r.machine == machine) s.resources))
      (not_found selector)

unfoldable pub target_of : Tables → MachineId → Option ResourceSelector → Result Target AppError
unfolding resolve_resource
target_of s machine none = ok any_resource
target_of s machine (some selector) =
    resolve_resource s machine selector >>= λ found. ok (pinned found.id)

-- A retry: the job as it is now, or a conflict.
unfoldable pub resubmit : NewJob → ℕ → JobRecord → Tables → Result (JobAccepted × Tables) AppError
unfolding accepted
resubmit new digest existing s =
    if not (existing.digest == digest)
      || not (existing.machine == new.machine)
      || not (existing.origin == new.origin)
    then err (queue (job_conflict new.id))
    else ok (accepted existing, s)

-- The new row, at the back of its level.
unfoldable pub new_record : NewJob → ℕ → Target → ℕ → JobRecord
new_record new digest target position = record {
  id = new.id;
  machine = new.machine;
  origin = new.origin;
  thread = new.spec.thread;
  steps = new.spec.steps;
  digest = digest;
  target = target;
  priority = new.spec.priority;
  position = some position;
  state = queued false;
  step = 0;
  runs = 0;
  event_seq = 0;
}

-- The index `resource_jobs_slot`: one job to a position of a level.
unfoldable pub slot_taken : Tables → MachineId → Priority → ℕ → Bool
unfolding in_level
slot_taken s machine priority position =
    any (λ j. in_level machine priority j && map_or j.position false (λ p. p == position)) s.jobs

unfoldable pub insert_job : NewJob → ℕ → Tables → Result (JobAccepted × Tables) AppError
unfolding accepted target_of level sql_position slot_taken new_record require_job
insert_job new digest s = do
  target ← target_of s new.machine new.spec.resource
  position ← sql_position (length (level s new.machine new.spec.priority) + 1)
  ensure (not (slot_taken s new.machine new.spec.priority position)) constraint
  let t : Tables = record s { jobs = new_record new digest target position ∷ s.jobs }
  stored ← require_job t new.id
  ok (accepted stored, t)

-- The digest of the canonical spec is a parameter.
module _ (digest : JobSpec → Result ℕ AppError) where
  unfoldable pub submit_job : NewJob → Tables → Result (JobAccepted × Tables) AppError
  unfolding job resubmit insert_job
  submit_job new s = do
    content ← digest new.spec
    elim (job s new.id) [
      | some existing ↦ resubmit new content existing s
      | none ↦ insert_job new content s
    ]
