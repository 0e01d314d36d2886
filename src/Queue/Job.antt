-- ===== src/Queue/Job.antt =====
-- Jobs, steps and targets of src/queue.rs. A step's workload is kept abstract but for its kind: what
-- it runs is the task layer's business.
use homebased.Base.{
  ℕ, suc, ◌+◌, ◌^◌, Bool, true, false, ◌||◌, String, if◌then◌else◌, ltb, ◌==◌, List, length,
  get_elem?, Option, none, some, Result, ok, err,
}
use homebased.Ids.{TaskId, ResourceId}
use homebased.Error.{
  QueueError, invalid_step_count, invariant, corrupt, run_number_limit, run_number_zero,
}

-- A `u32`.
abbrev pub u32_size : ℕ
u32_size = 2 ^ 32

pub data Target : Type 0 where
  any_resource : Target
  pinned : ResourceId → Target

abbrev pub allows : Target → ResourceId → Bool
allows any_resource r = true
allows (pinned p) r = p == r

-- 0-based index into a job's steps; a job has at most 32 steps, so `next` does not overflow.
abbrev pub StepIndex : Type 0
StepIndex = ℕ

unfoldable pub next_step : StepIndex → StepIndex
next_step i = i + 1

-- The text stands for the command line or for the container's description.
pub data StepWorkload : Type 0 where
  task container : String → StepWorkload

abbrev pub max_steps : ℕ
max_steps = 32

pub record Steps : Type 0 where
  pub list : List StepWorkload

-- `TryFrom<Vec<StepWorkload>> for Steps`.
unfoldable pub steps_of_list : List StepWorkload → Result Steps QueueError
steps_of_list steps =
    if length steps == 0 || ltb max_steps (length steps)
    then err (invalid_step_count (length steps))
    else ok (record { list = steps })

unfoldable pub get_step : Steps → StepIndex → Option StepWorkload
get_step steps i = get_elem? steps.list i

unfoldable pub is_last : Steps → StepIndex → Bool
is_last steps i = i + 1 == length steps.list

pub data JobState : Type 0 where
  queued : Bool → JobState
  active : ResourceId → JobState
  succeeded : JobState
  failed : TaskId → JobState
  cancelled : JobState

abbrev pub is_terminal : JobState → Bool
is_terminal succeeded = true
is_terminal (failed _) = true
is_terminal cancelled = true
is_terminal (queued _) = false
is_terminal (active _) = false

abbrev pub state_as_str : JobState → String
state_as_str (queued _) = "queued"
state_as_str (active _) = "active"
state_as_str succeeded = "succeeded"
state_as_str (failed _) = "failed"
state_as_str cancelled = "cancelled"

-- `RunNumber`: an attempt count from 1 that fits a `u32`.
abbrev pub RunNumber : Type 0
RunNumber = ℕ

unfoldable pub run_number : ℕ → Result RunNumber QueueError
run_number n = if n == 0 then err (corrupt run_number_zero) else ok n

-- `u32::checked_add(1)`.
abbrev pub checked_next : ℕ → Option ℕ
checked_next n = if ltb (suc n) u32_size then some (suc n) else none

unfoldable pub next_run_number : RunNumber → Result RunNumber QueueError
unfolding run_number
next_run_number n = elim (checked_next n) [
  | none ↦ err (invariant run_number_limit)
  | some m ↦ run_number m
]
