-- ===== src/Error.antt =====
-- Errors of the operations that are modelled (src/error.rs, src/queue/error.rs).
use homebased.Base.{ℕ, String, List}
use homebased.Ids.{JobId, ResourceId, TaskId, OperationId, AttentionId, Span}
use homebased.Queue.Priority.{Priority}

-- The texts that the queue formats into an error, with the values that they show.
pub data Diagnostic : Type 0 where
  -- "job {job} is {state}, not queued"
  not_queued : JobId → String → Diagnostic
  -- "resource {name} already has an active run of job {job} in {phase}"
  resource_busy : ResourceId → JobId → String → Diagnostic
  -- "job {job} is pinned to another resource"
  pinned_elsewhere : JobId → Diagnostic
  -- "job {job} already has an active run on resource {resource} in {phase}"
  job_busy : JobId → ResourceId → String → Diagnostic
  -- "job {job} has no step {step}", "job next step missing"
  no_step : JobId → ℕ → Diagnostic
  -- "job {job} reached the run count limit"
  run_count_limit : JobId → Diagnostic
  -- "run number limit reached"
  run_number_limit : Diagnostic
  -- "run numbers start at 1"
  run_number_zero : Diagnostic
  -- "task {task} reached the cleanup attempt limit"
  cleanup_attempt_limit : TaskId → Diagnostic
  -- "{status} is not a terminal status"
  not_terminal : String → Diagnostic
  -- "run task {task} has no active run"
  no_active_run_of : TaskId → Diagnostic
  -- "no active run"
  no_active_run : Diagnostic
  -- "the active run is task {active}, not {task}"
  other_run : TaskId → TaskId → Diagnostic
  -- "the run already ended"
  run_ended : Diagnostic
  -- "a preemption stops only an executing run"
  not_executing : Diagnostic
  -- "the run is not cleaning"
  not_cleaning : Diagnostic
  -- "the run is not launching"
  not_launching : Diagnostic
  -- "cleanup attempt {attempt} does not match the run's {phase}"
  attempt_mismatch : ℕ → String → Diagnostic
  -- "unknown stop cause {raw}"
  unknown_stop_cause : String → Diagnostic
  -- "job {job} cannot end as {state}"
  cannot_end_as : JobId → String → Diagnostic
  -- "target {target} has no slot in its level"
  no_slot : JobId → Diagnostic
  -- "queue position exceeds u32", "queue position exceeds SQLite range"
  position_range : Diagnostic
  -- "job acknowledgement has a sequence gap"
  sequence_gap : Diagnostic
  -- "job settlement has a sequence gap"
  settlement_gap : Diagnostic
  -- "only a blocked notice can be suppressed"
  not_a_notice : Diagnostic
  -- "invalid new job route"
  invalid_route : Diagnostic
  -- "job route {job} has inconsistent identity"
  route_identity : JobId → Diagnostic

-- Rules that a resource name or label breaks.
pub data NameRule : Type 0 where
  name_length name_characters name_hyphen name_uuid label_length label_control : NameRule

pub data MoveRefusal : Type 0 where
  no_placement conflicting_flags self_target : MoveRefusal
  target_not_found target_terminal : JobId → MoveRefusal
  level_mismatch : JobId → Priority → Priority → MoveRefusal

-- `Remote` is left out: it is decoded from a peer's answer, and no operation modelled makes one.
pub data QueueError : Type 0 where
  invalid_priority : String → QueueError
  invalid_restart_window : Span → QueueError
  invalid_resource_name : List ℕ → NameRule → QueueError
  invalid_resource_label : List ℕ → NameRule → QueueError
  invalid_step_count : ℕ → QueueError
  job_not_found : JobId → QueueError
  job_terminal : JobId → String → QueueError
  job_conflict : JobId → QueueError
  operation_conflict : OperationId → QueueError
  move_refused : JobId → MoveRefusal → QueueError
  resource_not_found : ResourceId → QueueError
  -- The same error, of a name.
  name_not_found : List ℕ → QueueError
  attention_not_found : AttentionId → QueueError
  stale_run : ResourceId → Diagnostic → QueueError
  invariant : Diagnostic → QueueError
  corrupt : Diagnostic → QueueError

pub data AppError : Type 0 where
  internal : String → AppError
  usage : String → AppError
  task_not_found : TaskId → AppError
  daemon_busy : AppError
  -- "job {job} has no event {seq}", of an `Internal` error.
  no_event : JobId → ℕ → AppError
  queue : QueueError → AppError
  -- A statement that breaks a constraint of the schema.
  constraint : AppError
