-- ===== src/Store/Types.antt =====
-- The tables of the queue as records (src/store/schema.rs, src/store/queue.rs, src/queue.rs): the
-- columns that the operations read or that say what became of a run. Times of creation and of the last
-- change, the environment and the name of a job are left out.
use homebased.Base.{ℕ, List, Option, Result}
use homebased.Ids.{TaskId, ThreadId, MachineId, JobId, ResourceId, AttentionId}
use homebased.Error.{AppError}
use homebased.Domain.ProcessStatus.{ProcessStatus}
use homebased.Domain.ExitReason.{ExitReason}
use homebased.Domain.Evidence.{TaskExitEvidence}
use homebased.Queue.Priority.{Priority}
use homebased.Queue.StopCause.{StopCause}
use homebased.Queue.Job.{Target, Steps, JobState, StepIndex, RunNumber}
use homebased.Queue.Run.{ActiveRun, CleanupFailure}

-- `ResourceRecord`: a row of `resources`.
pub record ResourceRecord : Type 0 where
  pub id : ResourceId
  pub machine : MachineId
  pub name : List ℕ
  pub run : Option ActiveRun

-- `JobRecord`: a row of `resource_jobs`. Of the spec, the steps and the digest, the number that a SHA-256
-- hash spells.
pub record JobRecord : Type 0 where
  pub id : JobId
  pub machine : MachineId
  pub origin : MachineId
  pub thread : ThreadId
  pub steps : Steps
  pub digest : ℕ
  pub target : Target
  pub priority : Priority
  pub position : Option ℕ
  pub state : JobState
  pub step : StepIndex
  pub runs : ℕ
  pub event_seq : ℕ

-- A row of `tasks`, with its link to a job when it is a run.
pub record StoredTask : Type 0 where
  pub id : TaskId
  pub thread : ThreadId
  pub status : ProcessStatus
  pub exit_reason : Option ExitReason
  pub evidence : TaskExitEvidence
  pub worker_thread : Option ThreadId
  pub resource_job : Option JobId
  pub run_number : Option RunNumber
  pub step_index : Option StepIndex

-- A row of `resource_run_history`. An empty `stop_cause` column and a stored `null` are both none.
pub record RunHistory : Type 0 where
  pub task : TaskId
  pub resource : ResourceId
  pub stop_cause : Option StopCause
  pub cleanup : Option (Result (Unit {0}) CleanupFailure)

pub data JobEventKind : Type 0 where
  job_succeeded job_failed job_cancelled job_preempted job_attention job_blocked job_check_due :
      JobEventKind

pub record EventRun : Type 0 where
  pub resource : ResourceId
  pub task : TaskId
  pub run_number : RunNumber
  pub step : StepIndex

-- `JobEvent`: a row of `resource_job_events`, without the label of its resource and without the
-- notice that the events of other operations carry.
pub record JobEvent : Type 0 where
  pub job : JobId
  pub seq : ℕ
  pub event : JobEventKind
  pub run : Option EventRun
  pub resource_name : Option (List ℕ)
  pub process : Option ExitReason
  pub attention : Option AttentionId

pub record Tables : Type 0 where
  pub resources : List ResourceRecord
  pub jobs : List JobRecord
  pub tasks : List StoredTask
  pub history : List RunHistory
  pub events : List JobEvent

-- The body of a transaction: its result with the tables that it leaves, or an error.
abbrev pub Tx : Type 0 → Type 0
Tx A = Tables → Result (A × Tables) AppError
