-- ===== src/Queue/Run.antt =====
-- The active run of a resource and its lifecycle (src/queue.rs).
use homebased.Base.{ℕ, Bool, true, false, String, Option, none, some}
use homebased.Ids.{TaskId, JobId, ResourceId, AttentionId, Time}
use homebased.Queue.StopCause.{StopCause}
use homebased.Queue.Job.{StepIndex, RunNumber}

-- `CleanupFailure`; what the cleanup module found is a text.
pub data CleanupFailure : Type 0 where
  process_group_unconfirmed container_unconfirmed : CleanupFailure
  processes : String → CleanupFailure

pub data RunPhase : Type 0 where
  launching : Time → RunPhase
  executing : Time → RunPhase
  stopping : Option Time → StopCause → Time → RunPhase
  cleaning : ℕ → RunPhase
  attention : AttentionId → CleanupFailure → RunPhase

pub record ActiveRun : Type 0 where
  pub resource : ResourceId
  pub job : JobId
  pub task : TaskId
  pub run_number : RunNumber
  pub step : StepIndex
  pub resume : Bool
  pub phase : RunPhase

abbrev pub holds_job : RunPhase → Bool
holds_job (launching _) = true
holds_job (executing _) = true
holds_job (stopping _ _ _) = true
holds_job (cleaning _) = false
holds_job (attention _ _) = false

abbrev pub phase_as_str : RunPhase → String
phase_as_str (launching _) = "launching"
phase_as_str (executing _) = "executing"
phase_as_str (stopping _ _ _) = "stopping"
phase_as_str (cleaning _) = "cleaning"
phase_as_str (attention _ _) = "attention"

-- `stop_cause` of src/store/queue.rs.
abbrev pub stop_cause : RunPhase → Option StopCause
stop_cause (stopping _ cause _) = some cause
stop_cause (launching _) = none
stop_cause (executing _) = none
stop_cause (cleaning _) = none
stop_cause (attention _ _) = none
