-- ===== src/Queue/Schedule/Types.antt =====
-- What a scheduling decision reads and makes (src/queue/schedule.rs). A resource name is the list of
-- its bytes.
use homebased.Base.{ℕ, ◌*◌, Bool, List, Option}
use homebased.Ids.{TaskId, JobId, ResourceId, AttentionId, Time, Span}
use homebased.Queue.Priority.{Priority}
use homebased.Queue.StopCause.{StopCause}
use homebased.Queue.Preemption.{Preemption, second}
use homebased.Queue.Job.{Target}
use homebased.Queue.Run.{ActiveRun}

pub record ResourceView : Type 0 where
  pub id : ResourceId
  pub name : List ℕ
  pub run : Option ActiveRun

pub data QueuedState : Type 0 where
  queued : QueuedState
  active : ResourceId → QueuedState

pub record JobView : Type 0 where
  pub id : JobId
  pub priority : Priority
  pub target : Target
  pub preempt : Preemption
  pub state : QueuedState

pub record NoticeThresholds : Type 0 where
  pub after_yield : Span
  pub after_wait : Span

-- `Default for NoticeThresholds`: 15 and 30 minutes.
abbrev pub default_thresholds : NoticeThresholds
default_thresholds = record { after_yield = 15 * 60 * second; after_wait = 30 * 60 * second }

pub record StoredEpisode : Type 0 where
  pub id : ℕ
  pub job : JobId
  pub blocked_since : Time
  pub notified : Bool

pub record Snapshot : Type 0 where
  pub now : Time
  pub resources : List ResourceView
  pub queue : List JobView
  pub episode : Option StoredEpisode
  pub thresholds : NoticeThresholds

pub record Launch : Type 0 where
  pub job : JobId
  pub resource : ResourceId

pub record Preempt : Type 0 where
  pub resource : ResourceId
  pub job : JobId
  pub task : TaskId
  pub cause : StopCause

pub data Blocker : Type 0 where
  run_blocks : ResourceId → JobId → TaskId → Blocker
  attention_blocks : ResourceId → AttentionId → Blocker

pub record BlockedHead : Type 0 where
  pub job : JobId
  pub blocked_since : Time
  pub new_episode : Bool
  pub threshold : Span
  pub due_at : Time
  pub send_now : Bool
  pub blockers : List Blocker

pub record Decisions : Type 0 where
  pub launches : List Launch
  pub preemption : Option Preempt
  pub blocked : Option BlockedHead

-- What chrono says of its own range: the latest time, and the longest duration that it takes over
-- from the standard library.
pub record Chrono : Type 0 where
  pub max_utc : Time
  pub max_delta : Span
