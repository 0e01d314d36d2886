-- ===== src/Dependency/Types.antt =====
-- How dependencies end (src/dependency.rs, and `EventKind` of src/callback.rs).
use homebased.Base.{Bool, true, false, String, str_eq, Option, none, some, if◌then◌else◌}
use homebased.Ids.{TaskId}

pub data EventKind : Type 0 where
  task_reported task_check_due task_cancelled task_lost task_blocked task_waiting task_failed :
      EventKind
  task_succeeded task_preempted : EventKind

pub data TaskOutcome : Type 0 where
  succeeded failed blocked cancelled lost preempted : TaskOutcome

unfoldable pub from_event : EventKind → Option TaskOutcome
from_event task_succeeded = some succeeded
from_event task_failed = some failed
from_event task_blocked = some blocked
from_event task_cancelled = some cancelled
from_event task_lost = some lost
from_event task_preempted = some preempted
from_event task_reported = none
from_event task_check_due = none
from_event task_waiting = none

unfoldable pub as_str : TaskOutcome → String
as_str succeeded = "succeeded"
as_str failed = "failed"
as_str blocked = "blocked"
as_str cancelled = "cancelled"
as_str lost = "lost"
as_str preempted = "preempted"

unfoldable pub from_storage : String → Option TaskOutcome
from_storage value =
    if str_eq value "succeeded"
    then some succeeded
    else if str_eq value "failed"
    then some failed
    else if str_eq value "blocked"
    then some blocked
    else if str_eq value "cancelled"
    then some cancelled
    else if str_eq value "lost"
    then some lost
    else if str_eq value "preempted"
    then some preempted
    else none

pub data DependencyOutcome : Type 0 where
  known : TaskOutcome → DependencyOutcome
  unknown : DependencyOutcome

-- `DependencyOutcome::is_success`, with `TaskOutcome::is_success`.
abbrev pub is_success : DependencyOutcome → Bool
is_success (known succeeded) = true
is_success (known failed) = false
is_success (known blocked) = false
is_success (known cancelled) = false
is_success (known lost) = false
is_success (known preempted) = false
is_success unknown = false

pub data DependencyState : Type 0 where
  pending : DependencyState
  ended : DependencyOutcome → DependencyState

pub record DependencyFailure : Type 0 where
  pub dependency : TaskId
  pub outcome : DependencyOutcome

pub data HeldDecision : Type 0 where
  wait release : HeldDecision
  cancel : DependencyFailure → HeldDecision

pub data ReleaseRule : Type 0 where
  on_success on_end : ReleaseRule
