-- ===== src/Queue/Examples.antt =====
-- Concrete runs, stops and flags, for the theorems on them (src/queue.rs, src/queue/classify.rs).
use homebased.Base.{◌-◌, ◌*◌, ◌≤◌, ◌<◌, ◌≡◌, ◌≢◌, ◌⊎◌, ◌↔◌, true, false, none, some, ok, pos}
use homebased.Domain.ProcessStatus
use homebased.Domain.ProcessStatus.{ProcessStatus}
use homebased.Domain.ExitReason.{ExitReason, exit}
use homebased.Domain.Transitions.{check_status_transition}
use homebased.Queue.Priority
use homebased.Queue.StopCause.{yield, restart, user_cancel, upgrade, strength}
use homebased.Queue.Classify.{
  RunEnd, exit_0, exit_75, from_terminal, RunOutcome, outcome_status, JobTransition, requeue,
  next_step, classify,
}
use homebased.Queue.RunEnds.{
  IsEnded, classify-requeue, classify-transition, classify-user_cancel, classify-progress,
  from_terminal-reason,
}
use homebased.Queue.Preemption.{RestartWindow, Preemption, PreemptStop, stop_at, second}
use homebased.Queue.Placement.{Side, relative, MoveFlags, from_flags}
use homebased.Queue.Stops.{upgrade_join, stop_at_modes, Named, from_flags-ok}

classify-requeue_example :
    (((classify exit_75 (some yield) false).job ≡ requeue true) ↔ (
      ((exit_75 ≡ exit_75) × (some yield ≡ some yield) × (true ≡ true))
      ⊎ ((exit_75 ≡ RunEnd.cancelled) × (some yield ≡ some restart) × (true ≡ false))))
    × (((classify exit_75 (some yield) false).outcome ≡ RunOutcome.preempted) ↔ (
        ((exit_75 ≡ exit_75) × (some yield ≡ some yield))
        ⊎ ((exit_75 ≡ RunEnd.cancelled) × (some yield ≡ some restart))))
classify-requeue_example = classify-requeue exit_75 (some yield) false true

classify-transition_example :
    (check_status_transition ProcessStatus.running
        (outcome_status (classify RunEnd.lost none true).outcome)
      ≡ ok tt)
    × (ProcessStatus.is_terminal (outcome_status (classify RunEnd.lost none true).outcome) ≡ true)
classify-transition_example = classify-transition RunEnd.lost none true

classify-user_cancel_example :
    (((exit_0 ≡ exit_0) × (true ≡ true))
      → (classify exit_0 (some user_cancel) true).job ≡ JobTransition.succeeded)
    × (((exit_0 ≢ exit_0) ⊎ (true ≡ false))
        → (classify exit_0 (some user_cancel) true).job ≡ JobTransition.cancelled)
classify-user_cancel_example = classify-user_cancel exit_0 true

classify-progress_example :
    (((classify exit_0 none false).job ≡ next_step)
      → (exit_0 ≡ exit_0) × (false ≡ false) × (none ≢ some user_cancel))
    × (((classify exit_0 none false).job ≡ JobTransition.succeeded)
        ↔ ((exit_0 ≡ exit_0) × (false ≡ true)))
classify-progress_example = classify-progress exit_0 none false

from_terminal-reason_example :
    ((from_terminal ProcessStatus.failed (some (exit (pos 75))) ≡ none) ↔ (
      (ProcessStatus.is_terminal ProcessStatus.failed ≡ false)
      ⊎ ((ProcessStatus.failed ≢ ProcessStatus.lost) × (some (exit (pos 75)) ≡ none))))
    × ((from_terminal ProcessStatus.failed (some (exit (pos 75))) ≡ some RunEnd.lost)
        ↔ (ProcessStatus.failed ≡ ProcessStatus.lost))
    × ((from_terminal ProcessStatus.failed (some (exit (pos 75))) ≡ some exit_0)
        ↔ (IsEnded ProcessStatus.failed × (some (exit (pos 75)) ≡ some (exit (pos 0)))))
    × ((from_terminal ProcessStatus.failed (some (exit (pos 75))) ≡ some exit_75)
        ↔ (IsEnded ProcessStatus.failed × (some (exit (pos 75)) ≡ some (exit (pos 75)))))
    × ((from_terminal ProcessStatus.failed (some (exit (pos 75))) ≡ some RunEnd.cancelled)
        ↔ (IsEnded ProcessStatus.failed × (some (exit (pos 75)) ≡ some ExitReason.cancelled)))
from_terminal-reason_example = from_terminal-reason ProcessStatus.failed (some (exit (pos 75)))

upgrade_join_example :
    ((upgrade restart user_cancel ≡ restart) ⊎ (upgrade restart user_cancel ≡ user_cancel))
    × (strength restart ≤ strength (upgrade restart user_cancel))
    × (strength user_cancel ≤ strength (upgrade restart user_cancel))
    × (upgrade restart user_cancel ≡ upgrade user_cancel restart)
    × (upgrade (upgrade restart user_cancel) yield ≡ upgrade restart (upgrade user_cancel yield))
    × (upgrade restart restart ≡ restart)
upgrade_join_example = upgrade_join restart user_cancel yield

abbrev two_minutes : RestartWindow
two_minutes = record { span = 120 * second }

stop_at_modes_example :
    (stop_at Preemption.restart 0 (120 * second) ≡ some PreemptStop.restart)
    × (stop_at (Preemption.wait none) 0 (120 * second) ≡ none)
    × (stop_at (Preemption.yield none) 0 (120 * second) ≡ some PreemptStop.yield)
    × ((stop_at (Preemption.wait (some two_minutes)) 0 (120 * second) ≡ some PreemptStop.restart)
        ↔ (120 * second - 0 < two_minutes.span))
    × ((stop_at (Preemption.wait (some two_minutes)) 0 (120 * second) ≡ none)
        ↔ (two_minutes.span ≤ 120 * second - 0))
    × ((stop_at (Preemption.yield (some two_minutes)) 0 (120 * second) ≡ some PreemptStop.restart)
        ↔ (120 * second - 0 < two_minutes.span))
    × ((stop_at (Preemption.yield (some two_minutes)) 0 (120 * second) ≡ some PreemptStop.yield)
        ↔ (two_minutes.span ≤ 120 * second - 0))
stop_at_modes_example = stop_at_modes two_minutes 0 (120 * second)

abbrev beside_three : MoveFlags
beside_three = record {
  front = false;
  back = false;
  priority = some Priority.high;
  before = some 3;
  after = none;
}

from_flags-ok_example :
    (from_flags beside_three ≡ ok (relative 3 Side.before (some Priority.high)))
    ↔ Named false false
        (some Priority.high)
        (some 3)
        none
        (relative 3 Side.before (some Priority.high))
from_flags-ok_example = from_flags-ok beside_three (relative 3 Side.before (some Priority.high))
