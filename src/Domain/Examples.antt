-- ===== src/Domain/Examples.antt =====
-- Concrete tasks and reports, for the theorems on them (src/domain.rs).
use homebased.Base.{◌≡◌, ◌↔◌, refl, ◌≢◌, ◌⊎◌, true, false, [], ◌∷◌, none, some, ok, pos, arith}
use homebased.Domain.ProcessStatus.{succeeded}
use homebased.Domain.ExitReason.{exit}
use homebased.Domain.TaskState
use homebased.Domain.TaskState.{TaskState}
use homebased.Domain.Evidence.{
  ProcessGroupExitEvidence, no_child_spawned, confirmed_exited, ContainerExitEvidence, confirmed,
  TaskRow, work_exit_evidence,
}
use homebased.Domain.Report
use homebased.Domain.Report.{ReportKind, ReportOutcome, waiting_on, TaskReport, TaskReportWire}
use homebased.Domain.Lifecycle.{here, terminal_absorbs}
use homebased.Domain.RoundTrips.{from_storage-columns, of_wire-iff-to_wire}
use homebased.Domain.Release.{work_exit_evidence_witness}

terminal_absorbs_example : succeeded ≡ succeeded
terminal_absorbs_example = terminal_absorbs {from = succeeded} {to = succeeded} here refl

abbrev yielded : TaskState
yielded = TaskState.preempted (exit (pos 75))

from_storage-columns_example :
    TaskState.from_storage
      (TaskState.status yielded)
      (TaskState.exit_reason yielded)
      (TaskState.pid yielded)
    ≡ ok yielded
from_storage-columns_example = from_storage-columns yielded

abbrev waits : TaskReport
waits = record {
  seq = 3;
  outcome = waiting_on (record { on = 7 ∷ []; notes = "build" });
  summary = "waiting";
}

abbrev waits_wire : TaskReportWire
waits_wire = record {
  seq = 3;
  outcome = ReportKind.waiting;
  waiting_on = some (7 ∷ []);
  notes = some "build";
  summary = "waiting";
}

abbrev removed : TaskRow
removed = record {
  state = TaskState.finished (exit (pos 0));
  in_container = true;
  process_group_exit_evidence = ProcessGroupExitEvidence.unconfirmed;
  container_exit_evidence = confirmed "c0ffee" (pos 0);
}

work_exit_evidence_witness_example :
    (TaskState.exit_reason removed.state ≢ none)
    × ((removed.process_group_exit_evidence ≡ no_child_spawned)
        ⊎ ((removed.in_container ≡ true)
            × (removed.container_exit_evidence ≢ ContainerExitEvidence.unconfirmed))
        ⊎ ((removed.in_container ≡ false)
            × (removed.process_group_exit_evidence ≡ confirmed_exited)))
unfolding work_exit_evidence
work_exit_evidence_witness_example = work_exit_evidence_witness removed (λ e. ground arith)

of_wire-iff-to_wire_example :
    (Report.of_wire waits_wire ≡ ok waits) ↔ (Report.to_wire waits ≡ waits_wire)
of_wire-iff-to_wire_example = of_wire-iff-to_wire waits_wire waits
