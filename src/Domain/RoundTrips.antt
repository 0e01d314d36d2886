-- ===== src/Domain/RoundTrips.antt =====
-- What src/domain.rs stores and reads back: task states, status tags and worker reports.
use text.Mathlib.TextEquality.{eq_iff}
use homebased.Base.{
  ◌≡◌, ◌↔◌, subst, refl, inl, inr, Option, ok, arith, ℤ, pos, negsuc, zero, suc, String, Bool-cases,
  Result-cases, str_eq,
}
use homebased.Domain.ProcessStatus
use homebased.Domain.ProcessStatus.{ProcessStatus}
use homebased.Domain.TaskStatus
use homebased.Domain.TaskStatus.{TaskStatus, held, process_status}
use homebased.Domain.ExitReason
use homebased.Domain.ExitReason.{ExitReason, exit, signal, spawn_failed}
use homebased.Domain.TaskState
use homebased.Domain.TaskState.{TaskState}
use homebased.Domain.Report
use homebased.Domain.Report.{TaskReport, TaskReportWire, ReportKind, ReportOutcome}

-- A task state survives storage: read back from its stored status, exit reason and worker pid it is
-- the same state.
pub from_storage-columns :
    (s : TaskState)
    → TaskState.from_storage (TaskState.status s) (TaskState.exit_reason s) (TaskState.pid s) ≡ ok s
unfolding TaskState.from_storage TaskState.status TaskState.exit_reason TaskState.pid
    ExitReason.status
from_storage-columns TaskState.queued = refl
from_storage-columns (TaskState.running p) = refl
from_storage-columns (TaskState.finished (exit (pos zero))) = refl
from_storage-columns (TaskState.finished (exit (pos (suc n)))) = refl
from_storage-columns (TaskState.finished (exit (negsuc n))) = refl
from_storage-columns (TaskState.finished (signal n)) = refl
from_storage-columns (TaskState.finished ExitReason.cancelled) = refl
from_storage-columns (TaskState.finished (spawn_failed m)) = refl
from_storage-columns TaskState.lost = refl
from_storage-columns (TaskState.preempted r) = refl

-- A state that is read from storage is terminal exactly if its stored status is.
from_storage-is_terminal :
    (st : ProcessStatus) (r : Option ExitReason) (p : Option ℤ) (s : TaskState)
    → TaskState.from_storage st r p ≡ ok s
    → TaskState.is_terminal s ≡ ProcessStatus.is_terminal st
unfolding TaskState.from_storage TaskState.is_terminal
from_storage-is_terminal st r p s h = ground arith

pub status_from-as_str :
    (s : ProcessStatus) → ProcessStatus.from_storage (ProcessStatus.as_str s) ≡ ok s
unfolding ProcessStatus.from_storage
status_from-as_str ProcessStatus.queued = refl
status_from-as_str ProcessStatus.running = refl
status_from-as_str ProcessStatus.succeeded = refl
status_from-as_str ProcessStatus.failed = refl
status_from-as_str ProcessStatus.cancelled = refl
status_from-as_str ProcessStatus.lost = refl
status_from-as_str ProcessStatus.preempted = refl

-- A public task status is parsed back from its name.
parse-as_str : (s : TaskStatus) → TaskStatus.parse (TaskStatus.as_str s) ≡ ok s
unfolding TaskStatus.parse TaskStatus.as_str ProcessStatus.from_storage
parse-as_str held = refl
parse-as_str (process_status ProcessStatus.queued) = refl
parse-as_str (process_status ProcessStatus.running) = refl
parse-as_str (process_status ProcessStatus.succeeded) = refl
parse-as_str (process_status ProcessStatus.failed) = refl
parse-as_str (process_status ProcessStatus.cancelled) = refl
parse-as_str (process_status ProcessStatus.lost) = refl
parse-as_str (process_status ProcessStatus.preempted) = refl

status_as_str-from :
    (v : String) (s : ProcessStatus)
    → ProcessStatus.from_storage v ≡ ok s
    → ProcessStatus.as_str s ≡ v
unfolding ProcessStatus.from_storage
status_as_str-from v s h = ground (
  arith,
  eq_iff v "queued",
  eq_iff v "running",
  eq_iff v "succeeded",
  eq_iff v "failed",
  eq_iff v "cancelled",
  eq_iff v "lost",
  eq_iff v "preempted",
)

-- Only the name of a status parses as that status.
as_str-parse : (v : String) (s : TaskStatus) → TaskStatus.parse v ≡ ok s → TaskStatus.as_str s ≡ v
unfolding TaskStatus.parse TaskStatus.as_str
as_str-parse v s h = elim (Bool-cases (str_eq v "held")) [
  | inl t ↦ ground (arith, eq_iff v "held")
  | inr f ↦ elim (Result-cases (ProcessStatus.from_storage v)) [
    | inl (st, e) ↦ ground (arith, status_as_str-from v st e)
    | inr (er, e) ↦ absurd (ground arith)
  ]
]

-- A report survives its JSON shape.
of_wire-to_wire : (r : TaskReport) → Report.of_wire (Report.to_wire r) ≡ ok r
unfolding Report.of_wire Report.to_wire
of_wire-to_wire r = ground arith

-- A JSON shape that is accepted is the shape of the report that it gives: a shape with targets or
-- notes beside another outcome than `waiting`, or a waiting one without both, is refused.
to_wire-of_wire :
    (w : TaskReportWire) (r : TaskReport) → Report.of_wire w ≡ ok r → Report.to_wire r ≡ w
unfolding Report.of_wire Report.to_wire
to_wire-of_wire w r h = ground arith

-- A text parses as a task status exactly if it is that status's name.
parse-iff-as_str :
    (v : String) (s : TaskStatus) → (TaskStatus.parse v ≡ ok s) ↔ (TaskStatus.as_str s ≡ v)
parse-iff-as_str v s =
    (as_str-parse v s, λ e. subst (λ (t : String). TaskStatus.parse t ≡ ok s) e (parse-as_str s))

-- A JSON shape is accepted as a report exactly if it is the shape that the report is written in: a
-- report survives its shape, and a shape with targets or notes beside another outcome than `waiting`, or
-- a waiting one without both, is refused.
pub of_wire-iff-to_wire :
    (w : TaskReportWire) (r : TaskReport) → (Report.of_wire w ≡ ok r) ↔ (Report.to_wire r ≡ w)
of_wire-iff-to_wire w r = (
  to_wire-of_wire w r,
  λ e. subst (λ (x : TaskReportWire). Report.of_wire x ≡ ok r) e (of_wire-to_wire r),
)
