-- ===== src/Domain/Report.antt =====
-- Worker reports of src/domain.rs and their JSON shape, in which the targets and notes of a waiting
-- report stand beside its outcome tag. The times of a report are left out: they are copied.
use homebased.Base.{
  ℕ, String, str_eq, str_append, if◌then◌else◌, List, Option, none, some, Result, ok, err, ◌>>=◌,
}
use homebased.Ids.{TaskId}
use homebased.Error.{AppError, internal}

pub data ReportKind : Type 0 where
  succeeded failed blocked waiting : ReportKind

unfoldable pub kind_as_str : ReportKind → String
kind_as_str succeeded = "succeeded"
kind_as_str failed = "failed"
kind_as_str blocked = "blocked"
kind_as_str waiting = "waiting"

unfoldable pub kind_from_storage : String → Result ReportKind AppError
kind_from_storage value =
    if str_eq value "succeeded"
    then ok succeeded
    else if str_eq value "failed"
    then ok failed
    else if str_eq value "blocked"
    then ok blocked
    else if str_eq value "waiting"
    then ok waiting
    else err (internal (str_append "unknown report outcome: " value))

-- `WaitingReport` of src/waiting.rs.
pub record WaitingReport : Type 0 where
  pub on : List TaskId
  pub notes : String

pub data ReportOutcome : Type 0 where
  succeeded failed blocked : ReportOutcome
  waiting_on : WaitingReport → ReportOutcome

unfoldable pub kind : ReportOutcome → ReportKind
kind ReportOutcome.succeeded = ReportKind.succeeded
kind ReportOutcome.failed = ReportKind.failed
kind ReportOutcome.blocked = ReportKind.blocked
kind (waiting_on _) = waiting

pub record TaskReport : Type 0 where
  pub seq : ℕ
  pub outcome : ReportOutcome
  pub summary : String

pub record TaskReportWire : Type 0 where
  pub seq : ℕ
  pub outcome : ReportKind
  pub waiting_on : Option (List TaskId)
  pub notes : Option String
  pub summary : String

wire_outcome : ReportKind → Option (List TaskId) → Option String → Result ReportOutcome String
wire_outcome waiting (some on) (some notes) = ok (waiting_on (record { on = on; notes = notes }))
wire_outcome waiting _ _ = err "a waiting report needs waiting_on and notes"
wire_outcome ReportKind.succeeded none none = ok ReportOutcome.succeeded
wire_outcome ReportKind.failed none none = ok ReportOutcome.failed
wire_outcome ReportKind.blocked none none = ok ReportOutcome.blocked
wire_outcome _ _ _ = err "only a waiting report has waiting_on and notes"

-- `TryFrom<TaskReportWire> for TaskReport`.
unfoldable pub of_wire : TaskReportWire → Result TaskReport String
unfolding wire_outcome
of_wire wire = do
  outcome ← wire_outcome wire.outcome wire.waiting_on wire.notes
  ok (record { seq = wire.seq; outcome = outcome; summary = wire.summary })

targets_of : ReportOutcome → Option (List TaskId)
targets_of (waiting_on w) = some w.on
targets_of _ = none

notes_of : ReportOutcome → Option String
notes_of (waiting_on w) = some w.notes
notes_of _ = none

-- `From<TaskReport> for TaskReportWire`.
unfoldable pub to_wire : TaskReport → TaskReportWire
unfolding kind targets_of notes_of
to_wire report = record {
  seq = report.seq;
  outcome = kind report.outcome;
  waiting_on = targets_of report.outcome;
  notes = notes_of report.outcome;
  summary = report.summary;
}
