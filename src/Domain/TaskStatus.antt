-- ===== src/Domain/TaskStatus.antt =====
-- `TaskStatus` of src/domain.rs: the process status, or `held` before a held task launches.
use homebased.Base.{String, str_eq, if◌then◌else◌, Option, none, some, Result, ok, ◌>>=◌}
use homebased.Error.{AppError}
use homebased.Domain.ProcessStatus
use homebased.Domain.ProcessStatus.{ProcessStatus}

pub data TaskStatus : Type 0 where
  held : TaskStatus
  process_status : ProcessStatus → TaskStatus

unfoldable pub as_str : TaskStatus → String
as_str held = "held"
as_str (process_status s) = ProcessStatus.as_str s

unfoldable pub parse : String → Result TaskStatus AppError
parse value =
    if str_eq value "held"
    then ok held
    else (do status ← ProcessStatus.from_storage value; ok (process_status status))

unfoldable pub process : TaskStatus → Option ProcessStatus
process held = none
process (process_status s) = some s
