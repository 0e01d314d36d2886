-- ===== src/Domain/ProcessStatus.antt =====
-- `ProcessStatus` of src/domain.rs with its storage tags.
use homebased.Base.{Bool, true, false, String, str_eq, str_append, if◌then◌else◌, Result, ok, err}
use homebased.Error.{AppError, internal}

pub data ProcessStatus : Type 0 where
  queued running succeeded failed cancelled lost preempted : ProcessStatus

abbrev pub is_terminal : ProcessStatus → Bool
is_terminal succeeded = true
is_terminal failed = true
is_terminal cancelled = true
is_terminal lost = true
is_terminal preempted = true
is_terminal queued = false
is_terminal running = false

abbrev pub as_str : ProcessStatus → String
as_str queued = "queued"
as_str running = "running"
as_str succeeded = "succeeded"
as_str failed = "failed"
as_str cancelled = "cancelled"
as_str lost = "lost"
as_str preempted = "preempted"

unfoldable pub from_storage : String → Result ProcessStatus AppError
from_storage value =
    if str_eq value "queued"
    then ok queued
    else if str_eq value "running"
    then ok running
    else if str_eq value "succeeded"
    then ok succeeded
    else if str_eq value "failed"
    then ok failed
    else if str_eq value "cancelled"
    then ok cancelled
    else if str_eq value "lost"
    then ok lost
    else if str_eq value "preempted"
    then ok preempted
    else err (internal (str_append "unknown process status: " value))
