-- ===== src/Domain/ExitReason.antt =====
-- `ExitReason` of src/domain.rs and the status that it derives.
use homebased.Base.{zero, suc, String, ℤ, pos, negsuc}
use homebased.Domain.ProcessStatus.{ProcessStatus}

pub data ExitReason : Type 0 where
  exit : ℤ → ExitReason
  signal : ℤ → ExitReason
  cancelled : ExitReason
  spawn_failed : String → ExitReason

-- `From<&ExitReason> for ProcessStatus`.
unfoldable pub status : ExitReason → ProcessStatus
status (exit (pos zero)) = ProcessStatus.succeeded
status cancelled = ProcessStatus.cancelled
status (exit (pos (suc _))) = ProcessStatus.failed
status (exit (negsuc _)) = ProcessStatus.failed
status (signal _) = ProcessStatus.failed
status (spawn_failed _) = ProcessStatus.failed
