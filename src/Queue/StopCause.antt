-- ===== src/Queue/StopCause.antt =====
-- Why a run was asked to stop: `StopCause` of src/queue.rs. The order is that of declaration.
use homebased.Base.{ℕ, Bool, String, str_eq, if◌then◌else◌, leb, ◌==◌, Result, ok, err}
use homebased.Error.{QueueError, corrupt, unknown_stop_cause}

pub data StopCause : Type 0 where
  yield restart user_cancel : StopCause

abbrev pub strength : StopCause → ℕ
strength yield = 0
strength restart = 1
strength user_cancel = 2

abbrev pub is : StopCause → StopCause → Bool
is a b = strength a == strength b

-- `self.max(later)`.
unfoldable pub upgrade : StopCause → StopCause → StopCause
upgrade earlier later = if leb (strength earlier) (strength later) then later else earlier

unfoldable pub as_str : StopCause → String
as_str yield = "yield"
as_str restart = "restart"
as_str user_cancel = "user_cancel"

unfoldable pub parse : String → Result StopCause QueueError
parse raw =
    if str_eq raw "yield"
    then ok yield
    else if str_eq raw "restart"
    then ok restart
    else if str_eq raw "user_cancel"
    then ok user_cancel
    else err (corrupt (unknown_stop_cause raw))
