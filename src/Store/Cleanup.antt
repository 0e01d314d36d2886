-- ===== src/Store/Cleanup.antt =====
-- Cleanup after a run (src/store/queue/runs.rs): the attempts, and their results.
use homebased.Base.{
  ℕ, Bool, false, Option, none, some, ◌==◌, Result, ok, err, ◌>>=◌, ◌>>◌, ensure, ok_or,
}
use homebased.Ids.{TaskId, ResourceId, AttentionId}
use homebased.Error.{
  queue, invariant, stale_run, not_cleaning, cleanup_attempt_limit, attempt_mismatch,
}
use homebased.Queue.Job.{checked_next}
use homebased.Queue.Run.{
  ActiveRun, RunPhase, launching, executing, stopping, cleaning, attention, phase_as_str,
  CleanupFailure,
}
use homebased.Store.Types.{job_attention, Tables, Tx}
use homebased.Store.Access.{update, require_run, write_run, clear_run}
use homebased.Store.Events.{append_job_event, event_run}

-- The attempt that a run is cleaning up in.
abbrev pub cleaning_attempt : RunPhase → Option ℕ
cleaning_attempt (cleaning n) = some n
cleaning_attempt (launching _) = none
cleaning_attempt (executing _) = none
cleaning_attempt (stopping _ _ _) = none
cleaning_attempt (attention _ _) = none

-- The body of `begin_cleanup_attempt`.
unfoldable pub begin_cleanup_attempt : ResourceId → TaskId → Tx ℕ
unfolding require_run write_run
begin_cleanup_attempt id task s = do
  run ← require_run s id task
  attempt ← ok_or (cleaning_attempt run.phase) (queue (stale_run id not_cleaning))
  next ← ok_or (checked_next attempt) (queue (invariant (cleanup_attempt_limit task)))
  (_, t) ← write_run (record run { phase = cleaning next }) s
  ok (next, t)

unfoldable pub is_attempt : RunPhase → ℕ → Bool
is_attempt phase attempt = elim (cleaning_attempt phase) [ none ↦ false | some n ↦ n == attempt ]

unfoldable pub record_cleanup : TaskId → Result (Unit {0}) CleanupFailure → Tables → Tables
unfolding update
record_cleanup task result s = record s {
  history = update (λ h. h.task == task) (λ h. record h { cleanup = some result }) s.history;
}

-- What a result does to the run; `fresh` is the `AttentionId` that is drawn for a failure.
unfoldable pub settle_cleanup :
    ResourceId → ActiveRun → AttentionId → Result (Unit {0}) CleanupFailure → Tx (Option RunPhase)
unfolding clear_run write_run append_job_event event_run
settle_cleanup id run fresh (ok _) s = ok (none, clear_run id s)
settle_cleanup id run fresh (err failure) s = do
  (stored, t) ← write_run (record run { phase = attention fresh failure }) s
  (_, t₂) ← append_job_event stored.job job_attention (some (event_run stored)) none (some fresh) t
  ok (some stored.phase, t₂)

-- The body of `apply_cleanup_result`.
unfoldable pub apply_cleanup_result :
    ResourceId → TaskId → ℕ → Result (Unit {0}) CleanupFailure → AttentionId → Tx (Option RunPhase)
unfolding require_run is_attempt record_cleanup settle_cleanup
apply_cleanup_result id task attempt result fresh s = do
  run ← require_run s id task
  ensure (is_attempt run.phase attempt)
      (queue (stale_run id (attempt_mismatch attempt (phase_as_str run.phase))))
  settle_cleanup id run fresh result (record_cleanup task result s)
