-- ===== src/Queue/Schedule/Blocked.antt =====
-- `blocked_head` (src/queue/schedule.rs): what keeps the head from starting, and its notice timing.
use homebased.Base.{
  ◌+◌, Bool, true, false, not, ◌&&◌, ◌||◌, if◌then◌else◌, leb, ◌==◌, List, [], ◌∷◌, ◌++◌, any,
  filter, Option, none, some, is_none, map_or, unwrap_or,
}
use homebased.Ids.{Time, Span}
use homebased.Queue.Priority
use homebased.Queue.StopCause.{StopCause, yield}
use homebased.Queue.StopCause
use homebased.Queue.Job.{allows}
use homebased.Queue.Run.{ActiveRun, RunPhase, launching, executing, stopping, cleaning, attention}
use homebased.Queue.Schedule.Types.{
  ResourceView, JobView, StoredEpisode, Snapshot, Preempt, Blocker, run_blocks, attention_blocks,
  BlockedHead, Chrono,
}

-- The mutable variables of the loop.
pub record Scan : Type 0 where
  pub blockers : List Blocker
  pub held_up : Bool
  pub asked_to_yield : Bool

abbrev pub stopping_to_yield : RunPhase → Bool
stopping_to_yield (stopping _ cause _) = StopCause.is cause yield
stopping_to_yield (launching _) = false
stopping_to_yield (executing _) = false
stopping_to_yield (cleaning _) = false
stopping_to_yield (attention _ _) = false

-- The run's job is queued here, at a level below the head's.
abbrev pub of_lower_job : List JobView → JobView → ActiveRun → Bool
of_lower_job queue head run =
    any (λ job. job.id == run.job && Priority.lt job.priority head.priority) queue

unfoldable pub scan_run : List JobView → JobView → ResourceView → ActiveRun → RunPhase → Scan → Scan
scan_run queue head r run (attention id _) s = record s {
  blockers = s.blockers ++ attention_blocks r.id id ∷ [];
  held_up = true;
}
scan_run queue head r run phase s = record {
  blockers = s.blockers ++ run_blocks r.id run.job run.task ∷ [];
  held_up = s.held_up || of_lower_job queue head run;
  asked_to_yield = s.asked_to_yield || stopping_to_yield phase;
}

-- One round of the loop.
unfoldable pub scan_step : List JobView → JobView → ResourceView → Scan → Scan
scan_step queue head r s = elim r.run [
  | none ↦ s
  | some run ↦ scan_run queue head r run run.phase s
]

unfoldable pub scan : List JobView → JobView → List ResourceView → Scan → Scan
scan queue head [] s = s
scan queue head (r ∷ rs) s = scan queue head rs (scan_step queue head r s)

-- `chrono::Duration::from_std` and `checked_add_signed`.
from_std : Chrono → Span → Option Span
from_std c d = if leb d c.max_delta then some d else none

checked_add : Chrono → Time → Span → Option Time
checked_add c t d = if leb (t + d) c.max_utc then some (t + d) else none

unfoldable pub due_time : Chrono → Bool → Span → Time → Time
unfolding from_std checked_add
due_time c held_up threshold since =
    unwrap_or
      (elim (from_std c threshold) [
        | none ↦ none
        | some d ↦ if held_up then checked_add c since d else none
      ])
      c.max_utc

abbrev pub stored_episode : Snapshot → JobView → Option StoredEpisode
stored_episode snapshot head = elim snapshot.episode [
  | none ↦ none
  | some e ↦ if e.job == head.id then some e else none
]

-- Where the loop starts: whether the preemption just decided asks one of the head's runs to yield.
abbrev pub first_scan : JobView → Option Preempt → Scan
first_scan head preemption = record {
  blockers = [];
  held_up = false;
  asked_to_yield =
      map_or preemption false
        (λ stop. StopCause.is stop.cause yield && allows head.target stop.resource);
}

unfoldable pub scanned : Snapshot → JobView → Option Preempt → Scan
scanned snapshot head preemption =
    scan snapshot.queue head (filter (λ r. allows head.target r.id) snapshot.resources)
      (first_scan head preemption)

unfoldable pub blocked_head : Chrono → Snapshot → JobView → Option Preempt → BlockedHead
blocked_head c snapshot head preemption =
    let s = scanned snapshot head preemption in
    let stored = stored_episode snapshot head in
    let since = map_or stored snapshot.now (λ e. e.blocked_since) in
    let threshold =
      if s.asked_to_yield
      then snapshot.thresholds.after_yield
      else snapshot.thresholds.after_wait in
    let due = due_time c s.held_up threshold since in
    record {
      job = head.id;
      blocked_since = since;
      new_episode = is_none stored;
      threshold = threshold;
      due_at = due;
      send_now = leb due snapshot.now && not (map_or stored false (λ e. e.notified));
      blockers = s.blockers;
    }
