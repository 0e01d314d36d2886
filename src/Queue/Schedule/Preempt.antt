-- ===== src/Queue/Schedule/Preempt.antt =====
-- The preemption of `decide` (src/queue/schedule.rs).
use homebased.Base.{
  ℕ, Bool, true, false, not, if◌then◌else◌, ltb, ◌==◌, List, [], ◌∷◌, any, filter, find, filter_map,
  find_map, Option, none, some, map_or,
}
use homebased.Ids.{Time}
use homebased.Queue.Priority
use homebased.Queue.Priority.{Priority}
use homebased.Queue.StopCause.{StopCause, yield, restart, user_cancel}
use homebased.Queue.Preemption.{PreemptStop, stop_at}
use homebased.Queue.Job.{allows}
use homebased.Queue.Run.{ActiveRun, RunPhase, launching, executing, stopping, cleaning, attention}
use homebased.Queue.Schedule.Types.{JobView, Snapshot, Preempt}

abbrev pub stopping_for_preemption : RunPhase → Bool
stopping_for_preemption (stopping _ yield _) = true
stopping_for_preemption (stopping _ restart _) = true
stopping_for_preemption (stopping _ user_cancel _) = false
stopping_for_preemption (launching _) = false
stopping_for_preemption (executing _) = false
stopping_for_preemption (cleaning _) = false
stopping_for_preemption (attention _ _) = false

unfoldable pub preemption_in_flight : Snapshot → Bool
preemption_in_flight snapshot =
    any (λ r. map_or r.run false (λ run. stopping_for_preemption run.phase)) snapshot.resources

-- A run that may be stopped, with the parts of its sort key.
pub record Candidate : Type 0 where
  pub level : Priority
  pub stop : PreemptStop
  pub started_at : Time
  pub run : ActiveRun

abbrev pub stop_rank : PreemptStop → ℕ
stop_rank PreemptStop.restart = 0
stop_rank PreemptStop.yield = 1

abbrev pub lex : ℕ → ℕ → Bool → Bool
lex a b rest = if ltb a b then true else if ltb b a then false else rest

-- The order of the keys `(level, stop, Reverse(started_at), resource)`.
abbrev pub key_lt : Candidate → Candidate → Bool
key_lt c d = lex (Priority.rank c.level) (Priority.rank d.level) (
    lex (stop_rank c.stop) (stop_rank d.stop)
      (lex d.started_at c.started_at (ltb c.run.resource d.run.resource)))

-- `min_by_key`: the first of several minima.
unfoldable pub min_from : Candidate → List Candidate → Candidate
min_from best [] = best
min_from best (c ∷ cs) = min_from (if key_lt c best then c else best) cs

unfoldable pub min_by_key : List Candidate → Option Candidate
min_by_key [] = none
min_by_key (c ∷ cs) = some (min_from c cs)

unfoldable pub executing_since : RunPhase → Option Time
executing_since (executing started_at) = some started_at
executing_since _ = none

-- The body of the second `filter_map` of `preempt_for`.
unfoldable pub candidate_of : Snapshot → JobView → ActiveRun → Option Candidate
candidate_of snapshot waiting run = elim (executing_since run.phase) [
  | none ↦ none
  | some started_at ↦ elim (find (λ job. job.id == run.job) snapshot.queue) [
    | none ↦ none
    | some job ↦
        if not (Priority.lt job.priority waiting.priority)
        then none
        else elim (stop_at job.preempt started_at snapshot.now) [
          | none ↦ none
          | some stop ↦
              some
                (record { level = job.priority; stop = stop; started_at = started_at; run = run })
        ]
  ]
]

unfoldable pub candidates : Snapshot → JobView → List Candidate
candidates snapshot waiting =
    filter_map (candidate_of snapshot waiting)
      (filter_map (λ r. r.run) (filter (λ r. allows waiting.target r.id) snapshot.resources))

abbrev pub cause_of_stop : PreemptStop → StopCause
cause_of_stop PreemptStop.restart = restart
cause_of_stop PreemptStop.yield = yield

abbrev pub preempt_of : Candidate → Preempt
preempt_of c = record {
  resource = c.run.resource;
  job = c.run.job;
  task = c.run.task;
  cause = cause_of_stop c.stop;
}

unfoldable pub preempt_for : Snapshot → JobView → Option Preempt
preempt_for snapshot waiting = elim (min_by_key (candidates snapshot waiting)) [
  | none ↦ none
  | some c ↦ some (preempt_of c)
]

unfoldable pub preemption : Snapshot → List JobView → Option Preempt
preemption snapshot waiting =
    if preemption_in_flight snapshot then none else find_map (preempt_for snapshot) waiting
