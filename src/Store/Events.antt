-- ===== src/Store/Events.antt =====
-- Job events (src/store/queue/jobs.rs, src/store/queue.rs).
use homebased.Base.{ℕ, ◌+◌, List, [], ◌∷◌, ◌++◌, Option, none, some, ◌==◌, Result, ok, ◌>>=◌, ok_or}
use homebased.Ids.{JobId, AttentionId}
use homebased.Error.{AppError, internal}
use homebased.Domain.ExitReason.{ExitReason}
use homebased.Queue.Run.{ActiveRun}
use homebased.Store.Types.{JobEventKind, EventRun, JobEvent, Tables}
use homebased.Store.Access.{update, resource, job}

unfoldable pub event_run : ActiveRun → EventRun
event_run run = record {
  resource = run.resource;
  task = run.task;
  run_number = run.run_number;
  step = run.step;
}

name_of : Tables → Option EventRun → Option (List ℕ)
unfolding resource
name_of s none = none
name_of s (some run) = elim (resource s run.resource) [ none ↦ none | some r ↦ some r.name ]

unfoldable pub next_seq : JobId → Tables → Tables
unfolding update
next_seq id s = record s {
  jobs = update (λ j. j.id == id) (λ j. record j { event_seq = j.event_seq + 1 }) s.jobs;
}

-- `append_job_event`: count the job's sequence up, and store the event under the new number. A job
-- that is not there has no sequence to read.
unfoldable pub append_job_event :
    JobId
    → JobEventKind
    → Option EventRun
    → Option ExitReason
    → Option AttentionId
    → Tables
    → Result (JobEvent × Tables) AppError
unfolding next_seq job name_of
append_job_event id kind run process attention s =
    let t = next_seq id s in
    do
      found ← ok_or (job t id) (internal "Query returned no rows")
      let event : JobEvent = record {
        job = id;
        seq = found.event_seq;
        event = kind;
        run = run;
        resource_name = name_of t run;
        process = process;
        attention = attention;
      }
      ok (event, record t { events = t.events ++ (event ∷ []) })
