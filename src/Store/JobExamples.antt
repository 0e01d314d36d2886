-- ===== src/Store/JobExamples.antt =====
-- A second job that is submitted, asked for again and moved to the front (src/store/queue/jobs.rs), for
-- the theorems on these operations.
use homebased.Base.{ℕ, ◌+◌, ◌≡◌, refl, false, [], ◌∷◌, some, Result, ok, err, arith}
use homebased.Error.{AppError, queue, job_conflict}
use homebased.Queue.Priority.{Priority}
use homebased.Queue.Job.{queued, is_terminal, Target, StepWorkload}
use homebased.Queue.Placement.{edge, front}
use homebased.Store.Types.{JobRecord, Tables}
use homebased.Store.Invariant.{at_job}
use homebased.Store.Submit.{JobSpec, NewJob, JobAccepted, by_id, accepted, submit_job}
use homebased.Store.SubmitLaws.{submit_job-again}
use homebased.Store.Move.{Slot, MoveResult, slot_of, others, apply_move}
use homebased.Store.MoveFacts.{SlotsChecked}
use homebased.Store.Between.{Between}
use homebased.Store.MoveLaws.{MovedTo, apply_move-MovedTo}
use homebased.Store.Scenario.{tables_after, value_of, training, start}

abbrev digest : JobSpec → Result ℕ AppError
digest spec = ok (spec.thread + 72)

abbrev other_job : NewJob
other_job = record {
  id = 11;
  machine = 7;
  origin = 7;
  spec = record {
    thread = 5;
    priority = Priority.low;
    resource = some (by_id 1);
    steps = record { list = StepWorkload.task "evaluate" ∷ [] };
    content = [];
  };
}

abbrev submitted : Result (JobAccepted × Tables) AppError
submitted = submit_job digest other_job start

abbrev pub submitted_tables : Tables
submitted_tables = tables_after start submitted

abbrev nothing : JobAccepted
nothing = accepted training

abbrev evaluating : JobRecord
evaluating = record {
  id = 11;
  machine = 7;
  origin = 7;
  thread = 5;
  steps = record { list = StepWorkload.task "evaluate" ∷ [] };
  digest = 77;
  target = Target.pinned 1;
  priority = Priority.low;
  position = some 1;
  state = queued false;
  step = 0;
  runs = 0;
  event_seq = 0;
}

submit_job-again_example :
    (submit_job digest other_job submitted_tables ≡ ok (accepted evaluating, submitted_tables))
    × (submit_job digest (record other_job { origin = 9 }) submitted_tables
        ≡ err (queue (job_conflict 11)))
unfolding submit_job
submit_job-again_example =
    submit_job-again digest other_job (record other_job { origin = 9 }) start submitted_tables
      submitted_tables (value_of nothing submitted) 77 77 evaluating evaluating refl refl refl refl
      (refl, refl, refl) refl refl

submitted-SlotsChecked : SlotsChecked submitted_tables.jobs
unfolding submit_job
submitted-SlotsChecked = record { unique = (refl, (refl, tt)); slots = λ k j h. ground (arith, h) }

abbrev moved : Result (MoveResult × Tables) AppError
moved = apply_move 7 11 (edge (some Priority.high) front) submitted_tables

abbrev pub moved_tables : Tables
moved_tables = tables_after submitted_tables moved

abbrev pub move_result : MoveResult
move_result = record { job = 11; priority = Priority.high; position = 1 }

apply_move-MovedTo_example :
    (j : JobRecord) × (at_job submitted_tables.jobs 11 ≡ some j)
    × (is_terminal j.state ≡ false)
    × (slot : Slot) × (slot_of submitted_tables 7 j (edge (some Priority.high) front)
        ≡ ok (Priority.high, slot))
    × (index : ℕ) × Between slot 11 (others submitted_tables 7 Priority.high 11) index
    × (◌≡◌ {A = ℕ} 1 (index + 1))
    × MovedTo submitted_tables moved_tables 7 j Priority.high index
unfolding submit_job apply_move homebased.Store.Levels.insert_by_position
apply_move-MovedTo_example =
    apply_move-MovedTo submitted_tables moved_tables 7 11 (edge (some Priority.high) front)
      move_result submitted-SlotsChecked refl
