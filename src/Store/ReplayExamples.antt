-- ===== src/Store/ReplayExamples.antt =====
-- A move that is asked for again under the id of another request, and a resource that is released
-- (src/store/queue/jobs.rs), for the theorems on operations that a person asks for.
use homebased.Base.{ℕ, ◌≡◌, refl, List, [], ◌∷◌, none, some, Result, ok, err, arith, Distinct}
use homebased.Ids.{MachineId}
use homebased.Error.{AppError, internal, queue, operation_conflict}
use homebased.Queue.Priority
use homebased.Queue.Priority.{Priority}
use homebased.Queue.Run.{ActiveRun, process_group_unconfirmed}
use homebased.Queue.Placement.{edge, front}
use homebased.Store.Types.{Tables}
use homebased.Store.Invariant.{Holds}
use homebased.Store.Steps.{Agrees}
use homebased.Store.Submit.{submit_job}
use homebased.Store.Move.{MoveResult, apply_move}
use homebased.Store.Cancel.{CancelResult, cancelled_at_once, stopping_run, already_terminal}
use homebased.Store.Operations.{
  Content, Token, number, text, ReleaseResult, Ledger, Json, attention_of, with_operation,
  apply_release,
}
use homebased.Store.Ledgers.{Released, here, between, with_operation-replay, apply_release-Agrees}
use homebased.Store.Scenario.{
  tables_after, value_of, start, cleaning_tables, left_over, cleaning-Agrees,
}
use homebased.Store.Reserve.{reserve_run_inner}
use homebased.Store.Requests.{mark_run_executing}
use homebased.Store.Commit.{commit_terminal}
use homebased.Store.Cleanup.{apply_cleanup_result}
use homebased.Store.CleanupLaws.{apply_cleanup_result-Agrees}
use homebased.Domain.TaskState
use homebased.Store.JobExamples.{submitted_tables, moved_tables, move_result}

abbrev unreadable : AppError
unreadable = internal "unreadable result"

abbrev write_move : MoveResult → List Token
write_move r = number r.job ∷ number (Priority.rank r.priority) ∷ number r.position ∷ []

abbrev read_move : List Token → Result MoveResult AppError
read_move (number job ∷ number rank ∷ number position ∷ []) = elim (Priority.from_rank rank) [
  | none ↦ err unreadable
  | some priority ↦ ok (record { job = job; priority = priority; position = position })
]
read_move _ = err unreadable

rank_read : (p : Priority) → Priority.from_rank (Priority.rank p) ≡ some p
rank_read Priority.low = refl
rank_read Priority.medium = refl
rank_read Priority.high = refl

read_move-write_move : (r : MoveResult) → read_move (write_move r) ≡ ok r
read_move-write_move r = ground (arith, rank_read r.priority)

abbrev moves : Json MoveResult
moves = record { write = write_move; read = read_move; read-write = read_move-write_move }

abbrev write_cancel : CancelResult → List Token
write_cancel cancelled_at_once = []
write_cancel (stopping_run at task) = number at ∷ number task ∷ []
write_cancel (already_terminal state) = text state ∷ []

abbrev read_cancel : List Token → Result CancelResult AppError
read_cancel [] = ok cancelled_at_once
read_cancel (number at ∷ number task ∷ []) = ok (stopping_run at task)
read_cancel (text state ∷ []) = ok (already_terminal state)
read_cancel _ = err unreadable

read_cancel-write_cancel : (r : CancelResult) → read_cancel (write_cancel r) ≡ ok r
read_cancel-write_cancel cancelled_at_once = refl
read_cancel-write_cancel (stopping_run at task) = refl
read_cancel-write_cancel (already_terminal state) = refl

abbrev cancels : Json CancelResult
cancels = record { write = write_cancel; read = read_cancel; read-write = read_cancel-write_cancel }

abbrev read_release : List Token → Result ReleaseResult AppError
read_release (number at ∷ number id ∷ []) = ok (record { resource = at; attention = id })
read_release _ = err unreadable

abbrev releases : Json ReleaseResult
releases = record {
  write = λ r. number r.resource ∷ number r.attention ∷ [];
  read = read_release;
  read-write = λ r. refl;
}

-- A digest that tells the two contents of the example apart.
abbrev content_digest : MachineId → Content → ℕ
content_digest machine (Content.move job placement) = 1
content_digest machine (Content.cancel job) = 2
content_digest machine (Content.release id) = 3

abbrev before : Ledger
before = record { tables = submitted_tables; operations = [] }

abbrev after_move : Ledger
after_move = record {
  tables = moved_tables;
  operations =
      record { id = 40; machine = 7; kind = "move"; digest = 1; result = write_move move_result }
      ∷ [];
}

with_operation-replay_example :
    with_operation content_digest moves 7 40
      (Content.cancel 11)
      (apply_move 7 10 (edge none front))
      (record after_move { tables = start })
    ≡ err (queue (operation_conflict 40))
unfolding submit_job apply_move with_operation homebased.Store.Levels.insert_by_position
with_operation-replay_example =
    with_operation-replay content_digest moves cancels releases moves 40 7
      (Content.move 11 (edge (some Priority.high) front))
      (apply_move 7 11 (edge (some Priority.high) front)) before after_move
      (record after_move { tables = start }) move_result refl (between start here) 7
      (Content.cancel 11) (apply_move 7 10 (edge none front))

-- The resource whose processes could not be confirmed gone waits for a person under attention 77.
abbrev stuck : Tables
stuck = tables_after cleaning_tables left_over

stuck-Agrees : Agrees stuck
unfolding reserve_run_inner mark_run_executing commit_terminal TaskState.from_storage
    apply_cleanup_result
stuck-Agrees =
    (apply_cleanup_result-Agrees cleaning_tables stuck 1 100 1 (err process_group_unconfirmed) 77
      (value_of none left_over) cleaning-Agrees refl).0

stuck-Distinct : Distinct (λ x. x.id) stuck.resources
unfolding reserve_run_inner mark_run_executing commit_terminal TaskState.from_storage
    apply_cleanup_result
stuck-Distinct = (refl, tt)

abbrev released : Result (ReleaseResult × Tables) AppError
released = apply_release 7 77 stuck

apply_release-Agrees_example :
    Agrees (tables_after stuck released)
    × (run : ActiveRun) × Holds stuck.resources 1 run
    × (attention_of run.phase ≡ some 77)
    × (◌≡◌ {A = ℕ} 77 77)
    × Released stuck (tables_after stuck released) 7 1
unfolding reserve_run_inner mark_run_executing commit_terminal TaskState.from_storage
    apply_cleanup_result apply_release
apply_release-Agrees_example =
    apply_release-Agrees stuck (tables_after stuck released) 7 77
      (record { resource = 1; attention = 77 }) stuck-Distinct stuck-Agrees refl
