-- ===== src/Store/Operations.antt =====
-- A person's operations on a machine's queue (src/store/queue/jobs.rs): each runs once under its id, and
-- a replay of the request gets the stored answer.
use homebased.Base.{
  Bool, not, String, List, ◌∷◌, find, Option, none, some, Result, ok, err, ◌>>=◌, ok_or,
  if◌then◌else◌, ◌==◌, ◌&&◌, map_or, false, ℕ, ◌≡◌,
}
use homebased.Ids.{MachineId, JobId, ResourceId, AttentionId, OperationId, Time}
use homebased.Error.{AppError, queue, operation_conflict, attention_not_found}
use homebased.Queue.Placement.{Placement}
use homebased.Queue.Run.{RunPhase, launching, executing, stopping, cleaning, attention}
use homebased.Store.Types.{ResourceRecord, Tables, Tx}
use homebased.Store.Access.{clear_run, immediate}
use homebased.Store.Move.{MoveResult, apply_move}
use homebased.Store.Cancel.{CancelResult, apply_cancel}

-- What a request asks for, with the kind that its digest names.
pub data Content : Type 0 where
  move : JobId → Placement → Content
  cancel : JobId → Content
  release : AttentionId → Content

unfoldable pub kind : Content → String
kind (move job placement) = "move"
kind (cancel job) = "cancel"
kind (release id) = "release"

pub record ReleaseResult : Type 0 where
  pub resource : ResourceId
  pub attention : AttentionId

-- The numbers and the texts that a JSON value is written with.
pub data Token : Type 0 where
  number : ℕ → Token
  text : String → Token

-- A row of `resource_operations`.
pub record OperationRow : Type 0 where
  pub id : OperationId
  pub machine : MachineId
  pub kind : String
  pub digest : ℕ
  pub result : List Token

pub record Ledger : Type 0 where
  pub tables : Tables
  pub operations : List OperationRow

-- The JSON of a result, of which the store relies on that it is read back as it was written.
pub record Json (R : Type 0) : Type 0 where
  pub write : R → List Token
  pub read : List Token → Result R AppError
  pub read-write : (r : R) → read (write r) ≡ ok r

-- `run_attention_id`: the attention of a resource's run.
unfoldable pub attention_of : RunPhase → Option AttentionId
attention_of (attention id failure) = some id
attention_of (launching since) = none
attention_of (executing since) = none
attention_of (stopping since cause at) = none
attention_of (cleaning attempt) = none

unfoldable pub has_attention : AttentionId → ResourceRecord → Bool
unfolding attention_of
has_attention id r =
    map_or r.run false (λ run. map_or (attention_of run.phase) false (λ own. own == id))

unfoldable pub apply_release : MachineId → AttentionId → Tx ReleaseResult
unfolding has_attention clear_run
apply_release machine id s = do
  found ←
      ok_or (find (λ r. (r.machine == machine) && has_attention id r) s.resources)
        (queue (attention_not_found id))
  ok (record { resource = found.id; attention = id }, clear_run found.id s)

-- The digest of kind, machine and content, SHA-256 over JSON, is a parameter.
module _ (digest : MachineId → Content → ℕ) where
  unfoldable pub with_operation :
      {R : Type 0}
      → Json R
      → MachineId
      → OperationId
      → Content
      → Tx R
      → Ledger
      → Result (R × Ledger) AppError
  unfolding kind
  with_operation json machine operation content apply q =
      elim (find (λ r. r.id == operation) q.operations) [
        | some row ↦
            if not (row.digest == digest machine content)
            then err (queue (operation_conflict operation))
            else (json.read row.result >>= λ result. ok (result, q))
        | none ↦ apply q.tables >>= λ (result, t). ok (
          result,
          record {
            tables = t;
            operations =
                record {
                  id = operation;
                  machine = machine;
                  kind = kind content;
                  digest = digest machine content;
                  result = json.write result;
                }
                ∷ q.operations;
          },
        )
      ]

  unfoldable pub move_job :
      Json MoveResult
      → MachineId
      → OperationId
      → JobId
      → Placement
      → Ledger
      → Result MoveResult AppError × Ledger
  unfolding immediate with_operation apply_move
  move_job json machine operation job placement = immediate (
      with_operation json machine operation (move job placement) (apply_move machine job placement))

  unfoldable pub cancel_job :
      Json CancelResult
      → MachineId
      → OperationId
      → JobId
      → Time
      → Ledger
      → Result CancelResult AppError × Ledger
  unfolding immediate with_operation apply_cancel
  cancel_job json machine operation job now =
      immediate (with_operation json machine operation (cancel job) (apply_cancel machine job now))

  unfoldable pub release_resource_attention :
      Json ReleaseResult
      → MachineId
      → OperationId
      → AttentionId
      → Ledger
      → Result ReleaseResult AppError × Ledger
  unfolding immediate with_operation apply_release
  release_resource_attention json machine operation id =
      immediate (with_operation json machine operation (release id) (apply_release machine id))
