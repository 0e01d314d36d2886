-- ===== src/Domain/Release.antt =====
-- Which evidence of src/domain.rs says that the work of a task stopped.
use homebased.Base.{◌≡◌, ◌≢◌, ◌⊎◌, true, false, none, arith, ℤ, String}
use homebased.Domain.TaskState.{exit_reason}
use homebased.Domain.Evidence.{
  confirmed_exited, no_child_spawned, ContainerExitEvidence, confirmed, WorkExitEvidence,
  container_removed, TaskRow, work_exit_evidence,
}

-- The work of a task counts as stopped only once the task ended with an exit reason, and then only on
-- a witness of its own kind: that no child was spawned; for a container, that it never started or
-- that the named container was removed; for any other task, that its process group exited.
pub work_exit_evidence_witness :
    (row : TaskRow)
    → work_exit_evidence row ≢ WorkExitEvidence.unconfirmed
    → (exit_reason row.state ≢ none)
      × ((row.process_group_exit_evidence ≡ no_child_spawned)
          ⊎ ((row.in_container ≡ true)
              × (row.container_exit_evidence ≢ ContainerExitEvidence.unconfirmed))
          ⊎ ((row.in_container ≡ false) × (row.process_group_exit_evidence ≡ confirmed_exited)))
unfolding work_exit_evidence exit_reason
work_exit_evidence_witness row h = (λ e. h (ground arith), ground arith)

-- A container task is reported as removed exactly with the id and exit code of its container
-- witness, whatever its process group did.
container_removed_witness :
    (row : TaskRow) (id : String) (code : ℤ)
    → work_exit_evidence row ≡ container_removed id code
    → (row.in_container ≡ true) × (row.container_exit_evidence ≡ confirmed id code)
unfolding work_exit_evidence
container_removed_witness row id code h = ground arith
