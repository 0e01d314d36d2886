-- ===== src/Domain/Lifecycle.antt =====
-- The process status machine of src/domain.rs: what `check_status_transition` lets a task do.
use homebased.Base.{◌≡◌, refl, ◌≢◌, ◌⊎◌, true, ok, arith}
use homebased.Domain.ProcessStatus
use homebased.Domain.ProcessStatus.{
  ProcessStatus, queued, running, succeeded, failed, cancelled, lost, preempted,
}
use homebased.Domain.Transitions.{check_status_transition}

-- Sequences of accepted transitions.
infix 40 ◌⟶*◌
pub data ◌⟶*◌ (s : ProcessStatus) : ProcessStatus → Type 0 where
  here : s ⟶* s
  step : {t u : ProcessStatus} → s ⟶* t → check_status_transition t u ≡ ok tt → s ⟶* u

-- A terminal status accepts no transition.
pub terminal_refuses :
    (from to : ProcessStatus)
    → ProcessStatus.is_terminal from ≡ true
    → check_status_transition from to ≢ ok tt
unfolding check_status_transition
terminal_refuses from to h = ground arith

-- Any sequence of accepted transitions that starts at a terminal status ends there.
pub terminal_absorbs :
    {from to : ProcessStatus} → from ⟶* to → ProcessStatus.is_terminal from ≡ true → to ≡ from
terminal_absorbs here h = refl
terminal_absorbs {from} (step {t = t} {u = u} r e) h =
    let same = terminal_absorbs r h in absurd (terminal_refuses t u (rw same h) e)

never_queued_again : (t u : ProcessStatus) → check_status_transition t u ≡ ok tt → u ≢ queued
unfolding check_status_transition
never_queued_again t u h = ground arith

-- A task that has run, or ended without running, is never queued again, and one that was preempted
-- has run: only a running task becomes `preempted` or `succeeded`.
transition_shape :
    (t u : ProcessStatus)
    → check_status_transition t u ≡ ok tt
    → (u ≢ queued) × ((u ≡ preempted) ⊎ (u ≡ succeeded) → t ≡ running) × (u ≡ running → t ≡ queued)
unfolding check_status_transition
transition_shape t u h = (never_queued_again t u h, λ e. ground arith, λ e. ground arith)
