-- ===== src/Store/MoveAgrees.antt =====
-- A move changes no run and no state (src/store/queue/jobs.rs).
use homebased.Base.{
  ◌≡◌, ◌∙◌, sym, subst, refl, not, ensure-ok, >>=-ok, List, ◌∷◌, [], ok, arith, Bool-cases, inl,
  inr, leb, ◌+◌, ◌^◌, ◌==◌,
}
use homebased.Ids.{MachineId, JobId}
use homebased.Error.{queue, invariant, job_terminal, position_range}
use homebased.Queue.Priority
use homebased.Queue.Priority.{Priority}
use homebased.Queue.Job.{is_terminal, state_as_str}
use homebased.Queue.Placement.{Placement}
use homebased.Store.Types.{Tables}
use homebased.Store.Access.{require_machine_job}
use homebased.Store.Invariant.{state_at, RunsAgree}
use homebased.Store.Preserved.{RunsAgree-jobs}
use homebased.Store.Steps.{Agrees}
use homebased.Store.States.{write_level-state, lift_levels-state}
use homebased.Store.Levels.{lift_levels, write_level}
use homebased.Store.Move.{
  MoveResult, slot_of, slot_index, insert_at, others, leave_level, apply_move,
}
use homebased.Store.MoveSlots.{ok_eq}

leave_level-state :
    (machine : MachineId) (from to : Priority) (previous : List JobId) (s t : Tables)
    → leave_level machine from to previous s ≡ ok t
    → ((k : JobId) → state_at t.jobs k ≡ state_at s.jobs k) × (t.resources ≡ s.resources)
unfolding leave_level
leave_level-state machine from to previous s t h =
    elim (Bool-cases (Priority.rank from == Priority.rank to)) [
      | inl stays ↦
          let e : s ≡ t = ok_eq (rw stays at h) in
          subst
            (λ (u : Tables).
              ((k : JobId) → state_at u.jobs k ≡ state_at s.jobs k) × (u.resources ≡ s.resources))
            e (λ k. refl, refl)
      | inr moves ↦
          let (states, same, _) = write_level-state machine from 1 previous s t (rw moves at h) in
          (states, same)
    ]

-- A move keeps runs and jobs in agreement: it changes the state of no job, and no resource.
pub apply_move-Agrees :
    (s t : Tables) (machine : MachineId) (id : JobId) (placement : Placement) (r : MoveResult)
    → Agrees s
    → apply_move machine id placement s ≡ ok (r, t)
    → Agrees t × (t.resources ≡ s.resources) × ((k : JobId) → state_at t.jobs k ≡ state_at s.jobs k)
unfolding apply_move Agrees
apply_move-Agrees s t machine id placement r agree h =
    let (j, h₁, found) = >>=-ok _ (require_machine_job s machine id) h in
    let (_, h₂) =
      ensure-ok (not (is_terminal j.state)) (queue (job_terminal id (state_as_str j.state))) _ h₁ in
    let ((to, slot), h₃, at) = >>=-ok _ (slot_of s machine j placement) h₂ in
    let (index, h₄, place) = >>=-ok _ (slot_index slot (others s machine to id)) h₃ in
    let lifted = lift_levels machine (j.priority ∷ to ∷ []) s in
    let (left, h₅, leaves) =
      >>=-ok _ (leave_level machine j.priority to (others s machine j.priority id) lifted) h₄ in
    let (moved, h₆, enters) =
      >>=-ok _ (write_level machine to 1 (insert_at index id (others s machine to id)) left) h₅ in
    let (_, h₇) = ensure-ok (leb (index + 2) (2 ^ 32)) (queue (invariant position_range)) _ h₆ in
    let f : moved ≡ t = ground arith in
    let (states, same) = lift_levels-state machine (j.priority ∷ to ∷ []) s in
    let (states', same') =
      leave_level-state machine j.priority to (others s machine j.priority id) lifted left leaves in
    let (states'', same'', _) =
      write_level-state machine to 1 (insert_at index id (others s machine to id)) left moved
        enters in
    let all : (k : JobId) → state_at moved.jobs k ≡ state_at s.jobs k =
      λ k. states'' k ∙ states' k ∙ states k in
    let kept : moved.resources ≡ s.resources = same'' ∙ same' ∙ same in
    subst
      (λ (u : Tables).
        RunsAgree u.resources u.jobs
        × (u.resources ≡ s.resources)
        × ((k : JobId) → state_at u.jobs k ≡ state_at s.jobs k))
      f
      (
        subst (λ rs. RunsAgree rs moved.jobs) (sym kept)
            (RunsAgree-jobs s.resources s.jobs agree moved.jobs all),
        kept,
        all,
      )
