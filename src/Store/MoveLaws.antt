-- ===== src/Store/MoveLaws.antt =====
-- A move puts a job at an index of its new level and closes the gap in its old one, and changes no
-- other job (src/store/queue/jobs.rs).
use homebased.Base.{
  ℕ, ◌+◌, ◌^◌, ◌≤◌, ◌≡◌, sym, ap, subst, ◌∙◌, true, false, not, List, [], ◌∷◌, length, get_elem?,
  some, Bool-cases, ==_iff, ==_refl, ◌==◌, leb, inl, inr, arith, ok, >>=-ok, ensure-ok, ok_or,
  find-In,
}
use homebased.Ids.{MachineId, JobId}
use homebased.Error.{queue, invariant, job_not_found, job_terminal, no_slot, position_range}
use homebased.Queue.Priority
use homebased.Queue.Priority.{Priority}
use homebased.Queue.Job.{is_terminal, state_as_str}
use homebased.Queue.Placement.{Placement, LevelEnd, Side}
use homebased.Store.Types.{JobRecord, Tables}
use homebased.Store.Access.{require_machine_job, require_job}
use homebased.Store.ReserveLaws.{require_machine_job-ok}
use homebased.Store.Invariant.{at_job}
use homebased.Store.Levels.{in_level, lift_levels, write_level}
use homebased.Store.Move.{
  Slot, end, next, MoveResult, slot_of, slot_index, index_of, insert_at, others, leave_level,
  apply_move,
}
use homebased.Store.Written.{HasSlot, placed, get_elem?-any}
use homebased.Store.MoveFacts.{SlotsChecked, in_level-HasSlot, get_elem?-insert_at, index_of-lt}
use homebased.Store.Between.{Between, slot_index-Between}
use homebased.Store.MoveSlots.{inserted, target_slot, left_slot, rest_same}

-- The tables after job `j` was put at `index` of level `to`: the slots of that level are those of the
-- list with the job inserted, the level that the job left has its other jobs in their order without a
-- gap, and every job of another level or machine is as it was. Beside its slot no job changes.
pub record MovedTo (s t : Tables) (machine : MachineId) (j : JobRecord) (to : Priority) (index : ℕ)
    : Type 0 where
  pub moved : at_job t.jobs j.id ≡ some (placed to (1 + index) j)
  pub target :
      (i : ℕ) (k : JobId) (x : JobRecord)
      → get_elem? (insert_at index j.id (others s machine to j.id)) i ≡ some k
      → at_job s.jobs k ≡ some x
      → at_job t.jobs k ≡ some (placed to (1 + i) x)
  pub left :
      (i : ℕ) (k : JobId) (x : JobRecord)
      → (Priority.rank j.priority == Priority.rank to) ≡ false
      → get_elem? (others s machine j.priority j.id) i ≡ some k
      → at_job s.jobs k ≡ some x
      → at_job t.jobs k ≡ some (placed j.priority (1 + i) x)
  pub rest :
      (k : JobId) (x : JobRecord)
      → at_job s.jobs k ≡ some x
      → in_level machine j.priority x ≡ false
      → in_level machine to x ≡ false
      → at_job t.jobs k ≡ some x

slot_index-le :
    (slot : Slot) (order : List JobId) (index : ℕ)
    → slot_index slot order ≡ ok index
    → index ≤ length order
unfolding slot_index
slot_index-le (end LevelEnd.front) order index h = ground arith
slot_index-le (end LevelEnd.back) order index h = ground arith
slot_index-le (next target Side.before) order index h =
    let (at, h₁, e) =
      >>=-ok _ (ok_or (index_of target order) (queue (invariant (no_slot target)))) h in
    let lt = index_of-lt target order at (ground arith) in ground arith
slot_index-le (next target Side.after) order index h =
    let (at, h₁, e) =
      >>=-ok _ (ok_or (index_of target order) (queue (invariant (no_slot target)))) h in
    let lt = index_of-lt target order at (ground arith) in ground arith

some_eq : {A : Type 0} {a b : A} → some a ≡ some b → a ≡ b
some_eq h = ground (arith, h)

module _ (s left t : Tables) (machine : MachineId) (to : Priority) (j : JobRecord) (index : ℕ)
    (checked : SlotsChecked s.jobs) (is_job : at_job s.jobs j.id ≡ some j)
    (home : (j.machine == machine) ≡ true) (alive : is_terminal j.state ≡ false)
    (leaves : leave_level machine j.priority to
        (others s machine j.priority j.id)
        (lift_levels machine (j.priority ∷ to ∷ []) s)
      ≡ ok left)
    (enters : write_level machine to 1 (insert_at index j.id (others s machine to j.id)) left
      ≡ ok t)
    (within : index ≤ length (others s machine to j.id)) where
  slotted : HasSlot machine j
  slotted = ground (arith, checked.slots j.id j is_job)

  own_level : in_level machine j.priority j ≡ true
  unfolding in_level
  own_level = ground (arith, checked.slots j.id j is_job, ==_refl (Priority.rank j.priority))

  same_job : (k : JobId) (x : JobRecord) → at_job s.jobs k ≡ some x → (j.id == k) ≡ true → j ≡ x
  same_job k x e same = some_eq (sym is_job ∙ (rw ((==_iff j.id k).0 same) e))

  apart :
      (k : JobId) (x : JobRecord)
      → at_job s.jobs k ≡ some x
      → in_level machine j.priority x ≡ false
      → (j.id == k) ≡ false
  apart k x e out = elim (Bool-cases (j.id == k)) [
    | inl same ↦ cc (own_level, out, same_job k x e same)
    | inr n ↦ n
  ]

  slot_of_listed :
      (i : ℕ) (k : JobId) (x : JobRecord)
      → get_elem? (insert_at index j.id (others s machine to j.id)) i ≡ some k
      → at_job s.jobs k ≡ some x
      → HasSlot machine x
  slot_of_listed i k x g e =
      elim (inserted s checked machine j.priority to j.id j is_job index left t leaves enters k x e
        (get_elem?-any (insert_at index j.id (others s machine to j.id)) i k g)) [
          | inl same ↦ subst (HasSlot machine) (same_job k x e same) slotted
          | inr inside ↦ in_level-HasSlot machine to x inside
        ]

  MovedTo-intro : MovedTo s t machine j to index
  MovedTo-intro = record {
    moved =
        target_slot s checked machine j.priority to j.id j is_job index left t leaves enters index
          j.id j (get_elem?-insert_at index j.id (others s machine to j.id) within) is_job slotted;
    target = λ i k x g e.
        target_slot s checked machine j.priority to j.id j is_job index left t leaves enters i k x g
          e (slot_of_listed i k x g e);
    left = λ i k x moves g e.
        left_slot s checked machine j.priority to j.id j is_job index left t leaves enters i k x
          moves g e;
    rest = λ k x e not_from not_to.
        rest_same s checked machine j.priority to j.id j is_job index left t leaves enters k x e
          (apart k x e not_from) not_from not_to;
  }

machine_of :
    (s : Tables) (machine : MachineId) (id : JobId) (j : JobRecord)
    → require_machine_job s machine id ≡ ok j
    → (j.machine == machine) ≡ true
unfolding require_machine_job
machine_of s machine id j h =
    let (k, h₁, _) = >>=-ok _ (require_job s id) h in
    let (home, h₂) = ensure-ok (k.machine == machine) (queue (job_not_found id)) _ h₁ in
    let same : k ≡ j = ground arith in rw (← same) home

-- A move that succeeds is of a job of the machine that has not ended, to the level and the slot that its
-- placement names. The job stands there at the front or the back of the level's other jobs, or right
-- before or after the job that the placement names, as it asks; the answer is its level and its position.
-- The other jobs of the level keep their order around it, the level that it left has its jobs in their
-- order without a gap, and every job of another level or machine is as it was.
pub apply_move-MovedTo :
    (s t : Tables) (machine : MachineId) (id : JobId) (placement : Placement) (r : MoveResult)
    → SlotsChecked s.jobs
    → apply_move machine id placement s ≡ ok (r, t)
    → (j : JobRecord) × (at_job s.jobs id ≡ some j)
      × (is_terminal j.state ≡ false)
      × (slot : Slot) × (slot_of s machine j placement ≡ ok (r.priority, slot))
      × (index : ℕ) × Between slot id (others s machine r.priority id) index
      × (r.position ≡ index + 1)
      × MovedTo s t machine j r.priority index
unfolding apply_move
apply_move-MovedTo s t machine id placement r checked h =
    let (j, h₁, found) = >>=-ok _ (require_machine_job s machine id) h in
    let (alive, h₂) =
      ensure-ok (not (is_terminal j.state)) (queue (job_terminal id (state_as_str j.state))) _ h₁ in
    let ((to, slot), h₃, at) = >>=-ok _ (slot_of s machine j placement) h₂ in
    let (index, h₄, place) = >>=-ok _ (slot_index slot (others s machine to id)) h₃ in
    let (left, h₅, leaves) =
      >>=-ok _
        (leave_level machine j.priority to (others s machine j.priority id)
          (lift_levels machine (j.priority ∷ to ∷ []) s))
        h₄ in
    let (moved, h₆, enters) =
      >>=-ok _ (write_level machine to 1 (insert_at index id (others s machine to id)) left) h₅ in
    let (_, h₇) = ensure-ok (leb (index + 2) (2 ^ 32)) (queue (invariant position_range)) _ h₆ in
    let (e, f) : (record { job = id; priority = to; position = index + 1 } ≡ r) × (moved ≡ t) =
      (ground arith, ground arith) in
    let is_job = require_machine_job-ok s machine id j found in
    let own : j.id ≡ id = (==_iff j.id id).0 (find-In (λ x. x.id == id) s.jobs is_job).1 in
    let to_r : to ≡ r.priority = ap (λ (m : MoveResult). m.priority) e in
    (
      j,
      is_job,
      ground (arith, alive),
      slot,
      at ∙ ap (λ (p : Priority). ok (p, slot)) to_r,
      index,
      subst (λ (p : Priority). Between slot id (others s machine p id) index) to_r
          (slot_index-Between slot id (others s machine to id) index place),
      ap (λ (m : MoveResult). m.position) (sym e),
      subst (λ (p : Priority). MovedTo s t machine j p index) to_r
          (subst (λ (u : Tables). MovedTo s u machine j to index) f
            (MovedTo-intro s left moved machine to j index checked
              (subst (λ (i : JobId). at_job s.jobs i ≡ some j) (sym own) is_job)
              (machine_of s machine id j found) (ground (arith, alive))
              (subst
                (λ (i : JobId).
                  leave_level machine j.priority to (others s machine j.priority i)
                    (lift_levels machine (j.priority ∷ to ∷ []) s)
                  ≡ ok left)
                (sym own) leaves)
              (subst
                (λ (i : JobId).
                  write_level machine to 1 (insert_at index i (others s machine to i)) left
                  ≡ ok moved)
                (sym own) enters)
              (subst (λ (i : JobId). index ≤ length (others s machine to i)) (sym own)
                (slot_index-le slot (others s machine to id) index place)))),
    )
