-- ===== src/Store/Move.antt =====
-- A person's move of a job (src/store/queue/jobs.rs): `apply_move`. The time of the change that
-- `touch_job` writes is left out with the other times.
use homebased.Base.{
  ℕ, zero, suc, ◌+◌, ◌^◌, Bool, true, not, List, [], ◌∷◌, length, filter, Option, none, some,
  unwrap_or, Result, ok, ◌>>=◌, ◌>>◌, ensure, ok_or, if◌then◌else◌, leb, ◌==◌,
}
use homebased.Ids.{MachineId, JobId}
use homebased.Error.{
  AppError, queue, invariant, job_terminal, move_refused, self_target, target_not_found,
  target_terminal, level_mismatch, no_slot, position_range,
}
use homebased.Queue.Priority
use homebased.Queue.Priority.{Priority}
use homebased.Queue.Job.{is_terminal, state_as_str}
use homebased.Queue.Placement.{
  Placement, edge, relative, LevelEnd, front, back, Side, before, after,
}
use homebased.Store.Types.{JobRecord, Tables}
use homebased.Store.Access.{job, require_machine_job}
use homebased.Store.Levels.{level, lift_levels, write_level}

pub data Slot : Type 0 where
  end : LevelEnd → Slot
  next : JobId → Side → Slot

pub record MoveResult : Type 0 where
  pub job : JobId
  pub priority : Priority
  pub position : ℕ

-- Beside another job, which has to have a slot, in the level that is asked for if one is.
unfoldable pub beside :
    Tables → MachineId → JobId → JobId → Side → Option Priority → Result (Priority × Slot) AppError
unfolding job
beside s machine id target side expect = do
  ensure (not (target == id)) (queue (move_refused id self_target))
  found ← ok_or (job s target) (queue (move_refused id (target_not_found target)))
  ensure (found.machine == machine) (queue (move_refused id (target_not_found target)))
  ensure (not (is_terminal found.state)) (queue (move_refused id (target_terminal target)))
  ensure (agrees expect found.priority) (
      queue
        (move_refused id (level_mismatch target (unwrap_or expect found.priority) found.priority)))
  ok (found.priority, next target side)
  where
    agrees : Option Priority → Priority → Bool
    agrees none actual = true
    agrees (some requested) actual = Priority.rank requested == Priority.rank actual

-- The level and the slot that a placement names for a job.
unfoldable pub slot_of :
    Tables → MachineId → JobRecord → Placement → Result (Priority × Slot) AppError
unfolding beside
slot_of s machine j (edge priority side) = ok (unwrap_or priority j.priority, end side)
slot_of s machine j (relative target side expect) = beside s machine j.id target side expect

-- `position(|other| other == target)`.
unfoldable pub index_of : JobId → List JobId → Option ℕ
index_of target [] = none
index_of target (id ∷ ids) =
    let rest = index_of target ids in
    if id == target then some 0 else elim rest [ none ↦ none | some n ↦ some (suc n) ]

-- `Vec::insert`, within the list.
unfoldable pub insert_at : ℕ → JobId → List JobId → List JobId
insert_at zero id ids = id ∷ ids
insert_at (suc n) id [] = id ∷ []
insert_at (suc n) id (k ∷ ks) = k ∷ insert_at n id ks

unfoldable pub slot_index : Slot → List JobId → Result ℕ AppError
unfolding index_of
slot_index (end front) order = ok 0
slot_index (end back) order = ok (length order)
slot_index (next target side) order = do
  at ← ok_or (index_of target order) (queue (invariant (no_slot target)))
  ok (elim side [ before ↦ at | after ↦ at + 1 ])

-- The jobs of a level but one.
unfoldable pub others : Tables → MachineId → Priority → JobId → List JobId
unfolding level
others s machine priority id = filter (λ other. not (other == id)) (level s machine priority)

-- The left level is closed up, unless the job stays in it.
unfoldable pub leave_level :
    MachineId → Priority → Priority → List JobId → Tables → Result Tables AppError
unfolding write_level
leave_level machine from to previous s =
    if Priority.rank from == Priority.rank to then ok s else write_level machine from 1 previous s

unfoldable pub apply_move :
    MachineId → JobId → Placement → Tables → Result (MoveResult × Tables) AppError
unfolding require_machine_job slot_of slot_index insert_at others lift_levels leave_level
    write_level
apply_move machine id placement s = do
  j ← require_machine_job s machine id
  ensure (not (is_terminal j.state)) (queue (job_terminal id (state_as_str j.state)))
  (to, slot) ← slot_of s machine j placement
  let order = others s machine to id
  index ← slot_index slot order
  let previous = others s machine j.priority id
  left ← leave_level machine j.priority to previous (lift_levels machine (j.priority ∷ to ∷ []) s)
  moved ← write_level machine to 1 (insert_at index id order) left
  ensure (leb (index + 2) (2 ^ 32)) (queue (invariant position_range))
  ok (record { job = id; priority = to; position = index + 1 }, moved)
