-- ===== src/Store/Levels.antt =====
-- The slots of one serving level of a machine's queue (src/store/queue/jobs.rs).
use homebased.Base.{
  ℕ, suc, ◌+◌, ◌^◌, Bool, ◌&&◌, List, [], ◌∷◌, map, filter, none, some, is_some, unwrap_or,
  if◌then◌else◌, leb, ◌==◌, Result, ok, err, ◌>>=◌,
}
use homebased.Ids.{MachineId, JobId}
use homebased.Error.{AppError, queue, invariant, position_range}
use homebased.Queue.Priority
use homebased.Queue.Priority.{Priority}
use homebased.Store.Types.{JobRecord, Tables}
use homebased.Store.Access.{update}

unfoldable pub in_level : MachineId → Priority → JobRecord → Bool
in_level machine priority j =
    (j.machine == machine)
    && ((Priority.rank j.priority == Priority.rank priority) && is_some j.position)

unfoldable pub insert_by_position : JobRecord → List JobRecord → List JobRecord
insert_by_position j [] = j ∷ []
insert_by_position j (k ∷ ks) =
    let rest = insert_by_position j ks in
    if leb (unwrap_or j.position 0) (unwrap_or k.position 0) then j ∷ k ∷ ks else k ∷ rest

-- `ORDER BY position`.
unfoldable pub by_position : List JobRecord → List JobRecord
by_position [] = []
by_position (j ∷ js) = insert_by_position j (by_position js)

-- `level`: the ids of one level, by position.
unfoldable pub level : Tables → MachineId → Priority → List JobId
unfolding in_level by_position
level s machine priority = map (λ j. j.id) (by_position (filter (in_level machine priority) s.jobs))

-- `RENUMBER_OFFSET`.
abbrev pub renumber_offset : ℕ
renumber_offset = 2 ^ 40

unfoldable pub lifted : JobRecord → JobRecord
lifted j = record j {
  position = elim j.position [ none ↦ none | some p ↦ some (p + renumber_offset) ];
}

-- `lift_levels`, one level after the other.
unfoldable pub lift_levels : MachineId → List Priority → Tables → Tables
unfolding update in_level lifted
lift_levels machine [] s = s
lift_levels machine (p ∷ ps) s =
    lift_levels machine ps (record s { jobs = update (in_level machine p) lifted s.jobs })

-- `sql_position`: a position has to fit an `i64`.
unfoldable pub sql_position : ℕ → Result ℕ AppError
sql_position position =
    if leb (suc position) (2 ^ 63) then ok position else err (queue (invariant position_range))

unfoldable pub place : MachineId → Priority → ℕ → JobId → Tables → Tables
unfolding update
place machine priority position id s = record s {
  jobs =
      update (λ j. (j.id == id) && ((j.machine == machine) && is_some j.position))
        (λ j. record j { priority = priority; position = some position }) s.jobs;
}

-- `write_level`, with the position of the first job.
unfoldable pub write_level : MachineId → Priority → ℕ → List JobId → Tables → Result Tables AppError
unfolding sql_position place
write_level machine priority first [] s = ok s
write_level machine priority first (id ∷ ids) s = do
  position ← sql_position first
  write_level machine priority (suc first) ids (place machine priority position id s)

-- `renumber_level`: close the gap that a job left in its level.
unfoldable pub renumber_level : MachineId → Priority → Tables → Result Tables AppError
unfolding level lift_levels write_level
renumber_level machine priority s =
    write_level machine priority 1 (level s machine priority)
      (lift_levels machine (priority ∷ []) s)
