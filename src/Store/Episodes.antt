-- ===== src/Store/Episodes.antt =====
-- The blocking episodes of a queue (src/store/queue.rs): since when a machine's first waiting job is
-- blocked, and whether its thread was told. SQLite keeps a time to the millisecond.
use homebased.Base.{
  ℕ, ◌+◌, ◌*◌, ◌/◌, Bool, not, false, ◌&&◌, List, [], ◌∷◌, find, any, Option, none, some, is_some,
  Result, ok, ◌>>◌, ensure, if◌then◌else◌, leb, ◌==◌,
}
use homebased.Ids.{MachineId, JobId, Time}
use homebased.Error.{AppError, constraint}
use homebased.Queue.Schedule.Types.{StoredEpisode}
use homebased.Store.Access.{update}

-- A row of `resource_blocked_notices`.
pub record NoticeRow : Type 0 where
  pub id : ℕ
  pub machine : MachineId
  pub job : JobId
  pub blocked_since : Time
  pub notified_at : Option Time
  pub ended_at : Option Time

-- `fmt_time`, and `parse_time` of it: the time is rounded down to milliseconds.
unfoldable pub stored_time : Time → Time
stored_time t = t / 1000000 * 1000000

-- `machine = ?1 AND ended_at IS NULL`.
unfoldable pub is_open : MachineId → NoticeRow → Bool
is_open machine r = (r.machine == machine) && not (is_some r.ended_at)

unfoldable pub episode_of : NoticeRow → StoredEpisode
episode_of r = record {
  id = r.id;
  job = r.job;
  blocked_since = r.blocked_since;
  notified = is_some r.notified_at;
}

unfoldable pub blocked_episode : MachineId → List NoticeRow → Option StoredEpisode
unfolding is_open episode_of
blocked_episode machine rows = elim (find (is_open machine) rows) [
  | none ↦ none
  | some r ↦ some (episode_of r)
]

-- The `INTEGER PRIMARY KEY` of a new row: one more than the largest.
unfoldable pub next_id : List NoticeRow → ℕ
next_id [] = 1
next_id (r ∷ rows) = let n = next_id rows in if leb n r.id then r.id + 1 else n

unfoldable pub new_row : MachineId → JobId → Time → List NoticeRow → NoticeRow
unfolding next_id stored_time
new_row machine job since rows = record {
  id = next_id rows;
  machine = machine;
  job = job;
  blocked_since = stored_time since;
  notified_at = none;
  ended_at = none;
}

unfoldable pub ended : Time → NoticeRow → NoticeRow
unfolding stored_time
ended now r = record r { ended_at = some (stored_time now) }

-- The open episode is that of the head.
unfoldable pub is_of_head : Option StoredEpisode → Option (JobId × Time) → Bool
is_of_head none head = false
is_of_head (some episode) none = false
is_of_head (some episode) (some (job, since)) = episode.job == job

-- A new episode, with the checks that its job is one of the queue's and that the index
-- `resource_blocked_notices_open` has one open row to a machine.
unfoldable pub start_episode :
    (JobId → Bool)
    → MachineId
    → Option (JobId × Time)
    → List NoticeRow
    → Result (Option StoredEpisode × List NoticeRow) AppError
unfolding is_open new_row blocked_episode
start_episode known machine none rows = ok (none, rows)
start_episode known machine (some (job, since)) rows =
    let row = new_row machine job since rows in
    do
      ensure (known job) constraint
      ensure (not (any (is_open machine) rows)) constraint
      ok (blocked_episode machine (row ∷ rows), row ∷ rows)

-- `known` tells the jobs that the table `resource_jobs` has.
unfoldable pub record_blocked_head :
    (JobId → Bool)
    → MachineId
    → Option (JobId × Time)
    → Time
    → List NoticeRow
    → Result (Option StoredEpisode × List NoticeRow) AppError
unfolding is_of_head blocked_episode update is_open ended start_episode
record_blocked_head known machine head now rows =
    if is_of_head (blocked_episode machine rows) head
    then ok (blocked_episode machine rows, rows)
    else start_episode known machine head (update (is_open machine) (ended now) rows)
