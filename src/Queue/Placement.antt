-- ===== src/Queue/Placement.antt =====
-- Where a move puts a job, and the placement that command line flags name (src/queue.rs).
use homebased.Base.{
  Bool, ◌&&◌, ◌||◌, if◌then◌else◌, Option, none, some, is_some, Result, ok, err, ◌>>=◌, ◌>>◌,
  ensure, not,
}
use homebased.Ids.{JobId}
use homebased.Error.{MoveRefusal, no_placement, conflicting_flags}
use homebased.Queue.Priority.{Priority}

pub data LevelEnd : Type 0 where
  front back : LevelEnd

pub data Side : Type 0 where
  before after : Side

pub data Placement : Type 0 where
  edge : Option Priority → LevelEnd → Placement
  relative : JobId → Side → Option Priority → Placement

pub record MoveFlags : Type 0 where
  pub front : Bool
  pub back : Bool
  pub priority : Option Priority
  pub before : Option JobId
  pub after : Option JobId

relative_of : Option JobId → Option JobId → Result (Option (JobId × Side)) MoveRefusal
relative_of (some _) (some _) = err conflicting_flags
relative_of (some target) none = ok (some (target, Side.before))
relative_of none (some target) = ok (some (target, Side.after))
relative_of none none = ok none

place : MoveFlags → Option (JobId × Side) → Result Placement MoveRefusal
place flags (some (target, side)) =
    if flags.front || flags.back
    then err conflicting_flags
    else ok (relative target side flags.priority)
place flags none =
    if flags.front
    then ok (edge flags.priority LevelEnd.front)
    else if flags.back || is_some flags.priority
    then ok (edge flags.priority LevelEnd.back)
    else err no_placement

unfoldable pub from_flags : MoveFlags → Result Placement MoveRefusal
unfolding relative_of place
from_flags flags = do
  target ← relative_of flags.before flags.after
  ensure (not (flags.front && flags.back)) conflicting_flags
  place flags target
