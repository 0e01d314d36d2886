-- ===== src/Queue/Schedule/Decide.antt =====
-- `decide` (src/queue/schedule.rs).
use homebased.Base.{[], ◌∷◌, List, Option, none, some}
use homebased.Queue.Schedule.Types.{Snapshot, JobView, Preempt, BlockedHead, Decisions, Chrono}
use homebased.Queue.Schedule.Fill.{filled}
use homebased.Queue.Schedule.Preempt.{preemption}
use homebased.Queue.Schedule.Blocked.{blocked_head}

abbrev pub first_blocked : Chrono → Snapshot → Option Preempt → List JobView → Option BlockedHead
first_blocked c snapshot stop [] = none
first_blocked c snapshot stop (head ∷ _) = some (blocked_head c snapshot head stop)

unfoldable pub decide : Chrono → Snapshot → Decisions
decide c snapshot =
    let f = filled snapshot in
    let stop = preemption snapshot f.waiting in
    record {
      launches = f.launches;
      preemption = stop;
      blocked = first_blocked c snapshot stop f.waiting;
    }
