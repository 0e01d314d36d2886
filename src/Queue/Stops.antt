-- ===== src/Queue/Stops.antt =====
-- Laws of stop causes, of the preemption behaviours and of placement flags (src/queue.rs).
use homebased.Base.{
  ◌-◌, ◌≤◌, ◌<◌, ◌≡◌, ◌⊎◌, ◌↔◌, Bool, true, false, Option, none, some, is_some, arith, ok,
}
use homebased.Ids.{Time, JobId}
use homebased.Queue.Priority.{Priority}
use homebased.Queue.StopCause.{StopCause, upgrade, strength}
use homebased.Queue.Preemption.{RestartWindow, restart, wait, yield, PreemptStop, stop_at, contains}
use homebased.Queue.Placement.{
  front, back, before, after, Placement, edge, relative, MoveFlags, from_flags,
}

-- A cause only ever gets stronger: the upgrade is one of the two causes, at least as strong as each,
-- and neither the order in which causes arrive nor their grouping or repetition changes the result.
pub upgrade_join :
    (a b c : StopCause)
    → ((upgrade a b ≡ a) ⊎ (upgrade a b ≡ b))
      × (strength a ≤ strength (upgrade a b))
      × (strength b ≤ strength (upgrade a b))
      × (upgrade a b ≡ upgrade b a)
      × (upgrade (upgrade a b) c ≡ upgrade a (upgrade b c))
      × (upgrade a a ≡ a)
unfolding upgrade
upgrade_join a b c = ground arith

-- How a running job gives up its resource, at any time after it started: a `wait` job is never asked
-- to yield; a `yield` or `restart` job always stops; and, but for mode `restart`, it is restarted
-- only while its run is younger than the window, so not at the window's very end.
pub stop_at_modes :
    (window : RestartWindow) (started_at now : Time)
    → (stop_at restart started_at now ≡ some PreemptStop.restart)
      × (stop_at (wait none) started_at now ≡ none)
      × (stop_at (yield none) started_at now ≡ some PreemptStop.yield)
      × ((stop_at (wait (some window)) started_at now ≡ some PreemptStop.restart)
          ↔ (now - started_at < window.span))
      × ((stop_at (wait (some window)) started_at now ≡ none) ↔ (window.span ≤ now - started_at))
      × ((stop_at (yield (some window)) started_at now ≡ some PreemptStop.restart)
          ↔ (now - started_at < window.span))
      × ((stop_at (yield (some window)) started_at now ≡ some PreemptStop.yield)
          ↔ (window.span ≤ now - started_at))
unfolding stop_at contains
stop_at_modes window started_at now = ground arith

-- The placement that the flags name, given the two targets.
abbrev pub Named : Bool → Bool → Option Priority → Option JobId → Option JobId → Placement → Type 0
Named f b priority none none placement =
    ((f ≡ true) × (b ≡ false) × (placement ≡ edge priority front))
    ⊎ ((f ≡ false) × ((b ≡ true) ⊎ (is_some priority ≡ true)) × (placement ≡ edge priority back))
Named f b priority (some target) none placement =
    (f ≡ false) × (b ≡ false) × (placement ≡ relative target before priority)
Named f b priority none (some target) placement =
    (f ≡ false) × (b ≡ false) × (placement ≡ relative target after priority)
Named f b priority (some _) (some _) placement = ⊥

flags_of : Bool → Bool → Option Priority → Option JobId → Option JobId → MoveFlags
flags_of f b p t u = record { front = f; back = b; priority = p; before = t; after = u }

named :
    (f b : Bool) (p : Option Priority) (t u : Option JobId) (placement : Placement)
    → (from_flags (flags_of f b p t u) ≡ ok placement) ↔ Named f b p t u placement
unfolding from_flags flags_of
named f b p none none placement = ground arith
named f b p (some t) none placement = ground arith
named f b p none (some u) placement = ground arith
named f b p (some t) (some u) placement = ground arith

-- The flags of a move are accepted as a placement exactly when they name one place: the front, or the
-- back, or a priority alone, which means the back of that level; or else a place beside one job,
-- which excludes both ends and the other side, and for which the priority is what the job's level
-- must be.
pub from_flags-ok :
    (flags : MoveFlags) (placement : Placement)
    → (from_flags flags ≡ ok placement)
      ↔ Named flags.front flags.back flags.priority flags.before flags.after placement
unfolding from_flags flags_of
from_flags-ok flags placement =
    named flags.front flags.back flags.priority flags.before flags.after placement
