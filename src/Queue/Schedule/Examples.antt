-- ===== src/Queue/Schedule/Examples.antt =====
-- A machine with two idle resources and one that runs low-priority work, for the theorems on
-- decisions (src/queue/schedule.rs).
use homebased.Base.{ℕ, ◌+◌, ◌≤◌, ◌≡◌, refl, inl, inr, true, false, [], ◌∷◌, none, some, arith, In}
use homebased.Queue.Priority
use homebased.Queue.Preemption
use homebased.Queue.Preemption.{Preemption}
use homebased.Queue.StopCause.{StopCause}
use homebased.Queue.Job.{any_resource, pinned, allows}
use homebased.Queue.Run.{ActiveRun, executing}
use homebased.Queue.Schedule.Types.{
  ResourceView, JobView, queued, active, Snapshot, NoticeThresholds, StoredEpisode, Launch, Preempt,
  Chrono,
}
use homebased.Queue.Schedule.Fill.{
  startable, filled, name_le, insert_by_name, sort_by_name, free_resources, take_allowed, fill,
}
use homebased.Queue.Schedule.Preempt.{
  preemption_in_flight, Candidate, preempt_of, key_lt, min_by_key, min_from, preemption,
  preempt_for, candidates, candidate_of, executing_since,
}
use homebased.Queue.Schedule.Blocked.{
  blocked_head, stored_episode, due_time, scanned, scan, scan_step, scan_run,
}
use homebased.Queue.Schedule.Decide.{decide}
use homebased.Queue.Schedule.Launches.{
  launched, used, decide-launches_sound, decide-work_conserving,
}
use homebased.Queue.Schedule.Exclusive.{DistinctLaunches, decide-DistinctLaunches}
use homebased.Queue.Schedule.Minimum.{min_by_key-least}
use homebased.Queue.Schedule.Preemptions.{
  IsStoppable, decide-preemption_least, decide-preemption_none,
}
use homebased.Queue.Schedule.Notices.{HoldsUp, blocked_head_notice}
use homebased.Queue.Schedule.Heads.{decide-blocked_head, decide-blocked_none}

abbrev clock : Chrono
clock = record { max_utc = 1000000000; max_delta = 1000000000 }

abbrev low_run : ActiveRun
low_run = record {
  resource = 2;
  job = 20;
  task = 200;
  run_number = 1;
  step = 0;
  resume = false;
  phase = executing 100;
}

abbrev idle_a : ResourceView
idle_a = record { id = 1; name = 97 ∷ []; run = none }

abbrev busy_b : ResourceView
busy_b = record { id = 2; name = 98 ∷ []; run = some low_run }

abbrev idle_c : ResourceView
idle_c = record { id = 3; name = 99 ∷ []; run = none }

abbrev first : JobView
first = record {
  id = 10;
  priority = Priority.high;
  target = any_resource;
  preempt = Preemption.restart;
  state = queued;
}

-- Waits for the busy resource.
abbrev second : JobView
second = record {
  id = 11;
  priority = Priority.high;
  target = pinned 2;
  preempt = Preemption.restart;
  state = queued;
}

abbrev low_job : Preemption → JobView
low_job mode = record {
  id = 20;
  priority = Priority.low;
  target = any_resource;
  preempt = mode;
  state = active 2;
}

abbrev thresholds : NoticeThresholds
thresholds = record { after_yield = 10; after_wait = 20 }

abbrev episode : StoredEpisode
episode = record { id = 1; job = 11; blocked_since = 0; notified = false }

-- The low job may be restarted.
abbrev busy : Snapshot
busy = record {
  now = 5000;
  resources = idle_a ∷ busy_b ∷ idle_c ∷ [];
  queue = first ∷ second ∷ low_job Preemption.restart ∷ [];
  episode = some episode;
  thresholds = thresholds;
}

-- The low job runs to its end.
abbrev held_up : Snapshot
held_up = record {
  now = 5000;
  resources = idle_a ∷ busy_b ∷ idle_c ∷ [];
  queue = first ∷ second ∷ low_job (Preemption.wait none) ∷ [];
  episode = some episode;
  thresholds = thresholds;
}

-- Nothing waits.
abbrev quiet : Snapshot
quiet = record {
  now = 5000;
  resources = idle_a ∷ [];
  queue = first ∷ [];
  episode = none;
  thresholds = thresholds;
}

abbrev candidate : ℕ → Candidate
candidate started_at = record {
  level = Priority.low;
  stop = Preemption.PreemptStop.restart;
  started_at = started_at;
  run = low_run;
}

abbrev first_launch : Launch
first_launch = record { job = 10; resource = 1 }

abbrev stop_low : Preempt
stop_low = record { resource = 2; job = 20; task = 200; cause = StopCause.restart }

decide-launches_sound_example :
    (j : JobView) × (r : ResourceView) × In j busy.queue
    × (startable busy j ≡ true)
    × In r busy.resources
    × (r.run ≡ none)
    × (first_launch.job ≡ j.id)
    × (first_launch.resource ≡ r.id)
    × (allows j.target r.id ≡ true)
unfolding decide filled fill startable take_allowed free_resources sort_by_name insert_by_name
    name_le
decide-launches_sound_example = decide-launches_sound clock busy first_launch (inl refl)

decide-work_conserving_example : allows second.target idle_c.id ≡ false
unfolding decide filled fill startable take_allowed free_resources sort_by_name insert_by_name
    name_le
decide-work_conserving_example =
    decide-work_conserving clock busy second idle_c (inr (inl refl)) refl (inr (inr (inl refl)))
      refl refl refl

decide-DistinctLaunches_example : DistinctLaunches (decide clock busy).launches
decide-DistinctLaunches_example =
    decide-DistinctLaunches clock busy (refl, (refl, (refl, tt))) (refl, (refl, (refl, tt)))

decide-preemption_least_example :
    (preemption_in_flight busy ≡ false)
    × (w : JobView) × In w (filled busy).waiting
    × (v : Candidate) × (stop_low ≡ preempt_of v)
    × IsStoppable busy w v
    × ((u : Candidate) → IsStoppable busy w u → key_lt u v ≡ false)
unfolding decide filled preemption preempt_for candidates candidate_of executing_since min_by_key
    min_from preemption_in_flight Preemption.stop_at fill startable take_allowed free_resources
    sort_by_name insert_by_name name_le
decide-preemption_least_example =
    decide-preemption_least clock busy stop_low (refl, (refl, (refl, tt))) refl

decide-preemption_none_example : ¬ IsStoppable held_up second (candidate 100)
unfolding decide filled preemption preempt_for candidates candidate_of executing_since min_by_key
    min_from preemption_in_flight Preemption.stop_at fill startable take_allowed free_resources
    sort_by_name insert_by_name name_le
decide-preemption_none_example =
    decide-preemption_none clock held_up second (candidate 100) (refl, (refl, (refl, tt))) refl refl
      (inl refl)

blocked_head_notice_example :
    ((blocked_head clock held_up second none).blocked_since
        + (blocked_head clock held_up second none).threshold
      ≤ held_up.now)
    × ((e : StoredEpisode) → stored_episode held_up second ≡ some e → e.notified ≡ false)
    × (r : ResourceView) × (run : ActiveRun) × In r held_up.resources
    × (allows second.target r.id ≡ true)
    × (r.run ≡ some run)
    × HoldsUp held_up.queue second run
unfolding blocked_head due_time scanned scan scan_step scan_run
blocked_head_notice_example = blocked_head_notice clock held_up second none refl (ground arith)

decide-blocked_head_example :
    (head : JobView) × In head held_up.queue
    × (startable held_up head ≡ true)
    × ((blocked_head clock held_up second none).job ≡ head.id)
    × ((r : ResourceView)
        → In r held_up.resources
        → r.run ≡ none
        → allows head.target r.id ≡ true
        → used (decide clock held_up).launches r ≡ true)
unfolding decide filled blocked_head due_time scanned scan scan_step scan_run preemption preempt_for
    candidates candidate_of executing_since min_by_key min_from preemption_in_flight
    Preemption.stop_at fill startable take_allowed free_resources sort_by_name insert_by_name
    name_le
decide-blocked_head_example =
    decide-blocked_head clock held_up (blocked_head clock held_up second none) refl

decide-blocked_none_example : launched (decide clock quiet).launches first ≡ true
unfolding decide filled fill startable take_allowed free_resources sort_by_name insert_by_name
    name_le
decide-blocked_none_example = decide-blocked_none clock quiet first refl (inl refl) refl

min_by_key-least_example :
    In (candidate 9) (candidate 5 ∷ candidate 9 ∷ [])
    × ((c : Candidate) → In c (candidate 5 ∷ candidate 9 ∷ []) → key_lt c (candidate 9) ≡ false)
unfolding min_by_key min_from
min_by_key-least_example = min_by_key-least (candidate 5 ∷ candidate 9 ∷ []) (candidate 9) refl
