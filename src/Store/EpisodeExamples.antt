-- ===== src/Store/EpisodeExamples.antt =====
-- A second head that is blocked after a first one (src/store/queue.rs).
use homebased.Base.{◌≡◌, refl, List, [], ◌∷◌, none, some, Option, ok, ◌==◌}
use homebased.Ids.{JobId, Time}
use homebased.Queue.Schedule.Types.{StoredEpisode}
use homebased.Store.Episodes.{NoticeRow, record_blocked_head}
use homebased.Store.EpisodeLaws.{Recorded, record_blocked_head-Recorded}

abbrev notices : List NoticeRow
notices =
    record {
      id = 2;
      machine = 7;
      job = 10;
      blocked_since = 3000000;
      notified_at = some 8000000;
      ended_at = none;
    }
    ∷ record {
      id = 1;
      machine = 8;
      job = 12;
      blocked_since = 1000000;
      notified_at = none;
      ended_at = none;
    }
    ∷ []

abbrev new_head : Option (JobId × Time)
new_head = some (11, 9400000)

record_blocked_head-Recorded_example :
    (answer : Option StoredEpisode) × (t : List NoticeRow) × (record_blocked_head
        (λ k. k == 11)
        7
        new_head
        9500000
        notices
      ≡ ok (answer, t))
    × Recorded 7 new_head notices t answer
unfolding homebased.Store.EpisodeLaws.head_known
record_blocked_head-Recorded_example =
    record_blocked_head-Recorded (λ k. k == 11) 7 new_head 9500000 notices refl
