-- ===== src/Dependency/Examples.antt =====
-- A held task with three dependencies, for the theorems on them (src/dependency.rs).
use homebased.Base.{
  ◌≡◌, ◌≢◌, ◌↔◌, ◌≤◌, true, false, List, [], ◌∷◌, In, all, any, length, find_map, ok,
}
use homebased.Ids.{TaskId}
use homebased.Dependency.Types
use homebased.Dependency.Types.{
  known, unknown, DependencyState, pending, ended, DependencyFailure, release, cancel, on_success,
  on_end,
}
use homebased.Dependency.Held.{decide}
use homebased.Dependency.HeldLaws.{
  failure_of, is_pending, described, ended_well, decide-described, decide-release,
}
use homebased.Dependency.After.{TaskDependencies, sort_ids, new}
use homebased.Dependency.AfterLaws.{Fresh, Ascending, new-ok}

-- The first succeeded, the second is pending, the third ended in a way that no record tells.
abbrev states : List (TaskId × DependencyState)
states = (1, ended (known Types.succeeded)) ∷ (2, pending) ∷ (3, ended unknown) ∷ []

abbrev failure : DependencyFailure
failure = record { dependency = 3; outcome = unknown }

decide-described_example :
    decide states on_success
    ≡ described (find_map (failure_of on_success) states) (any is_pending states)
decide-described_example = decide-described states on_success

decide-release_example :
    ((decide states on_success ≡ release) ↔ (all ended_well states ≡ true))
    × ((decide states on_end ≡ release) ↔ (any is_pending states ≡ false))
    × (decide states on_end ≢ cancel failure)
decide-release_example = decide-release states failure

abbrev submitted : List TaskId
submitted = 5 ∷ 2 ∷ []

abbrev sorted : TaskDependencies
sorted = record { tasks = 2 ∷ 5 ∷ [] }

new-ok_example :
    ((new submitted ≡ ok sorted) ↔ (
      (submitted ≢ [])
      × (length submitted ≤ 16)
      × Fresh [] submitted
      × (sorted.tasks ≡ sort_ids submitted)))
    × Ascending (sort_ids submitted)
    × ((u : TaskId) → In u (sort_ids submitted) ↔ In u submitted)
new-ok_example = new-ok submitted sorted
