-- ===== src/Dependency/Held.antt =====
-- `decide` of src/dependency.rs.
use homebased.Base.{Bool, true, false, not, List, [], ◌∷◌, if◌then◌else◌}
use homebased.Ids.{TaskId}
use homebased.Dependency.Types.{
  DependencyOutcome, is_success, DependencyState, pending, ended, HeldDecision, wait, release,
  cancel, ReleaseRule, on_success, on_end,
}

-- What one dependency does to the loop: cancel the held task, or not.
abbrev pub fails : ReleaseRule → DependencyOutcome → Bool
fails on_end outcome = false
fails on_success outcome = not (is_success outcome)

-- The loop, with its flag `pending`.
unfoldable pub decide_from : Bool → List (TaskId × DependencyState) → ReleaseRule → HeldDecision
decide_from some_pending [] rule = if some_pending then wait else release
decide_from some_pending ((d, pending) ∷ states) rule = decide_from true states rule
decide_from some_pending ((d, ended outcome) ∷ states) rule =
    let rest = decide_from some_pending states rule in
    if fails rule outcome then cancel (record { dependency = d; outcome = outcome }) else rest

unfoldable pub decide : List (TaskId × DependencyState) → ReleaseRule → HeldDecision
unfolding decide_from
decide states rule = decide_from false states rule
