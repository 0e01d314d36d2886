-- ===== src/Dependency/HeldLaws.antt =====
-- What `decide` of src/dependency.rs decides.
use homebased.Base.{
  ◌≡◌, refl, sym, ap, ◌∙◌, ◌≢◌, ◌↔◌, Bool, true, false, List, [], ◌∷◌, arith, all, any,
  if◌then◌else◌, Option, none, some, find_map,
}
use homebased.Ids.{TaskId}
use homebased.Dependency.Types.{
  is_success, DependencyState, pending, ended, DependencyFailure, HeldDecision, wait, release,
  cancel, ReleaseRule, on_success, on_end,
}
use homebased.Dependency.Held.{fails, decide_from, decide}

-- The failure that a dependency is under a rule.
abbrev pub failure_of : ReleaseRule → TaskId × DependencyState → Option DependencyFailure
failure_of rule (d, pending) = none
failure_of rule (d, ended outcome) =
    if fails rule outcome then some (record { dependency = d; outcome = outcome }) else none

abbrev pub is_pending : TaskId × DependencyState → Bool
is_pending (d, pending) = true
is_pending (d, ended _) = false

-- The decision, from the first failure and from whether anything is pending.
abbrev pub described : Option DependencyFailure → Bool → HeldDecision
described (some f) some_pending = cancel f
described none some_pending = if some_pending then wait else release

decide_from-described :
    (flag : Bool) (states : List (TaskId × DependencyState)) (rule : ReleaseRule)
    → decide_from flag states rule
      ≡ described (find_map (failure_of rule) states) (if flag then true else any is_pending states)
unfolding decide_from
decide_from-described flag [] rule = ground arith
decide_from-described true ((d, pending) ∷ states) rule = decide_from-described true states rule
decide_from-described false ((d, pending) ∷ states) rule = decide_from-described true states rule
decide_from-described flag ((d, ended outcome) ∷ states) rule =
    ground (arith, decide_from-described flag states rule)

-- A held task is cancelled for the first of its dependencies that failed under its rule, whatever
-- comes before or after it; with no failure it waits if some dependency is pending, and is released
-- otherwise.
pub decide-described :
    (states : List (TaskId × DependencyState)) (rule : ReleaseRule)
    → decide states rule ≡ described (find_map (failure_of rule) states) (any is_pending states)
unfolding decide
decide-described states rule = decide_from-described false states rule

abbrev pub ended_well : TaskId × DependencyState → Bool
ended_well (d, pending) = false
ended_well (d, ended outcome) = is_success outcome

waits : (o : Option DependencyFailure) → described o true ≢ release
waits o h = ground arith

unfailed :
    (b : Bool) (f : DependencyFailure)
    → ((described none b ≡ release) ↔ (b ≡ false)) × (described none b ≢ cancel f)
unfailed b f = ((λ h. ground arith, λ h. ground arith), λ h. ground arith)

-- The release of a task that is held by `after`.
releases :
    (states : List (TaskId × DependencyState))
    → (described (find_map (failure_of on_success) states) (any is_pending states) ≡ release)
      ↔ (all ended_well states ≡ true)
releases [] = ground arith
releases ((d, pending) ∷ states) =
    (λ h. absurd (waits (find_map (failure_of on_success) states) h), λ h. cc h)
releases ((d, ended outcome) ∷ states) = ground (arith, releases states)

never_fails :
    (states : List (TaskId × DependencyState)) → find_map (failure_of on_end) states ≡ none
never_fails [] = refl
never_fails ((d, pending) ∷ states) = never_fails states
never_fails ((d, ended outcome) ∷ states) = never_fails states

-- A task held by `after` launches exactly when each of its dependencies succeeded, and an unknown
-- ending is no success; a continuation launches exactly when none of its targets is pending, and
-- nothing that happens to them cancels it.
pub decide-release :
    (states : List (TaskId × DependencyState)) (f : DependencyFailure)
    → ((decide states on_success ≡ release) ↔ (all ended_well states ≡ true))
      × ((decide states on_end ≡ release) ↔ (any is_pending states ≡ false))
      × (decide states on_end ≢ cancel f)
unfolding decide
decide-release states f =
    let e = decide-described states on_success in
    let e' : decide states on_end ≡ described none (any is_pending states) =
      decide-described states on_end
      ∙ ap (λ o. described o (any is_pending states)) (never_fails states) in
    let iff = releases states in
    let (on_rest, no_cancel) = unfailed (any is_pending states) f in
    (
      (λ h. iff.0 (sym e ∙ h), λ h. e ∙ iff.1 h),
      (λ h. on_rest.0 (sym e' ∙ h), λ h. e' ∙ on_rest.1 h),
      λ h. no_cancel (sym e' ∙ h),
    )
