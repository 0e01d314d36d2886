-- ===== src/Queue/Schedule/Heads.antt =====
-- Which job is the blocked head of `decide` (src/queue/schedule.rs).
use homebased.Base.{
  ◌≡◌, refl, sym, ap, subst, ◌⊎◌, inl, inr, true, false, List, [], ◌∷◌, Option, none, some, arith,
  Option-cases, In, In-filter, In-of_filter,
}
use homebased.Queue.Job.{allows}
use homebased.Queue.Schedule.Types.{
  ResourceView, JobView, Snapshot, Preempt, BlockedHead, Launch, Chrono,
}
use homebased.Queue.Schedule.Fill.{take_allowed, startable, fill, filled}
use homebased.Queue.Schedule.FillLaws.{Picked, take_none, take_some, free_resources_intro}
use homebased.Queue.Schedule.Blocked.{blocked_head}
use homebased.Queue.Schedule.Launches.{launched, used}
use homebased.Queue.Schedule.Decide.{decide, first_blocked}

used_first :
    (first : Launch) (ls : List Launch) (r : ResourceView)
    → first.resource ≡ r.id
    → used (first ∷ ls) r ≡ true
used_first first ls r e = ground arith

used_later :
    (first : Launch) (ls : List Launch) (r : ResourceView)
    → used ls r ≡ true
    → used (first ∷ ls) r ≡ true
used_later first ls r e = ground arith

launched_first :
    (first : Launch) (ls : List Launch) (j : JobView)
    → first.job ≡ j.id
    → launched (first ∷ ls) j ≡ true
launched_first first ls j e = ground arith

launched_later :
    (first : Launch) (ls : List Launch) (j : JobView)
    → launched ls j ≡ true
    → launched (first ∷ ls) j ≡ true
launched_later first ls j e = ground arith

-- A job that waits after the walk is one of the given jobs, and may use no free resource but those
-- that the launches use.
fill_waiting :
    (free : List ResourceView) (jobs : List JobView) (j : JobView) (r : ResourceView)
    → In j (fill free jobs).waiting
    → In j jobs
      × (In r free → (used (fill free jobs).launches r ≡ true) ⊎ (allows j.target r.id ≡ false))
unfolding fill
fill_waiting free [] j r = λ m. absurd m
fill_waiting free (i ∷ js) j r = elim (Option-cases (take_allowed i.target free)) [
  | inl e ↦
      rw (e, fill)
        (λ m. elim m [
          | inl q ↦ (
            inl q,
            λ mr. inr (
                subst (λ v. allows v.target r.id ≡ false) (sym q) (take_none i.target free r e mr)),
          )
          | inr k ↦ (inr (fill_waiting free js j r k).0, (fill_waiting free js j r k).1)
        ])
  | inr ((s, rest), e) ↦
      rw (e, fill)
        (λ m.
          let p : Picked i.target free s rest = take_some i.target free s rest e in
          let (mj, later) = fill_waiting rest js j r m in
          (
            inr mj,
            λ mr. elim (p.2 r mr) [
              | inl q ↦ inl (
                  used_first (record { job = i.id; resource = s.id }) _ r
                    (ap (λ (v : ResourceView). v.id) (sym q)))
              | inr mr' ↦ elim (later mr') [
                | inl u ↦ inl (used_later (record { job = i.id; resource = s.id }) _ r u)
                | inr denied ↦ inr denied
              ]
            ],
          ))
]

fill_unlaunched :
    (free : List ResourceView) (jobs : List JobView) (j : JobView)
    → In j jobs
    → (launched (fill free jobs).launches j ≡ true) ⊎ In j (fill free jobs).waiting
unfolding fill
fill_unlaunched free [] j m = absurd m
fill_unlaunched free (i ∷ js) j m = elim (Option-cases (take_allowed i.target free)) [
  | inl e ↦
      rw (e, fill)
        (elim m [
          | inl q ↦ inr (inl q)
          | inr k ↦ elim (fill_unlaunched free js j k) [ inl l ↦ inl l | inr w ↦ inr (inr w) ]
        ])
  | inr ((s, rest), e) ↦
      rw (e, fill)
        (elim m [
          | inl q ↦ inl (
              launched_first (record { job = i.id; resource = s.id }) _ j
                (ap (λ (v : JobView). v.id) (sym q)))
          | inr k ↦ elim (fill_unlaunched rest js j k) [
            | inl l ↦ inl (launched_later (record { job = i.id; resource = s.id }) _ j l)
            | inr w ↦ inr w
          ]
        ])
]

first-waiting :
    (c : Chrono) (s : Snapshot) (p : Option Preempt) (ws : List JobView) (b : BlockedHead)
    → first_blocked c s p ws ≡ some b
    → (w : JobView) × In w ws × (b.job ≡ w.id)
unfolding blocked_head
first-waiting c s p [] b h = cc
first-waiting c s p (w ∷ ws) b h = (w, inl refl, ground arith)

-- The blocked head is a startable job of the queue, and each idle resource that it may use is used
-- by a launch of the same decision.
pub decide-blocked_head :
    (c : Chrono) (s : Snapshot) (b : BlockedHead)
    → (decide c s).blocked ≡ some b
    → (head : JobView) × In head s.queue
      × (startable s head ≡ true)
      × (b.job ≡ head.id)
      × ((r : ResourceView)
          → In r s.resources
          → r.run ≡ none
          → allows head.target r.id ≡ true
          → used (decide c s).launches r ≡ true)
unfolding decide filled
decide-blocked_head c s b h =
    let (w, m, e) = first-waiting c s _ _ b h in
    let mem = (fill_waiting _ _ w unnamed m).0 in
    let (mq, st) = In-of_filter (startable s) w s.queue mem in
    (
      w,
      mq,
      st,
      e,
      λ r mr idle ok.
          elim ((fill_waiting _ _ w r m).1 (free_resources_intro r s.resources mr idle)) [
            | inl u ↦ u
            | inr denied ↦ cc
          ],
    )
  where
    unnamed : ResourceView
    unnamed = record { id = 0; name = []; run = none }

-- If no head is blocked, every startable job of the queue is launched.
pub decide-blocked_none :
    (c : Chrono) (s : Snapshot) (j : JobView)
    → (decide c s).blocked ≡ none
    → In j s.queue
    → startable s j ≡ true
    → launched (decide c s).launches j ≡ true
unfolding decide filled
decide-blocked_none c s j h m st =
    elim (fill_unlaunched _ _ j (In-filter (startable s) j s.queue m st)) [
      | inl l ↦ l
      | inr w ↦ absurd (none_waits _ _ w h)
    ]
  where
    none_waits :
        (p : Option Preempt) (ws : List JobView) → In j ws → first_blocked c s p ws ≡ none → ⊥
    none_waits p [] k q = k
    none_waits p (w ∷ ws) k q = cc
