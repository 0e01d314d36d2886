-- ===== src/Queue/Schedule/Notices.antt =====
-- When the blocked head of `decide` (src/queue/schedule.rs) causes a notice.
use homebased.Base.{
  ℕ, ◌+◌, ◌≤◌, ◌<◌, ◌≡◌, refl, ◌⊎◌, inl, inr, Bool, true, false, not, List, [], ◌∷◌, leb, Option,
  some, arith, Option-cases, In, In-of_filter, map_or, and_true,
}
use homebased.Ids.{AttentionId}
use homebased.Queue.Job.{allows}
use homebased.Queue.Run.{
  ActiveRun, RunPhase, CleanupFailure, launching, executing, stopping, cleaning, attention,
}
use homebased.Queue.Schedule.Types.{ResourceView, JobView, StoredEpisode, Snapshot, Preempt, Chrono}
use homebased.Queue.Schedule.Blocked.{
  Scan, of_lower_job, scan_run, scan_step, scan, scanned, first_scan, stored_episode, due_time,
  blocked_head,
}

-- A run holds the head up if it waits for a person or belongs to a job of a lower level.
abbrev pub HoldsUp : List JobView → JobView → ActiveRun → Type 0
HoldsUp queue head run =
    ((id : AttentionId) × (f : CleanupFailure) × (run.phase ≡ attention id f))
    ⊎ (of_lower_job queue head run ≡ true)

module _ (queue : List JobView) (head : JobView) where
  scan_run-held_up :
      (r : ResourceView) (run : ActiveRun) (p : RunPhase) (s : Scan)
      → run.phase ≡ p
      → (scan_run queue head r run p s).held_up ≡ true
      → (s.held_up ≡ true) ⊎ HoldsUp queue head run
  unfolding scan_run
  scan_run-held_up r run (attention id f) s e h = inr (inl (id, f, e))
  scan_run-held_up r run (launching t) s e h = ground arith
  scan_run-held_up r run (executing t) s e h = ground arith
  scan_run-held_up r run (stopping t c u) s e h = ground arith
  scan_run-held_up r run (cleaning n) s e h = ground arith

  abbrev HeldUpIn : List ResourceView → Type 0
  HeldUpIn rs =
      (r : ResourceView) × (run : ActiveRun) × In r rs × (r.run ≡ some run) × HoldsUp queue head run

  scan-held_up :
      (rs : List ResourceView) (s : Scan)
      → (scan queue head rs s).held_up ≡ true
      → (s.held_up ≡ true) ⊎ HeldUpIn rs
  unfolding scan scan_step
  scan-held_up [] s h = inl h
  scan-held_up (r ∷ rs) s h = elim (scan-held_up rs (scan_step queue head r s) h) [
    | inr (q, run, m, e, k) ↦ inr (q, run, inr m, e, k)
    | inl now ↦ elim (Option-cases r.run) [
      | inl e ↦ inl (rw (e, scan_step) at now)
      | inr (run, e) ↦ elim (scan_run-held_up r run run.phase s refl (rw (e, scan_step) at now)) [
        | inl before ↦ inl before
        | inr k ↦ inr (r, run, inl refl, e, k)
      ]
    ]
  ]

due_time_reached :
    (c : Chrono) (held : Bool) (threshold since now : ℕ)
    → leb (due_time c held threshold since) now ≡ true
    → now < c.max_utc
    → (held ≡ true) × (since + threshold ≤ now)
unfolding due_time
due_time_reached c held threshold since now h k = ground arith

not_notified :
    (stored : Option StoredEpisode)
    → not (map_or stored false (λ e. e.notified)) ≡ true
    → (e : StoredEpisode) → stored ≡ some e
    → e.notified ≡ false
not_notified stored h e q = ground arith

-- A notice is sent, before chrono's last instant, only if the head's threshold has passed since it
-- was blocked, no notice was recorded for its episode, and some resource that the head may use is
-- held by a run that waits for a person or whose job stands at a strictly lower level: runs of the
-- head's own level or higher never cause one.
pub blocked_head_notice :
    (c : Chrono) (s : Snapshot) (head : JobView) (p : Option Preempt)
    → (blocked_head c s head p).send_now ≡ true
    → s.now < c.max_utc
    → ((blocked_head c s head p).blocked_since + (blocked_head c s head p).threshold ≤ s.now)
      × ((e : StoredEpisode) → stored_episode s head ≡ some e → e.notified ≡ false)
      × (r : ResourceView) × (run : ActiveRun) × In r s.resources
      × (allows head.target r.id ≡ true)
      × (r.run ≡ some run)
      × HoldsUp s.queue head run
unfolding blocked_head scanned
blocked_head_notice c s head p h k =
    let b = blocked_head c s head p in
    let scanned_all = scanned s head p in
    let (due, fresh) =
      and_true (leb b.due_at s.now)
        (not (map_or (stored_episode s head) false (λ (e : StoredEpisode). e.notified))) h in
    let (held, passed) =
      due_time_reached c scanned_all.held_up b.threshold b.blocked_since s.now due k in
    elim (scan-held_up s.queue head _ (first_scan head p) held) [
      | inl e ↦ cc
      | inr (r, run, m, e, q) ↦
          let (mr, ok) = In-of_filter (λ r. allows head.target r.id) r s.resources m in
          (passed, not_notified (stored_episode s head) fresh, r, run, mr, ok, e, q)
    ]
