-- ===== src/Delivery/Inbox.antt =====
-- The inbox of an origin (src/store/queue/delivery.rs): events are accepted in their order, and settled
-- in their order once the thread was told.
use homebased.Base.{
  ℕ, ◌+◌, Bool, true, false, not, ◌&&◌, List, [], ◌∷◌, find, any, map_or, filter, Option, none,
  some, is_some, Result, ok, err, ◌>>=◌, ◌>>◌, ensure, ok_or, if◌then◌else◌, leb, ltb, ◌==◌,
}
use homebased.Ids.{JobId, Time}
use homebased.Error.{
  AppError, internal, usage, constraint, queue, invariant, job_not_found, job_conflict,
  not_a_notice, settlement_gap,
}
use homebased.Store.Access.{update}
use homebased.Delivery.Types.{
  Digest, JobSpec, accepted, JobRoute, RoutedJobEvent, EventAcceptance, acknowledged, expected,
  JobCursors, RouteRow, InboxRow, Origin, same_envelope, is_blocked,
}
use homebased.Delivery.Routes.{sql_seq, job_route, job_route_cursors, set_route, is_rejected}

unfoldable pub inbox_row : Origin → JobId → ℕ → Option InboxRow
inbox_row o id seq = find (λ r. (r.job == id) && (r.seq == seq)) o.inbox

-- An envelope that its route is for, while the submission is not refused.
unfoldable pub fits : JobRoute → RoutedJobEvent → Bool
unfolding is_rejected
fits route envelope =
    (route.origin == envelope.origin)
    && ((route.authority == envelope.authority)
        && ((route.digest == envelope.digest) && not (is_rejected route.submission)))

-- A sequence that is there already: the stored envelope has to be the same one.
unfoldable pub repeated : RoutedJobEvent → Origin → Result (EventAcceptance × Origin) AppError
unfolding inbox_row same_envelope
repeated envelope o = do
  row ←
      ok_or (inbox_row o envelope.event.job envelope.event.seq) (internal "Query returned no rows")
  ensure (same_envelope row.envelope envelope) (queue (job_conflict envelope.event.job))
  ok (acknowledged envelope.event.seq, o)

-- The row's new cursor, with the check `settled_seq <= accepted_seq`.
unfoldable pub advance :
    JobRoute → RoutedJobEvent → JobCursors → Origin → Result (EventAcceptance × Origin) AppError
unfolding set_route inbox_row
advance route envelope cursors o =
    let id = envelope.event.job in
    let seq = envelope.event.seq in
    let row : InboxRow = record { job = id; seq = seq; envelope = envelope; suppressed = none } in
    let submitted : JobRoute = record route { submission = accepted } in
    do
      ensure (not (is_some (inbox_row o id seq))) constraint
      ensure (leb cursors.settled seq) constraint
      ok (
        acknowledged seq,
        set_route
            (λ r. record r {
              route = submitted;
              cursors = record { accepted = seq; settled = r.cursors.settled };
            })
            id (record o { inbox = row ∷ o.inbox }),
      )

-- The next event is stored; one that comes too early is answered by what is expected.
unfoldable pub next_event :
    JobRoute → RoutedJobEvent → JobCursors → Origin → Result (EventAcceptance × Origin) AppError
unfolding repeated advance
next_event route envelope cursors o =
    if leb envelope.event.seq cursors.accepted
    then repeated envelope o
    else if not (envelope.event.seq == cursors.accepted + 1)
    then ok (expected (cursors.accepted + 1), o)
    else advance route envelope cursors o

-- `settle_job_event_inner`: the cursor moves by one, up to the last accepted event.
unfoldable pub settles : JobId → ℕ → RouteRow → Bool
settles id seq r = (r.id == id) && ((r.cursors.settled + 1 == seq) && leb seq r.cursors.accepted)

unfoldable pub settle_job_event_inner : JobId → ℕ → Origin → Result (Unit {0} × Origin) AppError
unfolding update settles job_route_cursors
settle_job_event_inner id seq o =
    let t : Origin = record o {
      routes =
          update (settles id seq)
            (λ r. record r { cursors = record { accepted = r.cursors.accepted; settled = seq } })
            o.routes;
    } in
    if not (any (settles id seq) o.routes)
      && map_or (job_route_cursors o id) true (λ cursors. ltb cursors.settled seq)
    then err (queue (invariant settlement_gap))
    else ok (tt, t)

unfoldable pub settle_job_event : JobId → ℕ → Origin → Result (Unit {0} × Origin) AppError
unfolding sql_seq settle_job_event_inner
settle_job_event id seq o = do checked ← sql_seq seq; settle_job_event_inner id checked o

unfoldable pub suppressed_at : Time → InboxRow → InboxRow
suppressed_at now r = record r {
  suppressed = elim r.suppressed [ none ↦ some now | some at ↦ some at ];
}

unfoldable pub suppress_job_notice : JobId → ℕ → Time → Origin → Result (Unit {0} × Origin) AppError
unfolding sql_seq inbox_row is_blocked update suppressed_at settle_job_event_inner
suppress_job_notice id seq now o = do
  checked ← sql_seq seq
  row ← ok_or (inbox_row o id checked) (internal "Query returned no rows")
  ensure (is_blocked row.envelope.event.event) (queue (invariant not_a_notice))
  settle_job_event_inner id checked (record o {
    inbox = update (λ r. (r.job == id) && (r.seq == checked)) (suppressed_at now) o.inbox;
  })

unfoldable pub is_pending : Origin → InboxRow → Bool
unfolding job_route_cursors
is_pending o r = map_or (job_route_cursors o r.job) false (λ cursors. r.seq == cursors.settled + 1)

module _ (digest : JobSpec → Result Digest AppError) where
  unfoldable pub accept_job_event :
      RoutedJobEvent → Origin → Result (EventAcceptance × Origin) AppError
  unfolding sql_seq job_route job_route_cursors fits next_event
  accept_job_event envelope o = do
    seq ← sql_seq envelope.event.seq
    found ← job_route digest o envelope.event.job
    route ← ok_or found (queue (job_not_found envelope.event.job))
    cursors ←
        ok_or (job_route_cursors o envelope.event.job) (queue (job_not_found envelope.event.job))
    ensure (fits route envelope) (queue (job_conflict envelope.event.job))
    ensure (not (envelope.event.seq == 0)) (usage "job sequence must be positive")
    next_event route envelope cursors o

  unfoldable pub with_routes :
      Origin → List InboxRow → Result (List (JobRoute × RoutedJobEvent)) AppError
  unfolding job_route
  with_routes o [] = ok []
  with_routes o (r ∷ rs) = do
    found ← job_route digest o r.job
    route ← ok_or found (queue (job_not_found r.job))
    rest ← with_routes o rs
    ok ((route, r.envelope) ∷ rest)

  -- `pending_job_inbox`: of each job, the first event that is not settled, with the job's route.
  unfoldable pub pending_job_inbox : Origin → Result (List (JobRoute × RoutedJobEvent)) AppError
  unfolding with_routes is_pending
  pending_job_inbox o = with_routes o (filter (is_pending o) o.inbox)
