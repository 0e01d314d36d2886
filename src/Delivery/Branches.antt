-- ===== src/Delivery/Branches.antt =====
-- The branches of accepting an event, and of reading a route, at what they need to succeed
-- (src/store/queue/delivery.rs).
use homebased.Base.{
  ◌≤◌, ◌≡◌, refl, true, not, ◌∷◌, none, some, arith, ◌==◌, leb, Bool-cases, inl, inr, ◌||◌, >>=-ok,
  ensure-ok, Result, ok,
}
use homebased.Ids.{JobId}
use homebased.Error.{AppError, queue, corrupt, route_identity}
use homebased.Delivery.Types.{
  Digest, JobSpec, RoutedJobEvent, JobRoute, JobSubmission, acknowledged, RouteRow, InboxRow,
  Origin, same_envelope, same_envelope_refl,
}
use homebased.Delivery.Routes.{checked_route, set_route}
use homebased.Delivery.Inbox.{inbox_row, repeated, advance}
use homebased.Delivery.Accept.{accepted_row, fresh_row}

pub repeated_lem :
    (e : RoutedJobEvent) (o : Origin) (row : InboxRow)
    → inbox_row o e.event.job e.event.seq ≡ some row
    → row.envelope ≡ e
    → repeated e o ≡ ok (acknowledged e.event.seq, o)
unfolding repeated
repeated_lem e o row here same =
    let alike : same_envelope row.envelope e ≡ true = rw same (same_envelope_refl e) in
    rw (here, alike) refl

pub advance_lem :
    (route : JobRoute) (e : RoutedJobEvent) (row : RouteRow) (o : Origin)
    → inbox_row o e.event.job e.event.seq ≡ none
    → row.cursors.settled ≤ e.event.seq
    → advance route e row.cursors o
      ≡ ok (
        acknowledged e.event.seq,
        set_route
            (accepted_row route e.event.seq)
            e.event.job
            (record o { inbox = fresh_row e ∷ o.inbox }),
      )
unfolding advance
advance_lem route e row o absent le =
    let room : leb row.cursors.settled e.event.seq ≡ true = ground arith in rw (absent, room) refl

-- A route that is accepted is as sound as before.
pub checked_route-accepted :
    (digest : JobSpec → Result Digest AppError) (id : JobId) (route : JobRoute)
    → checked_route digest id route ≡ ok route
    → checked_route digest id (record route { submission = JobSubmission.accepted })
      ≡ ok (record route { submission = JobSubmission.accepted })
unfolding checked_route
checked_route-accepted digest id route h =
    elim (Bool-cases (not (route.job == id) || not (route.thread == route.spec.thread))) [
      | inl bad ↦ cc (rw bad at h)
      | inr good ↦
          let (expect, h₁, e) = >>=-ok _ (digest route.spec) (rw good at h) in
          let (same, _) =
            ensure-ok (route.digest == expect) (queue (corrupt (route_identity id))) _ h₁ in
          rw (good, e, same) refl
    ]
