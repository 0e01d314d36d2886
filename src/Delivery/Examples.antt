-- ===== src/Delivery/Examples.antt =====
-- A job's events on their way to an origin (src/store/queue/delivery.rs,
-- src/daemon/event_sender/jobs.rs), for the theorems on delivery.
use homebased.Base.{
  ℕ, zero, suc, ◌+◌, ◌^◌, ◌≤◌, ◌<◌, ◌≡◌, ◌≢◌, ◌⊎◌, ◌↔◌, refl, true, [], ◌∷◌, none, some, Result, ok,
  err, arith,
}
use homebased.Error.{AppError, queue, invariant, settlement_gap}
use homebased.Store.Types.{JobEvent, job_preempted}
use homebased.Delivery.Types.{
  Digest, JobSpec, JobSubmission, JobRoute, RoutedJobEvent, acknowledged, RouteRow, Origin,
}
use homebased.Delivery.Routes.{route_row, insert_job_route, checked_route, job_route_cursors}
use homebased.Delivery.Inbox.{inbox_row, fits, accept_job_event, settle_job_event_inner}
use homebased.Delivery.Cursors.{IsOrdered, empty-IsOrdered}
use homebased.Delivery.Updates.{envelope_at}
use homebased.Delivery.SettleLaws.{settle_gap}
use homebased.Delivery.AcceptLaws.{Promised, Keeps, accept_job_event-Promised}
use homebased.Delivery.Preserved.{Good}
use homebased.Delivery.Reach.{here, later, insert, accept, reachable-Good}
use homebased.Delivery.Outbox.{Outbox, acknowledged_of, stored_event, deliver_authority}
use homebased.Delivery.Offers.{entry, Ready}
use homebased.Delivery.Acks.{Holds}
use homebased.Delivery.Worker.{Delivered, deliver_authority-Delivered}

abbrev digest : JobSpec → Result Digest AppError
digest spec = ok (spec.thread + 50)

abbrev route : JobRoute
route = record {
  job = 10;
  origin = 7;
  authority = 8;
  thread = 5;
  callback = "homebased";
  spec = record { thread = 5; content = [] };
  digest = 55;
  target = none;
  submission = JobSubmission.unknown;
}

abbrev event : ℕ → JobEvent
event k = record {
  job = 10;
  seq = k;
  event = job_preempted;
  run = none;
  resource_name = none;
  process = none;
  attention = none;
}

abbrev envelope : RoutedJobEvent
envelope = record { origin = 7; authority = 8; digest = 55; event = event 1 }

abbrev origin_after {ℓ} : {A : Type ℓ} → Origin → Result (A × Origin) AppError → Origin
origin_after o (ok (a, t)) = t
origin_after o (err e) = o

abbrev empty : Origin
empty = record { routes = []; inbox = [] }

abbrev routed : Origin
routed = origin_after empty (insert_job_route digest route empty)

abbrev told : Origin
told = origin_after routed (accept_job_event digest envelope routed)

reachable-Good_example : Good empty told
unfolding insert_job_route accept_job_event
reachable-Good_example =
    reachable-Good digest empty told empty-IsOrdered
      (later (later here (insert route route refl)) (accept envelope (acknowledged 1) refl))

routed-IsOrdered : IsOrdered routed
unfolding insert_job_route
routed-IsOrdered =
    (reachable-Good digest empty routed empty-IsOrdered (later here (insert route route refl))).0

told-IsOrdered : IsOrdered told
unfolding insert_job_route accept_job_event
told-IsOrdered =
    (reachable-Good digest empty told empty-IsOrdered
      (later (later here (insert route route refl)) (accept envelope (acknowledged 1) refl))).0

accept_job_event-Promised_example :
    (row : RouteRow) × (route_row routed 10 ≡ some row)
    × (fits row.route envelope ≡ true)
    × (0 < 1)
    × (1 < 2 ^ 63)
    × Promised envelope (acknowledged 1) told
    × Keeps routed told
unfolding insert_job_route accept_job_event
accept_job_event-Promised_example =
    accept_job_event-Promised digest envelope routed told (acknowledged 1) routed-IsOrdered refl

settle_gap_example :
    (settle_job_event_inner 10 2 told ≡ err (queue (invariant settlement_gap)))
    ↔ ((0 < 2) × ((◌≢◌ {A = ℕ} 2 1) ⊎ (1 < 2)))
unfolding insert_job_route accept_job_event job_route_cursors
settle_gap_example = settle_gap 10 2 told (record { accepted = 1; settled = 0 }) told-IsOrdered refl

-- The origin has the first of three events, of which the outbox counts two as acknowledged.
abbrev outbox : Outbox
outbox = record {
  events = event 1 ∷ event 2 ∷ event 3 ∷ [];
  acks = record { id = 10; seq = 2 } ∷ [];
}

told-prefix :
    (k : ℕ) (e : RoutedJobEvent) → envelope_at told 10 k ≡ some e → e ≡ entry envelope (event k)
unfolding insert_job_route accept_job_event inbox_row
told-prefix k e h = ground arith

told-Ready : Ready digest event envelope 10 told
unfolding insert_job_route accept_job_event checked_route fits
told-Ready = record {
  ordered = told-IsOrdered;
  row = record {
    id = 10;
    route = record route { submission = JobSubmission.accepted };
    cursors = record { accepted = 1; settled = 0 };
  };
  found = refl;
  sound = refl;
  fit = refl;
  prefix = told-prefix;
}

outbox-Holds : Holds outbox 10 3 event
unfolding stored_event
outbox-Holds = record { stored = stored; job = λ k low high. refl; seq = λ k low high. refl }
  where
    stored : (k : ℕ) → 0 < k → k ≤ 3 → stored_event outbox 10 k ≡ ok (event k)
    stored zero low high = absurd (omega arith)
    stored (suc zero) low high = refl
    stored (suc (suc zero)) low high = refl
    stored (suc (suc (suc zero))) low high = refl
    stored (suc (suc (suc (suc k)))) low high = absurd (omega arith)

three_fits : 3 < 2 ^ 63
three_fits = omega arith

deliver_authority-Delivered_example : Delivered digest event envelope 10 3 three_fits (
    deliver_authority digest (entry envelope (event 3)) (record { outbox = outbox; origin = told }))
unfolding insert_job_route accept_job_event job_route_cursors acknowledged_of
deliver_authority-Delivered_example =
    deliver_authority-Delivered digest event envelope 10 3 three_fits outbox told told-Ready
      outbox-Holds refl (omega arith)
