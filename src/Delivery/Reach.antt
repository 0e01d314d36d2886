-- ===== src/Delivery/Reach.antt =====
-- The operations of an origin as steps of one relation, and what holds after any sequence of them
-- (src/store/queue/delivery.rs).
use homebased.Base.{ℕ, ◌≡◌, Option, Result, ok}
use homebased.Ids.{JobId, Time}
use homebased.Error.{AppError}
use homebased.Queue.Job.{Target}
use homebased.Delivery.Types.{
  Digest, JobSpec, JobSubmission, RoutedJobEvent, EventAcceptance, JobRoute, Origin,
}
use homebased.Delivery.Routes.{insert_job_route, resolve_job_route}
use homebased.Delivery.Inbox.{accept_job_event, settle_job_event, suppress_job_notice}
use homebased.Delivery.Cursors.{IsOrdered}
use homebased.Delivery.Growth.{Grows-refl, Grows-trans}
use homebased.Delivery.Preserved.{
  Good, accept_job_event-Good, settle_job_event-Good, suppress_job_notice-Good,
}
use homebased.Delivery.Submitted.{insert_job_route-Good, resolve_job_route-Good}

-- One committed transaction on an origin's tables.
pub data Step (digest : JobSpec → Result Digest AppError) (o t : Origin) : Type 0 where
  insert :
      (route saved : JobRoute) → insert_job_route digest route o ≡ ok (saved, t) → Step digest o t
  resolve :
      (id : JobId) (submission : JobSubmission) (target : Option Target)
      → resolve_job_route digest id submission target o ≡ ok (tt, t)
      → Step digest o t
  accept :
      (envelope : RoutedJobEvent) (answer : EventAcceptance)
      → accept_job_event digest envelope o ≡ ok (answer, t)
      → Step digest o t
  settle : (id : JobId) (seq : ℕ) → settle_job_event id seq o ≡ ok (tt, t) → Step digest o t
  suppress :
      (id : JobId) (seq : ℕ) (now : Time)
      → suppress_job_notice id seq now o ≡ ok (tt, t)
      → Step digest o t

pub data Steps (digest : JobSpec → Result Digest AppError) (o : Origin) : Origin → Type 0 where
  here : Steps digest o o
  later : {t u : Origin} → Steps digest o t → Step digest t u → Steps digest o u

Step-Good :
    (digest : JobSpec → Result Digest AppError) (o t : Origin)
    → Step digest o t
    → IsOrdered o
    → Good o t
Step-Good digest o t (insert route saved h) a = insert_job_route-Good digest route saved o t a h
Step-Good digest o t (resolve id submission target h) a =
    resolve_job_route-Good digest id submission target o t a h
Step-Good digest o t (accept envelope answer h) a =
    accept_job_event-Good digest envelope o t answer a h
Step-Good digest o t (settle id seq h) a = settle_job_event-Good id seq o t a h
Step-Good digest o t (suppress id seq now h) a = suppress_job_notice-Good id seq now o t a h

-- After any sequence of operations on an origin whose inbox is in order, it is in order: each job's
-- inbox holds exactly the events 1 to its accepted cursor, each under its own job and number, no fewer
-- than are settled, and the cursors fit an `i64`. Nothing that was saved is taken back: a route keeps
-- its owner, its thread, its spec, a target that is known and an acceptance; no cursor goes back; and
-- an accepted event stays as it was first stored.
pub reachable-Good :
    (digest : JobSpec → Result Digest AppError) (o t : Origin)
    → IsOrdered o
    → Steps digest o t
    → Good o t
reachable-Good digest o t ordered here = (ordered, Grows-refl o)
reachable-Good digest o u ordered (later {t} steps step) =
    let (after, grown) = reachable-Good digest o t ordered steps in
    let (last, more) = Step-Good digest t u step after in (last, Grows-trans o t u grown more)
