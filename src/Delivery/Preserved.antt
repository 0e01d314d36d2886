-- ===== src/Delivery/Preserved.antt =====
-- Every operation on an origin's tables keeps the inbox in order and takes nothing back.
use homebased.Base.{
  ℕ, ◌≡◌, ◌∙◌, sym, refl, Bool, true, Option, none, some, arith, ◌==◌, Bool-cases, inl, inr, Result,
  ok,
}
use homebased.Ids.{JobId, Time}
use homebased.Error.{AppError}
use homebased.Store.Access.{update}
use homebased.Delivery.Types.{
  Digest, JobSpec, JobSubmission, RoutedJobEvent, EventAcceptance, JobRoute, RouteRow, Origin,
}
use homebased.Delivery.Routes.{route_row, is_accepted}
use homebased.Delivery.Inbox.{accept_job_event, settle_job_event, suppress_job_notice}
use homebased.Delivery.Cursors.{IsOrdered, route_row-id}
use homebased.Delivery.Updates.{route_row-update, inbox_row-added}
use homebased.Delivery.Kept.{
  Settles, route_of, settle_job_event-Settles, suppress_job_notice-Settles,
}
use homebased.Delivery.Accept.{
  accepted_row, fresh_row, Answered, again, early, stored, accept_job_event-Answered,
}
use homebased.Delivery.AcceptLaws.{Answered-Keeps, stored_cursors}
use homebased.Delivery.Growth.{RouteKept, RouteKept-refl, RowKept, Grows, Grows-refl}

pub some_eq : {A : Type 0} {a b : A} → some a ≡ some b → a ≡ b
some_eq h = ground (arith, h)

abbrev pub Good : Origin → Origin → Type 0
Good o t = IsOrdered t × Grows o t

pub routes-Grow :
    (p : RouteRow → Bool) (f : RouteRow → RouteRow) (o t : Origin)
    → ((r : RouteRow) → (f r).id ≡ r.id)
    → t.routes ≡ update p f o.routes
    → ((id : JobId) (row : RouteRow)
        → route_row o id ≡ some row
        → p row ≡ true
        → RouteKept row.route (f row).route)
    → (id : JobId) (row : RouteRow) → route_row o id ≡ some row
    → RowKept row.route (route_row t id)
routes-Grow p f o t keeps e each id row here =
    rw (route_row-update p f keeps o t id e, here)
      (elim (Bool-cases (p row)) [
        | inl y ↦ rw y (each id row here y)
        | inr n ↦ rw n (RouteKept-refl row.route)
      ])

Answered-Grows :
    (envelope : RoutedJobEvent) (o t : Origin) (answer : EventAcceptance)
    → IsOrdered o
    → Answered envelope o answer t
    → Grows o t
unfolding is_accepted
Answered-Grows envelope o t answer ordered (again row le found same is back) =
    rw back (Grows-refl o)
Answered-Grows envelope o t answer ordered (early lt is back) = rw back (Grows-refl o)
Answered-Grows envelope o t answer ordered (stored row here next small is added moved) =
    let cursors = stored_cursors envelope o t row.route added moved row here in
    record {
      routes =
          routes-Grow (λ r. r.id == envelope.event.job) (accepted_row row.route envelope.event.seq)
            o t (λ r. refl) moved
            (λ id r found mine.
              let mine' : (r.id == id) ≡ true = route_row-id o id r found in
              let same : id ≡ envelope.event.job = ground arith in
              let one : r ≡ row = some_eq (sym found ∙ (rw same here)) in rw one (kept row.route));
      accepted = λ id. ground (arith, cursors id);
      settled = λ id. ground (arith, cursors id);
      envelopes = λ id k e h.
          ground
            (arith, inbox_row-added (fresh_row envelope) o t id k added, ordered.counted id k, h);
    }
  where
    kept : (r : JobRoute) → RouteKept r (record r { submission = JobSubmission.accepted })
    kept r = record {
      job = refl;
      origin = refl;
      authority = refl;
      thread = refl;
      callback = refl;
      spec = refl;
      digest = refl;
      target = λ h. refl;
      submission = λ h. refl;
    }

pub accept_job_event-Good :
    (digest : JobSpec → Result Digest AppError) (envelope : RoutedJobEvent) (o t : Origin)
    (answer : EventAcceptance)
    → IsOrdered o
    → accept_job_event digest envelope o ≡ ok (answer, t)
    → Good o t
accept_job_event-Good digest envelope o t answer ordered h =
    let (row, here, _, _, _, answered) = accept_job_event-Answered envelope o answer t digest h in
    (
      (Answered-Keeps envelope o t answer ordered answered).1,
      Answered-Grows envelope o t answer ordered answered,
    )

same_route-RowKept :
    (r : JobRoute) (m : Option RouteRow)
    → elim m [ none ↦ none | some row ↦ some row.route ] ≡ some r
    → RowKept r m
same_route-RowKept r none e = cc e
same_route-RowKept r (some row) e = rw (some_eq e) (RouteKept-refl r)

-- Settling changes no route.
Settles-Good : (id : JobId) (seq : ℕ) (o t : Origin) → Settles id seq o t → Good o t
Settles-Good id seq o t done = (
  done.ordered,
  record {
    routes = λ k row e.
        same_route-RowKept row.route (route_row t k) (done.routes k ∙ (rw (route_of, e) refl));
    accepted = λ k. ground (arith, done.accepted k);
    settled = λ k. (done.by_one k).0;
    envelopes = λ k n e h. done.envelopes k n ∙ h;
  },
)

pub settle_job_event-Good :
    (id : JobId) (seq : ℕ) (o t : Origin)
    → IsOrdered o
    → settle_job_event id seq o ≡ ok (tt, t)
    → Good o t
settle_job_event-Good id seq o t ordered h =
    let done = settle_job_event-Settles id seq o t ordered h in Settles-Good id seq o t done

pub suppress_job_notice-Good :
    (id : JobId) (seq : ℕ) (now : Time) (o t : Origin)
    → IsOrdered o
    → suppress_job_notice id seq now o ≡ ok (tt, t)
    → Good o t
suppress_job_notice-Good id seq now o t ordered h =
    let done = suppress_job_notice-Settles id seq now o t ordered h in Settles-Good id seq o t done
