-- ===== src/Delivery/AcceptLaws.antt =====
-- Accepting an event keeps the inbox in order, and never takes anything back
-- (src/store/queue/delivery.rs).
use homebased.Base.{
  ℕ, ◌+◌, ◌^◌, ◌<◌, ◌≡◌, ◌∙◌, ap, subst, refl, true, ◌∷◌, none, some, arith, if◌then◌else◌, ◌==◌,
  Bool-cases, Option-cases, inl, inr, Result, ok,
}
use homebased.Ids.{JobId}
use homebased.Error.{AppError}
use homebased.Delivery.Types.{
  Digest, JobSpec, JobRoute, RoutedJobEvent, EventAcceptance, RouteRow, InboxRow, Origin,
}
use homebased.Delivery.Routes.{route_row, job_route_cursors}
use homebased.Delivery.Inbox.{inbox_row, fits, accept_job_event}
use homebased.Delivery.Cursors.{accepted_of, settled_of, IsOrdered, route_row-id}
use homebased.Delivery.Updates.{
  cursors_changed, update-Distinct, job_route_cursors-update, inbox_row-added,
}
use homebased.Delivery.Accept.{
  accepted_row, fresh_row, Answered, again, early, stored, accept_job_event-Answered,
}
use homebased.Store.Access.{update}

module _ (envelope : RoutedJobEvent) (o t : Origin) (route : JobRoute)
    (added : t.inbox ≡ fresh_row envelope ∷ o.inbox)
    (moved : t.routes
      ≡ update (λ r. r.id == envelope.event.job) (accepted_row route envelope.event.seq) o.routes)
    (row : RouteRow) (here : route_row o envelope.event.job ≡ some row) where
  pub stored_cursors :
      (id : JobId)
      → (settled_of t id ≡ settled_of o id)
        × (accepted_of t id
            ≡ (if envelope.event.job == id then envelope.event.seq else accepted_of o id))
  unfolding job_route_cursors
  stored_cursors id =
      let e =
        job_route_cursors-update (λ r. r.id == envelope.event.job)
          (accepted_row route envelope.event.seq) (λ r. refl) o t id moved in
      elim (Option-cases (route_row o id)) [
        | inl q ↦ elim (Bool-cases (envelope.event.job == id)) [
          | inl same ↦
              let w : id ≡ envelope.event.job = ground arith in
              cc (subst (λ (k : JobId). route_row o k ≡ none) w q)
          | inr apart ↦ rw (apart, job_route_cursors, e, q) (refl, refl)
        ]
        | inr (r, q) ↦
            let mine = route_row-id o id r q in
            ground (
              arith,
              e,
              ap
                  (cursors_changed (λ r. r.id == envelope.event.job)
                    (accepted_row route envelope.event.seq))
                  q,
            )
      ]

  pub stored-IsOrdered :
      envelope.event.seq ≡ accepted_of o envelope.event.job + 1
      → envelope.event.seq < 2 ^ 63
      → IsOrdered o
      → IsOrdered t
  unfolding inbox_row
  stored-IsOrdered next small ordered = record {
    unique = rw moved (
        update-Distinct (λ r. r.id == envelope.event.job) (accepted_row route envelope.event.seq)
          o.routes (λ r. refl) ordered.unique);
    bounded = λ id.
        ground (arith, stored_cursors id, ordered.bounded id, ordered.bounded envelope.event.job);
    small = λ id. ground (arith, stored_cursors id, ordered.small id);
    present = λ id k low high. ground (
      arith,
      inbox_row-added (fresh_row envelope) o t id k added,
      stored_cursors id,
      ordered.present id k low,
    );
    counted = λ id k h. ground (
      arith,
      inbox_row-added (fresh_row envelope) o t id k added,
      stored_cursors id,
      ordered.counted id k,
    );
    labelled = λ id k row h.
        ground
          (arith, inbox_row-added (fresh_row envelope) o t id k added, ordered.labelled id k row);
  }

-- What an answer says of the tables that it leaves.
abbrev pub Promised : RoutedJobEvent → EventAcceptance → Origin → Type 0
Promised envelope (EventAcceptance.acknowledged seq) t =
    (seq ≡ envelope.event.seq)
    × (row : InboxRow) × (inbox_row t envelope.event.job envelope.event.seq ≡ some row)
    × (row.envelope ≡ envelope)
Promised envelope (EventAcceptance.expected seq) t =
    (seq ≡ accepted_of t envelope.event.job + 1) × (seq < envelope.event.seq)

-- What the tables keep: the events that the inbox has, and how far they are settled.
abbrev pub Keeps : Origin → Origin → Type 0
Keeps o t =
    ((id : JobId) (k : ℕ) (row : InboxRow)
      → inbox_row o id k ≡ some row
      → inbox_row t id k ≡ some row)
    × ((id : JobId) → settled_of t id ≡ settled_of o id)

pub Answered-Promised :
    (envelope : RoutedJobEvent) (o t : Origin) (answer : EventAcceptance)
    → Answered envelope o answer t
    → Promised envelope answer t
unfolding inbox_row
Answered-Promised envelope o t answer (again row le found same is back) =
    rw is (refl, row, rw back found, same)
Answered-Promised envelope o t answer (early lt is back) = rw is (rw back refl, lt)
Answered-Promised envelope o t answer (stored row here next small is added moved) = rw is (
  refl,
  fresh_row envelope,
  inbox_row-added (fresh_row envelope) o t envelope.event.job envelope.event.seq added
      ∙ (ground arith),
  refl,
)

pub Answered-Keeps :
    (envelope : RoutedJobEvent) (o t : Origin) (answer : EventAcceptance)
    → IsOrdered o
    → Answered envelope o answer t
    → Keeps o t × IsOrdered t
Answered-Keeps envelope o t answer ordered (again row le found same is back) =
    ((λ id k r h. rw back h, λ id. rw back refl), rw back ordered)
Answered-Keeps envelope o t answer ordered (early lt is back) =
    ((λ id k r h. rw back h, λ id. rw back refl), rw back ordered)
Answered-Keeps envelope o t answer ordered (stored row here next small is added moved) = (
  (
    λ id k r h.
        ground (
          arith,
          inbox_row-added (fresh_row envelope) o t id k added,
          ordered.counted id k,
          next,
          h,
        ),
    λ id. (stored_cursors envelope o t row.route added moved row here id).0,
  ),
  stored-IsOrdered envelope o t row.route added moved row here next small ordered,
)

-- An event that is answered without an error is one that its route is for, under a number from 1 that
-- fits an `i64`. `Acknowledged` says that the inbox holds that very event, whether it was stored now or
-- before; `Expected` names the number after the last event that the inbox has, which is smaller than the
-- offered one. Every event that was there stays as it was, and nothing is settled by it.
pub accept_job_event-Promised :
    (digest : JobSpec → Result Digest AppError) (envelope : RoutedJobEvent) (o t : Origin)
    (answer : EventAcceptance)
    → IsOrdered o
    → accept_job_event digest envelope o ≡ ok (answer, t)
    → (row : RouteRow) × (route_row o envelope.event.job ≡ some row)
      × (fits row.route envelope ≡ true)
      × (0 < envelope.event.seq)
      × (envelope.event.seq < 2 ^ 63)
      × Promised envelope answer t
      × Keeps o t
accept_job_event-Promised digest envelope o t answer ordered h =
    let (row, here, fit, low, small, answered) =
      accept_job_event-Answered envelope o answer t digest h in
    (
      row,
      here,
      fit,
      low,
      small,
      Answered-Promised envelope o t answer answered,
      (Answered-Keeps envelope o t answer ordered answered).0,
    )
