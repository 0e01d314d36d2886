-- ===== src/Delivery/Kept.antt =====
-- Routes that are added and resolved, and events that are settled and suppressed, keep an origin's inbox
-- in order (src/store/queue/delivery.rs).
use homebased.Base.{
  ℕ, ◌+◌, ◌≤◌, ◌≡◌, ◌∙◌, ap, refl, any, Option, none, some, arith, ◌==◌, ◌&&◌, Bool-cases,
  Option-cases, inl, inr, ok, >>=-ok, ensure-ok, ok_or,
}
use homebased.Ids.{JobId, Time}
use homebased.Error.{queue, invariant, internal, not_a_notice}
use homebased.Store.Access.{update}
use homebased.Delivery.Types.{JobRoute, RouteRow, Origin, is_blocked}
use homebased.Delivery.Routes.{sql_seq, route_row, job_route_cursors, set_route}
use homebased.Delivery.Inbox.{
  inbox_row, settles, settle_job_event_inner, settle_job_event, suppress_job_notice, suppressed_at,
}
use homebased.Delivery.Cursors.{accepted_of, settled_of, IsOrdered, cursors-row, cursors-none}
use homebased.Delivery.Updates.{
  cursors_changed, update-Distinct, job_route_cursors-update, route_row-update, inbox_row-same,
  find-updated, envelope_at, view-IsOrdered,
}
use homebased.Delivery.SettleLaws.{
  settling_row, settled_here, settled_row, settled_accepted, settled_settled, settled-IsOrdered,
}

-- The route of a job.
abbrev pub route_of : Origin → JobId → Option JobRoute
route_of o id = elim (route_row o id) [ none ↦ none | some row ↦ some row.route ]

-- What settling the events of one job may do to the cursors.
pub record Settles (id : JobId) (seq : ℕ) (o t : Origin) : Type 0 where
  pub ordered : IsOrdered t
  pub accepted : (k : JobId) → accepted_of t k ≡ accepted_of o k
  pub by_one :
      (k : JobId) → (settled_of o k ≤ settled_of t k) × (settled_of t k ≤ settled_of o k + 1)
  pub reached : seq ≤ settled_of t id
  pub envelopes : (k : JobId) (n : ℕ) → envelope_at t k n ≡ envelope_at o k n
  pub routes : (k : JobId) → route_of t k ≡ route_of o k

settled_route :
    (id : JobId) (seq : ℕ) (o t : Origin)
    → t.routes ≡ update (settles id seq) (settled_row seq) o.routes
    → (k : JobId) → route_of t k ≡ route_of o k
settled_route id seq o t moved k =
    let e = route_row-update (settles id seq) (settled_row seq) (λ r. refl) o t k moved in
    elim (Option-cases (route_row o k)) [
      | inl q ↦ ground (arith, e, q)
      | inr (r, q) ↦ ground (arith, e, q)
    ]

pub settle_job_event_inner-Settles :
    (id : JobId) (seq : ℕ) (o t : Origin)
    → IsOrdered o
    → settle_job_event_inner id seq o ≡ ok (tt, t)
    → Settles id seq o t
unfolding settle_job_event_inner
settle_job_event_inner-Settles id seq o t ordered h =
    let moved : t.routes ≡ update (settles id seq) (settled_row seq) o.routes = ground arith in
    let kept : t.inbox ≡ o.inbox = ground arith in
    record {
      ordered = settled-IsOrdered id seq o t moved kept ordered;
      accepted = settled_accepted id seq o t moved kept;
      by_one = λ k. ground (arith, settled_settled id seq o t moved kept k);
      reached = elim (Bool-cases (any (settles id seq) o.routes)) [
        | inl some_row ↦
            let (row, here, s) = settling_row o id seq ordered some_row in
            ground (arith, settled_here id seq o t moved kept row here s)
        | inr no_row ↦ ground (arith, settled_settled id seq o t moved kept id)
      ];
      envelopes = λ k n. rw (envelope_at, inbox_row-same o t k n kept) refl;
      routes = settled_route id seq o t moved;
    }

pub settle_job_event-Settles :
    (id : JobId) (seq : ℕ) (o t : Origin)
    → IsOrdered o
    → settle_job_event id seq o ≡ ok (tt, t)
    → Settles id seq o t
unfolding settle_job_event sql_seq
settle_job_event-Settles id seq o t ordered h =
    let (checked, h₁, e) = >>=-ok _ (sql_seq seq) h in
    settle_job_event_inner-Settles id seq o t ordered (ground arith)

-- A suppressed event is marked in the inbox, which does not change its envelope.
marked_envelope :
    (id : JobId) (seq : ℕ) (now : Time) (o t : Origin)
    → t.inbox ≡ update (λ r. (r.job == id) && (r.seq == seq)) (suppressed_at now) o.inbox
    → (k : JobId) (n : ℕ) → envelope_at t k n ≡ envelope_at o k n
unfolding inbox_row suppressed_at
marked_envelope id seq now o t e k n =
    let q =
      find-updated (λ r. (r.job == k) && (r.seq == n)) (λ r. (r.job == id) && (r.seq == seq))
        (suppressed_at now) o.inbox (λ r. refl) in
    elim (Option-cases (inbox_row o k n)) [
      | inl w ↦ ground (arith, e, q, w)
      | inr (r, w) ↦ ground (arith, e, q, w)
    ]

pub suppress_job_notice-Settles :
    (id : JobId) (seq : ℕ) (now : Time) (o t : Origin)
    → IsOrdered o
    → suppress_job_notice id seq now o ≡ ok (tt, t)
    → Settles id seq o t
unfolding suppress_job_notice sql_seq job_route_cursors route_row
suppress_job_notice-Settles id seq now o t ordered h =
    let (checked, h₁, e) = >>=-ok _ (sql_seq seq) h in
    let same : checked ≡ seq = ground arith in
    let (row, h₂, _) =
      >>=-ok _ (ok_or (inbox_row o id checked) (internal "Query returned no rows")) h₁ in
    let (_, h₃) =
      ensure-ok (is_blocked row.envelope.event.event) (queue (invariant not_a_notice)) _ h₂ in
    let marked : Origin = record o {
      inbox = update (λ r. (r.job == id) && (r.seq == checked)) (suppressed_at now) o.inbox;
    } in
    let views = marked_envelope id checked now o marked refl in
    let done =
      settle_job_event_inner-Settles id checked marked t
        (view-IsOrdered o marked ordered.unique (λ k. (refl, refl)) views ordered) h₃ in
    record {
      ordered = done.ordered;
      accepted = done.accepted;
      by_one = done.by_one;
      reached = rw (← same) done.reached;
      envelopes = λ k n. done.envelopes k n ∙ views k n;
      routes = done.routes;
    }

-- A resolved route keeps its cursors.
module _ (f : RouteRow → RouteRow) (id : JobId) (o : Origin)
    (keeps : (r : RouteRow) → (f r).id ≡ r.id)
    (same : (r : RouteRow) → (f r).cursors ≡ r.cursors) where
  pub set_route-cursors :
      (k : JobId)
      → (accepted_of (set_route f id o) k ≡ accepted_of o k)
        × (settled_of (set_route f id o) k ≡ settled_of o k)
  unfolding set_route
  set_route-cursors k =
      let e = job_route_cursors-update (λ r. r.id == id) f keeps o (set_route f id o) k refl in
      elim (Option-cases (route_row o k)) [
        | inl q ↦ ground (arith, e, ap (cursors_changed (λ r. r.id == id) f) q, cursors-none o k q)
        | inr (r, q) ↦
            ground
              (arith, e, ap (cursors_changed (λ r. r.id == id) f) q, cursors-row o k r q, same r)
      ]

  pub set_route-IsOrdered : IsOrdered o → IsOrdered (set_route f id o)
  unfolding set_route inbox_row
  set_route-IsOrdered ordered =
      view-IsOrdered o (set_route f id o)
        (update-Distinct (λ r. r.id == id) f o.routes keeps ordered.unique) set_route-cursors
        (λ k n. refl) ordered
