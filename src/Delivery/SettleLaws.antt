-- ===== src/Delivery/SettleLaws.antt =====
-- Settling and suppressing events move one cursor by one step at a time
-- (src/store/queue/delivery.rs).
use homebased.Base.{
  ℕ, ◌+◌, ◌≤◌, ◌<◌, ◌≡◌, ◌≢◌, ◌↔◌, ◌⊎◌, ◌∙◌, ap, sym, subst, refl, true, any, any_elim, any-false,
  find-In, leb, find-Distinct, some, arith, ◌==◌, Bool-cases, Option-cases, inl, inr, err,
}
use homebased.Ids.{JobId}
use homebased.Error.{queue, invariant, settlement_gap}
use homebased.Store.Access.{update}
use homebased.Delivery.Types.{JobCursors, RouteRow, Origin}
use homebased.Delivery.Routes.{route_row, job_route_cursors}
use homebased.Delivery.Inbox.{settles, settle_job_event_inner}
use homebased.Delivery.Cursors.{accepted_of, settled_of, IsOrdered, route_row-id, row-cursors}
use homebased.Delivery.Updates.{
  cursors_changed, update-Distinct, job_route_cursors-update, inbox_row-same,
}

-- The row with its settled cursor moved.
abbrev pub settled_row : ℕ → RouteRow → RouteRow
settled_row seq r = record r { cursors = record { accepted = r.cursors.accepted; settled = seq } }

module _ (id : JobId) (seq : ℕ) (o t : Origin)
    (moved : t.routes ≡ update (settles id seq) (settled_row seq) o.routes)
    (kept : t.inbox ≡ o.inbox) where
  pub settled_accepted : (k : JobId) → accepted_of t k ≡ accepted_of o k
  unfolding job_route_cursors
  settled_accepted k =
      let e = job_route_cursors-update (settles id seq) (settled_row seq) (λ r. refl) o t k moved in
      elim (Option-cases (route_row o k)) [
        | inl q ↦ rw (job_route_cursors, e, q) refl
        | inr (r, q) ↦ ground (arith, e, ap (cursors_changed (settles id seq) (settled_row seq)) q)
      ]

  pub settled_settled :
      (k : JobId)
      → (settled_of t k ≡ settled_of o k)
        ⊎ ((settled_of t k ≡ seq) × (settled_of o k + 1 ≡ seq) × (seq ≤ accepted_of o k))
  unfolding job_route_cursors settles
  settled_settled k =
      let e = job_route_cursors-update (settles id seq) (settled_row seq) (λ r. refl) o t k moved in
      elim (Option-cases (route_row o k)) [
        | inl q ↦ inl (rw (job_route_cursors, e, q) refl)
        | inr (r, q) ↦ elim (Bool-cases (settles id seq r)) [
          | inl s ↦ inr (
            ground (arith, e, ap (cursors_changed (settles id seq) (settled_row seq)) q),
            ground (arith, q),
            ground (arith, q),
          )
          | inr s ↦
              inl (ground (arith, e, ap (cursors_changed (settles id seq) (settled_row seq)) q))
        ]
      ]

  pub settled_here :
      (row : RouteRow)
      → route_row o id ≡ some row
      → settles id seq row ≡ true
      → settled_of t id ≡ seq
  unfolding job_route_cursors
  settled_here row here s =
      let e =
        job_route_cursors-update (settles id seq) (settled_row seq) (λ r. refl) o t id moved in
      ground (arith, e, ap (cursors_changed (settles id seq) (settled_row seq)) here)

  pub settled-IsOrdered : IsOrdered o → IsOrdered t
  settled-IsOrdered ordered = record {
    unique =
        rw moved
          (update-Distinct (settles id seq) (settled_row seq) o.routes (λ r. refl) ordered.unique);
    bounded = λ k. ground (arith, settled_accepted k, settled_settled k, ordered.bounded k);
    small = λ k. ground (arith, settled_accepted k, ordered.small k);
    present = λ k n low high.
        rw (inbox_row-same o t k n kept)
          (ordered.present k n low (ground (arith, settled_accepted k)));
    counted = λ k n h.
        ground (arith, inbox_row-same o t k n kept, settled_accepted k, ordered.counted k n);
    labelled = λ k n row h. ground (arith, inbox_row-same o t k n kept, ordered.labelled k n row);
  }

-- With one row for each job, a row that an update lets through is the job's own.
pub settling_row :
    (o : Origin) (id : JobId) (seq : ℕ)
    → IsOrdered o
    → any (settles id seq) o.routes ≡ true
    → (row : RouteRow) × (route_row o id ≡ some row) × (settles id seq row ≡ true)
unfolding route_row settles
settling_row o id seq ordered some_row =
    let (a, m, e) = any_elim (settles id seq) o.routes some_row in
    let same : a.id ≡ id = ground arith in
    (
      a,
      subst (λ k. route_row o k ≡ some a) same
          (find-Distinct (λ r. r.id) a o.routes ordered.unique m),
      e,
    )

any-settles :
    (o : Origin) (id : JobId) (seq : ℕ) (row : RouteRow)
    → IsOrdered o
    → route_row o id ≡ some row
    → any (settles id seq) o.routes ≡ settles id seq row
unfolding route_row
any-settles o id seq row ordered here = elim (Bool-cases (any (settles id seq) o.routes)) [
  | inl some_row ↦
      let (a, found, e) = settling_row o id seq ordered some_row in
      let q : row ≡ a = cc in some_row ∙ (rw q (sym e))
  | inr no_row ↦
      no_row
      ∙ sym (
          any-false (settles id seq) row o.routes no_row
            (find-In (λ r. r.id == id) o.routes here).0)
]

-- A settlement fails, with the route there, exactly if it would leave a gap behind it or run ahead of
-- what was accepted.
pub settle_gap :
    (id : JobId) (seq : ℕ) (o : Origin) (c : JobCursors)
    → IsOrdered o
    → job_route_cursors o id ≡ some c
    → (settle_job_event_inner id seq o ≡ err (queue (invariant settlement_gap)))
      ↔ ((c.settled < seq) × ((seq ≢ c.settled + 1) ⊎ (c.accepted < seq)))
unfolding settle_job_event_inner settles
settle_gap id seq o c ordered e =
    let (row, here, same) = row-cursors o id c e in
    let mine = route_row-id o id row here in
    let q = any-settles o id seq row ordered here in
    elim (Bool-cases (c.settled + 1 == seq)) [
      | inl next ↦ elim (Bool-cases (leb seq c.accepted)) [
        | inl room ↦ (
          λ h. ground (arith, q, e),
          λ (lt, w). elim w [ inl n ↦ absurd (n (ground arith)) | inr l ↦ absurd (ground arith) ],
        )
        | inr full ↦ (λ h. (ground arith, inr (ground arith)), λ w. ground (arith, q, e))
      ]
      | inr apart ↦
          (λ h. (ground (arith, q, e), inl (λ n. ground arith)), λ w. ground (arith, q, e))
    ]
