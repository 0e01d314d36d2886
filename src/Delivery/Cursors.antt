-- ===== src/Delivery/Cursors.antt =====
-- What is kept of an origin's tables: the cursors of each job, and which events its inbox holds.
use homebased.Base.{
  ℕ, ◌^◌, ◌≤◌, ◌<◌, ◌≡◌, refl, true, [], map_or, none, some, is_some, arith, ◌==◌, Option-cases,
  find-In, Distinct, inl, inr,
}
use homebased.Ids.{JobId}
use homebased.Delivery.Types.{JobCursors, RouteRow, InboxRow, Origin}
use homebased.Delivery.Routes.{route_row, job_route_cursors}
use homebased.Delivery.Inbox.{inbox_row}

-- The cursors of a job; one without a route has none.
abbrev pub accepted_of : Origin → JobId → ℕ
accepted_of o id = map_or (job_route_cursors o id) 0 (λ c. c.accepted)

abbrev pub settled_of : Origin → JobId → ℕ
settled_of o id = map_or (job_route_cursors o id) 0 (λ c. c.settled)

-- A job's inbox holds exactly the events 1 to its accepted cursor, each under its own number, and
-- never fewer than are settled, and the cursors fit an `i64`.
pub record IsOrdered (o : Origin) : Type 0 where
  pub unique : Distinct (λ r. r.id) o.routes
  pub bounded : (id : JobId) → settled_of o id ≤ accepted_of o id
  pub small : (id : JobId) → accepted_of o id < 2 ^ 63
  pub present :
      (id : JobId) (k : ℕ) → 0 < k → k ≤ accepted_of o id → is_some (inbox_row o id k) ≡ true
  pub counted :
      (id : JobId) (k : ℕ) → is_some (inbox_row o id k) ≡ true → (0 < k) × (k ≤ accepted_of o id)
  pub labelled :
      (id : JobId) (k : ℕ) (row : InboxRow)
      → inbox_row o id k ≡ some row
      → (row.envelope.event.job ≡ id) × (row.envelope.event.seq ≡ k)

-- The cursors that a route's row shows.
pub cursors-row :
    (o : Origin) (id : JobId) (row : RouteRow)
    → route_row o id ≡ some row
    → job_route_cursors o id ≡ some row.cursors
unfolding job_route_cursors
cursors-row o id row e = rw (e, job_route_cursors) refl

pub cursors-none : (o : Origin) (id : JobId) → route_row o id ≡ none → job_route_cursors o id ≡ none
unfolding job_route_cursors
cursors-none o id e = rw (e, job_route_cursors) refl

pub route_row-id :
    (o : Origin) (id : JobId) (row : RouteRow) → route_row o id ≡ some row → (row.id == id) ≡ true
unfolding route_row
route_row-id o id row e = (find-In (λ r. r.id == id) o.routes e).1

-- The row behind a job's cursors.
pub row-cursors :
    (o : Origin) (id : JobId) (c : JobCursors)
    → job_route_cursors o id ≡ some c
    → (row : RouteRow) × (route_row o id ≡ some row) × (row.cursors ≡ c)
unfolding job_route_cursors
row-cursors o id c h = elim (Option-cases (route_row o id)) [
  | inl e ↦ cc (rw (e, job_route_cursors) at h)
  | inr (row, e) ↦ (
    row,
    e,
    (let q : some row.cursors ≡ some c = (rw (e, job_route_cursors) at h) in ground arith),
  )
]

pub empty-IsOrdered : IsOrdered (record { routes = []; inbox = [] })
unfolding job_route_cursors route_row inbox_row
empty-IsOrdered = record {
  unique = tt;
  bounded = λ id. ground arith;
  small = λ id. ground arith;
  present = λ id k a b. ground arith;
  counted = λ id k h. cc h;
  labelled = λ id k row h. cc h;
}
