-- ===== src/Delivery/Updates.antt =====
-- What an update of the routes, or another row of the inbox, does to the cursors and the inbox of a job.
use homebased.Base.{
  ℕ, ◌≡◌, ◌∙◌, refl, Bool, List, [], ◌∷◌, any, find, Option, none, some, arith, if◌then◌else◌, ◌==◌,
  ◌&&◌, Option-cases, Bool-cases, Distinct, inl, inr,
}
use homebased.Ids.{JobId}
use homebased.Store.Access.{update}
use homebased.Store.Updates.{changed, find-update}
use homebased.Delivery.Types.{JobCursors, RoutedJobEvent, RouteRow, InboxRow, Origin}
use homebased.Delivery.Routes.{route_row, job_route_cursors}
use homebased.Delivery.Inbox.{inbox_row}
use homebased.Delivery.Cursors.{accepted_of, settled_of, IsOrdered}

abbrev pub cursors_changed :
    (RouteRow → Bool) → (RouteRow → RouteRow) → Option RouteRow → Option JobCursors
cursors_changed p f none = none
cursors_changed p f (some r) = some (if p r then f r else r).cursors

any-update :
    (p : RouteRow → Bool) (f : RouteRow → RouteRow) (k : ℕ) (rs : List RouteRow)
    → ((r : RouteRow) → (f r).id ≡ r.id)
    → any (λ r. r.id == k) (update p f rs) ≡ any (λ r. r.id == k) rs
unfolding update
any-update p f k [] keeps = refl
any-update p f k (r ∷ rs) keeps = elim (Bool-cases (p r)) [
  | inl t ↦ rw (t, keeps r, any-update p f k rs keeps) refl
  | inr t ↦ rw (t, any-update p f k rs keeps) refl
]

pub update-Distinct :
    (p : RouteRow → Bool) (f : RouteRow → RouteRow) (rs : List RouteRow)
    → ((r : RouteRow) → (f r).id ≡ r.id)
    → Distinct (λ r. r.id) rs
    → Distinct (λ r. r.id) (update p f rs)
unfolding update
update-Distinct p f [] keeps d = tt
update-Distinct p f (r ∷ rs) keeps d = elim (Bool-cases (p r)) [
  | inl t ↦ rw (t, keeps r) (any-update p f r.id rs keeps ∙ d.0, update-Distinct p f rs keeps d.1)
  | inr t ↦ rw t (any-update p f r.id rs keeps ∙ d.0, update-Distinct p f rs keeps d.1)
]

module _ (p : RouteRow → Bool) (f : RouteRow → RouteRow) (keeps : (r : RouteRow) → (f r).id ≡ r.id)
    (o : Origin) where
  pub route_row-update :
      (t : Origin) (id : JobId)
      → t.routes ≡ update p f o.routes
      → route_row t id ≡ changed (λ r. r.id) p f (route_row o id)
  unfolding route_row
  route_row-update t id e = rw e (find-update (λ r. r.id) p f id o.routes keeps)

  pub job_route_cursors-update :
      (t : Origin) (id : JobId)
      → t.routes ≡ update p f o.routes
      → job_route_cursors t id ≡ cursors_changed p f (route_row o id)
  unfolding job_route_cursors
  job_route_cursors-update t id e = elim (Option-cases (route_row o id)) [
    | inl q ↦ rw (job_route_cursors, route_row-update t id e, q) refl
    | inr (r, q) ↦ rw (job_route_cursors, route_row-update t id e, q) refl
  ]

-- Another row of the inbox is found under its own job and number.
pub inbox_row-added :
    (row : InboxRow) (o t : Origin) (id : JobId) (k : ℕ)
    → t.inbox ≡ row ∷ o.inbox
    → inbox_row t id k ≡ (if (row.job == id) && (row.seq == k) then some row else inbox_row o id k)
unfolding inbox_row
inbox_row-added row o t id k e = rw e refl

pub inbox_row-same :
    (o t : Origin) (id : JobId) (k : ℕ) → t.inbox ≡ o.inbox → inbox_row t id k ≡ inbox_row o id k
unfolding inbox_row
inbox_row-same o t id k e = rw e refl

-- An update that a test of rows does not see.
pub find-updated :
    {A : Type 0} (test p : A → Bool) (f : A → A) (xs : List A)
    → ((x : A) → test (f x) ≡ test x)
    → find test (update p f xs)
      ≡ elim (find test xs) [ none ↦ none | some x ↦ some (if p x then f x else x) ]
unfolding update
find-updated test p f [] keeps = refl
find-updated test p f (x ∷ xs) keeps = elim (Bool-cases (p x)) [
  | inl t ↦ elim (Bool-cases (test x)) [
    | inl e ↦ rw (t, keeps x, e, t) refl
    | inr e ↦ rw (t, keeps x, e) (find-updated test p f xs keeps)
  ]
  | inr t ↦ elim (Bool-cases (test x)) [
    | inl e ↦ rw (t, e, t) refl
    | inr e ↦ rw (t, e) (find-updated test p f xs keeps)
  ]
]

-- The envelope under a number of a job's inbox.
abbrev pub envelope_at : Origin → JobId → ℕ → Option RoutedJobEvent
envelope_at o id k = elim (inbox_row o id k) [ none ↦ none | some row ↦ some row.envelope ]

-- The order of the inbox depends on the cursors and on the envelopes only.
pub view-IsOrdered :
    (o t : Origin)
    → Distinct (λ r. r.id) t.routes
    → ((id : JobId) → (accepted_of t id ≡ accepted_of o id) × (settled_of t id ≡ settled_of o id))
    → ((id : JobId) (k : ℕ) → envelope_at t id k ≡ envelope_at o id k)
    → IsOrdered o
    → IsOrdered t
view-IsOrdered o t unique cursors same ordered = record {
  unique = unique;
  bounded = λ id. ground (arith, cursors id, ordered.bounded id);
  small = λ id. ground (arith, cursors id, ordered.small id);
  present = λ id k low high. ground (arith, cursors id, same id k, ordered.present id k low);
  counted = λ id k h. ground (arith, cursors id, same id k, ordered.counted id k);
  labelled = λ id k row h. elim (Option-cases (inbox_row o id k)) [
    | inl e ↦ cc (same id k, h, e)
    | inr (old, e) ↦
        let q : row.envelope ≡ old.envelope = ground (arith, same id k, h, e) in
        rw q (ordered.labelled id k old e)
  ];
}
