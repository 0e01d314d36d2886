-- ===== src/Delivery/Growth.antt =====
-- What an origin never takes back: its routes, its cursors and the events that it has accepted.
use homebased.Base.{ℕ, ◌≤◌, ◌≡◌, ◌∙◌, refl, true, Option, none, some, is_some, arith}
use homebased.Ids.{JobId}
use homebased.Delivery.Types.{RoutedJobEvent, JobRoute, RouteRow, Origin}
use homebased.Delivery.Routes.{route_row, is_accepted}
use homebased.Delivery.Cursors.{accepted_of, settled_of}
use homebased.Delivery.Updates.{envelope_at}

-- A later version of a route: who owns it and what it carries is the same, an acceptance is kept, and
-- so is a target that is known.
pub record RouteKept (r q : JobRoute) : Type 0 where
  pub job : q.job ≡ r.job
  pub origin : q.origin ≡ r.origin
  pub authority : q.authority ≡ r.authority
  pub thread : q.thread ≡ r.thread
  pub callback : q.callback ≡ r.callback
  pub spec : q.spec ≡ r.spec
  pub digest : q.digest ≡ r.digest
  pub target : is_some r.target ≡ true → q.target ≡ r.target
  pub submission : is_accepted r.submission ≡ true → is_accepted q.submission ≡ true

abbrev pub RowKept : JobRoute → Option RouteRow → Type 0
RowKept r none = ⊥
RowKept r (some row) = RouteKept r row.route

-- A later version of an origin's tables.
pub record Grows (o t : Origin) : Type 0 where
  pub routes :
      (id : JobId) (row : RouteRow) → route_row o id ≡ some row → RowKept row.route (route_row t id)
  pub accepted : (id : JobId) → accepted_of o id ≤ accepted_of t id
  pub settled : (id : JobId) → settled_of o id ≤ settled_of t id
  pub envelopes :
      (id : JobId) (k : ℕ) (envelope : RoutedJobEvent)
      → envelope_at o id k ≡ some envelope
      → envelope_at t id k ≡ some envelope

pub RouteKept-refl : (r : JobRoute) → RouteKept r r
RouteKept-refl r = record {
  job = refl;
  origin = refl;
  authority = refl;
  thread = refl;
  callback = refl;
  spec = refl;
  digest = refl;
  target = λ h. refl;
  submission = λ h. h;
}

RouteKept-trans : (a b c : JobRoute) → RouteKept a b → RouteKept b c → RouteKept a c
RouteKept-trans a b c p q = record {
  job = q.job ∙ p.job;
  origin = q.origin ∙ p.origin;
  authority = q.authority ∙ p.authority;
  thread = q.thread ∙ p.thread;
  callback = q.callback ∙ p.callback;
  spec = q.spec ∙ p.spec;
  digest = q.digest ∙ p.digest;
  target = λ h. q.target (rw (p.target h) h) ∙ p.target h;
  submission = λ h. q.submission (p.submission h);
}

pub Grows-refl : (o : Origin) → Grows o o
Grows-refl o = record {
  routes = λ id row e. rw e (RouteKept-refl row.route);
  accepted = λ id. omega arith;
  settled = λ id. omega arith;
  envelopes = λ id k e h. h;
}

RowKept-trans :
    (r : JobRoute) (m n : Option RouteRow)
    → RowKept r m
    → ((row : RouteRow) → m ≡ some row → RowKept row.route n)
    → RowKept r n
RowKept-trans r none n p q = absurd p
RowKept-trans r (some row) none p q = absurd (q row refl)
RowKept-trans r (some row) (some last) p q = RouteKept-trans r row.route last.route p (q row refl)

pub Grows-trans : (o p q : Origin) → Grows o p → Grows p q → Grows o q
Grows-trans o p q a b = record {
  routes = λ id row e.
      RowKept-trans row.route (route_row p id) (route_row q id) (a.routes id row e) (b.routes id);
  accepted = λ id. ground (arith, a.accepted id, b.accepted id);
  settled = λ id. ground (arith, a.settled id, b.settled id);
  envelopes = λ id k e h. b.envelopes id k e (a.envelopes id k e h);
}
