-- ===== src/Delivery/RouteLaws.antt =====
-- Routes that are inserted and resolved (src/store/queue/delivery.rs): what is saved, what is refused, and
-- that the cursors stay.
use homebased.Base.{
  ◌≡◌, subst, refl, false, not, any, any_elim, ==_iff, ◌||◌, find-none, Option, none, some, arith,
  ◌==◌, ◌∷◌, Bool-cases, Option-cases, inl, inr, Result, ok, >>=-ok, ensure-ok,
}
use homebased.Ids.{JobId}
use homebased.Error.{AppError, queue, corrupt, route_identity}
use homebased.Delivery.Types.{Digest, JobSpec, JobRoute, RouteRow, Origin}
use homebased.Delivery.Routes.{route_row, job_route_cursors, job_route, checked_route}
use homebased.Delivery.Inbox.{inbox_row}
use homebased.Delivery.Cursors.{accepted_of, settled_of, IsOrdered, cursors-none}
use homebased.Delivery.Updates.{view-IsOrdered}

module _ (digest : JobSpec → Result Digest AppError) where
  checked_route-ok :
      (id : JobId) (route r : JobRoute)
      → checked_route digest id route ≡ ok r
      → (r ≡ route) × (route.job ≡ id)
  unfolding checked_route
  checked_route-ok id route r h =
      elim (Bool-cases (not (route.job == id) || not (route.thread == route.spec.thread))) [
        | inl bad ↦ cc (rw bad at h)
        | inr good ↦
            let (expected, h₁, _) = >>=-ok _ (digest route.spec) (rw good at h) in
            let (_, h₂) =
              ensure-ok (route.digest == expected) (queue (corrupt (route_identity id))) _ h₁ in
            (ground arith, ground arith)
      ]

  pub job_route-none :
      (o : Origin) (id : JobId) → job_route digest o id ≡ ok none → route_row o id ≡ none
  unfolding job_route
  job_route-none o id h = elim (Option-cases (route_row o id)) [
    | inl e ↦ e
    | inr (row, e) ↦
        let (r, q, _) =
          >>=-ok {B = Option JobRoute} (λ r. ok (some r)) (checked_route digest id row.route)
            (rw (e, job_route) at h) in
        cc q
  ]

  pub job_route-some :
      (o : Origin) (id : JobId) (route : JobRoute)
      → job_route digest o id ≡ ok (some route)
      → (row : RouteRow) × (route_row o id ≡ some row) × (row.route ≡ route) × (route.job ≡ id)
  unfolding job_route
  job_route-some o id route h = elim (Option-cases (route_row o id)) [
    | inl e ↦ cc (rw (e, job_route) at h)
    | inr (row, e) ↦
        let (r, q, c) =
          >>=-ok {B = Option JobRoute} (λ r. ok (some r)) (checked_route digest id row.route)
            (rw (e, job_route) at h) in
        let (same, mine) = checked_route-ok id row.route r c in (row, e, cc, ground arith)
  ]

unfoldable pub new_route : JobRoute → Origin → Origin
new_route route o = record o {
  routes =
      record { id = route.job; route = route; cursors = record { accepted = 0; settled = 0 } }
      ∷ o.routes;
}

pub new_route-cursors :
    (route : JobRoute) (o : Origin)
    → route_row o route.job ≡ none
    → (k : JobId)
    → (accepted_of (new_route route o) k ≡ accepted_of o k)
      × (settled_of (new_route route o) k ≡ settled_of o k)
unfolding new_route route_row job_route_cursors
new_route-cursors route o absent k = elim (Bool-cases (route.job == k)) [
  | inl e ↦
      let q : route_row o k ≡ none =
        subst (λ (w : JobId). route_row o w ≡ none) ((==_iff route.job k).0 e) absent in
      ground (arith, e, cursors-none o k q)
  | inr e ↦ ground (arith, e)
]

pub new_route-IsOrdered :
    (route : JobRoute) (o : Origin)
    → route_row o route.job ≡ none
    → IsOrdered o
    → IsOrdered (new_route route o)
unfolding new_route inbox_row route_row job_route_cursors
new_route-IsOrdered route o absent ordered =
    view-IsOrdered o (new_route route o) (none_named, ordered.unique)
      (new_route-cursors route o absent) (λ k n. refl) ordered
  where
    none_named : any (λ r. r.id == route.job) o.routes ≡ false
    none_named = elim (Bool-cases (any (λ r. r.id == route.job) o.routes)) [
      | inl t ↦
          let (a, m, e) = any_elim (λ r. r.id == route.job) o.routes t in
          cc (find-none (λ r. r.id == route.job) a o.routes absent m, e)
      | inr f ↦ f
    ]
