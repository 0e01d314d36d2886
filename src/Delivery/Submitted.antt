-- ===== src/Delivery/Submitted.antt =====
-- Inserting and resolving a route keep the inbox in order and take nothing back
-- (src/store/queue/delivery.rs).
use homebased.Base.{
  ◌≡◌, ◌∙◌, sym, refl, true, false, not, Option, none, some, is_some, arith, if◌then◌else◌, ◌==◌,
  ◌&&◌, Bool-cases, inl, inr, Result, ok, >>=-ok, ensure-ok, ok_or, ==_iff,
}
use homebased.Ids.{JobId}
use homebased.Error.{AppError, queue, invariant, job_not_found, job_conflict, invalid_route}
use homebased.Queue.Job.{Target}
use homebased.Delivery.Types.{
  Digest, JobSpec, JobSubmission, JobRoute, RouteRow, Origin, same_target, same_target_eq,
}
use homebased.Delivery.Routes.{
  route_row, insert_job_route, saved_or_new, resolve_job_route, job_route, regresses, set_route,
  is_unknown,
}
use homebased.Delivery.Inbox.{inbox_row}
use homebased.Delivery.Cursors.{IsOrdered, route_row-id}
use homebased.Delivery.Kept.{set_route-IsOrdered, set_route-cursors}
use homebased.Delivery.RouteLaws.{
  new_route, new_route-IsOrdered, new_route-cursors, job_route-none, job_route-some,
}
use homebased.Delivery.Growth.{RouteKept, RouteKept-refl, RowKept, Grows, Grows-refl}
use homebased.Delivery.Preserved.{Good, routes-Grow, some_eq}

new_route_row :
    (route : JobRoute) (o : Origin) (id : JobId) (row : RouteRow)
    → route_row o route.job ≡ none
    → route_row o id ≡ some row
    → RowKept row.route (route_row (new_route route o) id)
unfolding new_route route_row
new_route_row route o id row absent here = elim (Bool-cases (route.job == id)) [
  | inl e ↦ cc (absent, here, (==_iff route.job id).0 e)
  | inr e ↦ rw (e, here) (RouteKept-refl row.route)
]

abbrev resolved : JobSubmission → Option Target → JobRoute → JobRoute
resolved submission target route = record route {
  submission = submission;
  target = if is_some target then target else route.target;
}

abbrev resolved_row : JobSubmission → Option Target → JobRoute → RouteRow → RouteRow
resolved_row submission target route r = record r { route = resolved submission target route }

resolved-RouteKept :
    (submission : JobSubmission) (target : Option Target) (route : JobRoute)
    → regresses route submission target ≡ false
    → RouteKept route (resolved submission target route)
unfolding regresses
resolved-RouteKept submission target route fine = record {
  job = refl;
  origin = refl;
  authority = refl;
  thread = refl;
  callback = refl;
  spec = refl;
  digest = refl;
  target = λ known. elim (Bool-cases (is_some target)) [
    | inl given ↦
        let same : same_target route.target target ≡ true = ground arith in
        rw given (sym (same_target_eq route.target target same))
    | inr absent ↦ rw absent refl
  ];
  submission = λ before. ground arith;
}

resolved-Grows :
    (id : JobId) (submission : JobSubmission) (target : Option Target) (route : JobRoute)
    (o : Origin) (row : RouteRow)
    → route_row o id ≡ some row
    → row.route ≡ route
    → regresses route submission target ≡ false
    → Grows o (set_route (resolved_row submission target route) id o)
unfolding set_route inbox_row
resolved-Grows id submission target route o row here same fine =
    let f = resolved_row submission target route in
    let cursors = set_route-cursors f id o (λ r. refl) (λ r. refl) in
    record {
      routes =
          routes-Grow (λ r. r.id == id) f o (set_route f id o) (λ r. refl) refl
            (λ k r found mine.
              let mine' : (r.id == k) ≡ true = route_row-id o k r found in
              let at : k ≡ id = ground arith in
              let one : r ≡ row = some_eq (sym found ∙ (rw at here)) in
              rw (one, same) (resolved-RouteKept submission target route fine));
      accepted = λ k. ground (arith, cursors k);
      settled = λ k. ground (arith, cursors k);
      envelopes = λ k n envelope found. found;
    }

module _ (digest : JobSpec → Result Digest AppError) where
  saved_or_new-Good :
      (route r : JobRoute) (saved : Option JobRoute) (o t : Origin)
      → IsOrdered o
      → job_route digest o route.job ≡ ok saved
      → saved_or_new route saved o ≡ ok (r, t)
      → Good o t
  unfolding saved_or_new new_route inbox_row
  saved_or_new-Good route r (some saved) o t ordered e h =
      let same : t ≡ o = ground arith in rw same (ordered, Grows-refl o)
  saved_or_new-Good route r none o t ordered e h =
      let absent = job_route-none digest o route.job e in
      let same : t ≡ new_route route o = ground arith in
      rw same (
        new_route-IsOrdered route o absent ordered,
        record {
          routes = λ id row here. new_route_row route o id row absent here;
          accepted = λ id. ground (arith, new_route-cursors route o absent id);
          settled = λ id. ground (arith, new_route-cursors route o absent id);
          envelopes = λ id k envelope found. found;
        },
      )

  pub insert_job_route-Good :
      (route r : JobRoute) (o t : Origin)
      → IsOrdered o
      → insert_job_route digest route o ≡ ok (r, t)
      → Good o t
  unfolding insert_job_route
  insert_job_route-Good route r o t ordered h =
      elim (Bool-cases (not (route.thread == route.spec.thread))) [
        | inl bad ↦ cc (rw bad at h)
        | inr good ↦
            let (expected, h₁, _) = >>=-ok _ (digest route.spec) (rw good at h) in
            let (_, h₂) =
              ensure-ok
                ((route.digest == expected)
                  && (is_unknown route.submission && not (is_some route.target)))
                (queue (invariant invalid_route)) _ h₁ in
            let (saved, h₃, e) = >>=-ok _ (job_route digest o route.job) h₂ in
            saved_or_new-Good route r saved o t ordered e h₃
      ]

  pub resolve_job_route-Good :
      (id : JobId) (submission : JobSubmission) (target : Option Target) (o t : Origin)
      → IsOrdered o
      → resolve_job_route digest id submission target o ≡ ok (tt, t)
      → Good o t
  unfolding resolve_job_route
  resolve_job_route-Good id submission target o t ordered h =
      let (found, h₁, e₁) = >>=-ok _ (job_route digest o id) h in
      let (route, h₂, e₂) = >>=-ok _ (ok_or found (queue (job_not_found id))) h₁ in
      let (fine, h₃) =
        ensure-ok (not (regresses route submission target)) (queue (job_conflict id)) _ h₂ in
      let (row, here, same, _) = job_route-some digest o id route (ground arith) in
      let left : t ≡ set_route (resolved_row submission target route) id o = ground arith in
      rw left (
        set_route-IsOrdered (resolved_row submission target route) id o (λ r. refl) (λ r. refl)
            ordered,
        resolved-Grows id submission target route o row here same (ground arith),
      )
