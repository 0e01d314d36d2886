-- ===== src/Delivery/Routes.antt =====
-- The routes of an origin (src/store/queue/delivery.rs): where each job's events go, and the cursors
-- of its inbox.
use homebased.Base.{
  ℕ, ◌^◌, suc, Bool, true, false, not, ◌&&◌, ◌||◌, find, Option, none, some, is_some, Result, ok,
  err, ◌>>=◌, ◌>>◌, ensure, ok_or, if◌then◌else◌, leb, ◌==◌, ◌∷◌,
}
use homebased.Ids.{JobId}
use homebased.Error.{
  AppError, usage, queue, invariant, corrupt, job_not_found, job_conflict, invalid_route,
  route_identity,
}
use homebased.Queue.Job.{Target}
use homebased.Store.Access.{update}
use homebased.Delivery.Types.{
  Digest, JobSpec, JobSubmission, unknown, accepted, rejected, JobRoute, JobCursors, RouteRow,
  Origin, same_submission, same_target,
}

-- `sql_seq`: a sequence has to fit an `i64`.
unfoldable pub sql_seq : ℕ → Result ℕ AppError
sql_seq seq =
    if leb (suc seq) (2 ^ 63) then ok seq else err (usage "job event sequence is too large")

unfoldable pub route_row : Origin → JobId → Option RouteRow
route_row o id = find (λ r. r.id == id) o.routes

unfoldable pub is_unknown : JobSubmission → Bool
is_unknown unknown = true
is_unknown accepted = false
is_unknown (rejected _ _) = false

unfoldable pub is_accepted : JobSubmission → Bool
is_accepted accepted = true
is_accepted unknown = false
is_accepted (rejected _ _) = false

unfoldable pub is_rejected : JobSubmission → Bool
is_rejected (rejected _ _) = true
is_rejected unknown = false
is_rejected accepted = false

unfoldable pub job_route_cursors : Origin → JobId → Option JobCursors
unfolding route_row
job_route_cursors o id = elim (route_row o id) [ none ↦ none | some row ↦ some row.cursors ]

-- `UPDATE resource_job_routes SET … WHERE job_id = …`.
unfoldable pub set_route : (RouteRow → RouteRow) → JobId → Origin → Origin
unfolding update
set_route f id o = record o { routes = update (λ r. r.id == id) f o.routes }

unfoldable pub saved_or_new :
    JobRoute → Option JobRoute → Origin → Result (JobRoute × Origin) AppError
saved_or_new route (some saved) o =
    if not (saved.digest == route.digest)
      || not (saved.authority == route.authority)
      || not (saved.origin == route.origin)
      || not (saved.thread == route.thread)
    then err (queue (job_conflict route.job))
    else ok (saved, o)
saved_or_new route none o = ok (
  route,
  record o {
    routes =
        record { id = route.job; route = route; cursors = record { accepted = 0; settled = 0 } }
        ∷ o.routes;
  },
)

-- The refusals of `resolve_job_route`, in its order.
unfoldable pub regresses : JobRoute → JobSubmission → Option Target → Bool
unfolding is_accepted is_rejected same_submission same_target
regresses route submission target =
    (is_accepted route.submission && not (is_accepted submission))
    || ((is_rejected route.submission && not (same_submission route.submission submission))
        || (is_some route.target && (is_some target && not (same_target route.target target))))

-- `spec.digest()`, SHA-256 over canonical JSON, is a parameter.
module _ (digest : JobSpec → Result Digest AppError) where
  unfoldable pub checked_route : JobId → JobRoute → Result JobRoute AppError
  checked_route id route =
      if not (route.job == id) || not (route.thread == route.spec.thread)
      then err (queue (corrupt (route_identity id)))
      else do
        expected ← digest route.spec
        ensure (route.digest == expected) (queue (corrupt (route_identity id)))
        ok route

  unfoldable pub job_route : Origin → JobId → Result (Option JobRoute) AppError
  unfolding route_row checked_route
  job_route o id = elim (route_row o id) [
    | none ↦ ok none
    | some row ↦ checked_route id row.route >>= λ route. ok (some route)
  ]

  unfoldable pub insert_job_route : JobRoute → Origin → Result (JobRoute × Origin) AppError
  unfolding job_route saved_or_new is_unknown
  insert_job_route route o =
      if not (route.thread == route.spec.thread) then err (queue (invariant invalid_route)) else do
        expected ← digest route.spec
        ensure
            ((route.digest == expected)
              && (is_unknown route.submission && not (is_some route.target)))
            (queue (invariant invalid_route))
        saved ← job_route o route.job
        saved_or_new route saved o

  unfoldable pub resolve_job_route :
      JobId → JobSubmission → Option Target → Origin → Result (Unit {0} × Origin) AppError
  unfolding job_route regresses set_route
  resolve_job_route id submission target o = do
    found ← job_route o id
    route ← ok_or found (queue (job_not_found id))
    ensure (not (regresses route submission target)) (queue (job_conflict id))
    let t = if is_some target then target else route.target
    let resolved : JobRoute = record route { submission = submission; target = t }
    ok (tt, set_route (λ r. record r { route = resolved }) id o)
