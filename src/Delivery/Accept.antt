-- ===== src/Delivery/Accept.antt =====
-- What accepting an event does on each of its branches (src/store/queue/delivery.rs).
use homebased.Base.{
  ℕ, ◌+◌, ◌^◌, ◌≤◌, ◌<◌, ◌≡◌, refl, true, ◌∷◌, not, none, some, is_some, arith, ◌==◌, leb,
  Bool-cases, inl, inr, Result, ok, >>=-ok, ensure-ok, ok_or,
}
use homebased.Error.{AppError, queue, usage, internal, constraint, job_not_found, job_conflict}
use homebased.Store.Access.{update}
use homebased.Delivery.Types.{
  Digest, JobSpec, JobSubmission, JobRoute, RoutedJobEvent, EventAcceptance, acknowledged, expected,
  JobCursors, RouteRow, InboxRow, Origin, same_envelope, same_envelope_eq,
}
use homebased.Delivery.Routes.{sql_seq, route_row, job_route, job_route_cursors, set_route}
use homebased.Delivery.Inbox.{inbox_row, fits, repeated, advance, next_event, accept_job_event}
use homebased.Delivery.RouteLaws.{job_route-some}
use homebased.Delivery.Cursors.{accepted_of}

-- A row that is accepted: the new cursor, and the route, which is now known to be accepted.
abbrev pub accepted_row : JobRoute → ℕ → RouteRow → RouteRow
accepted_row route seq r = record r {
  route = record route { submission = JobSubmission.accepted };
  cursors = record { accepted = seq; settled = r.cursors.settled };
}

abbrev pub fresh_row : RoutedJobEvent → InboxRow
fresh_row envelope = record {
  job = envelope.event.job;
  seq = envelope.event.seq;
  envelope = envelope;
  suppressed = none;
}

-- A sequence that is accepted fits an `i64`.
pub sql_seq-ok : (seq k : ℕ) → sql_seq seq ≡ ok k → (k ≡ seq) × (seq < 2 ^ 63)
unfolding sql_seq
sql_seq-ok seq k h = ground arith

positive_test : (n : ℕ) → not (n == 0) ≡ true → 0 < n
positive_test n h = ground arith

module _ (envelope : RoutedJobEvent) (o : Origin) (answer : EventAcceptance) (t : Origin) where
  -- The three ways in which an event is answered.
  pub data Answered : Type 0 where
    again :
        (row : InboxRow)
        → envelope.event.seq ≤ accepted_of o envelope.event.job
        → inbox_row o envelope.event.job envelope.event.seq ≡ some row
        → row.envelope ≡ envelope
        → answer ≡ acknowledged envelope.event.seq
        → t ≡ o
        → Answered
    early :
        accepted_of o envelope.event.job + 1 < envelope.event.seq
        → answer ≡ expected (accepted_of o envelope.event.job + 1)
        → t ≡ o
        → Answered
    stored :
        (row : RouteRow)
        → route_row o envelope.event.job ≡ some row
        → envelope.event.seq ≡ accepted_of o envelope.event.job + 1
        → envelope.event.seq < 2 ^ 63
        → answer ≡ acknowledged envelope.event.seq
        → t.inbox ≡ fresh_row envelope ∷ o.inbox
        → t.routes
          ≡ update
              (λ r. r.id == envelope.event.job)
              (accepted_row row.route envelope.event.seq)
              o.routes
        → Answered

  repeated-Answered :
      envelope.event.seq ≤ accepted_of o envelope.event.job
      → repeated envelope o ≡ ok (answer, t)
      → Answered
  unfolding repeated
  repeated-Answered le h =
      let (row, h₁, e) =
        >>=-ok _
          (ok_or (inbox_row o envelope.event.job envelope.event.seq)
            (internal "Query returned no rows"))
          h in
      let (same, h₂) =
        ensure-ok (same_envelope row.envelope envelope) (queue (job_conflict envelope.event.job)) _
          h₁ in
      again row le (ground arith) (same_envelope_eq row.envelope envelope same) (ground arith)
        (ground arith)

  advance-Answered :
      (row : RouteRow) (c : JobCursors)
      → route_row o envelope.event.job ≡ some row
      → job_route_cursors o envelope.event.job ≡ some c
      → envelope.event.seq < 2 ^ 63
      → envelope.event.seq ≡ accepted_of o envelope.event.job + 1
      → advance row.route envelope c o ≡ ok (answer, t)
      → Answered
  unfolding advance set_route
  advance-Answered row c here e small next h =
      let (_, h₁) =
        ensure-ok (not (is_some (inbox_row o envelope.event.job envelope.event.seq))) constraint _
          h in
      let (_, h₂) = ensure-ok (leb c.settled envelope.event.seq) constraint _ h₁ in
      stored row here next small (ground arith) (ground arith) (ground arith)

  next_event-Answered :
      (row : RouteRow) (c : JobCursors)
      → route_row o envelope.event.job ≡ some row
      → job_route_cursors o envelope.event.job ≡ some c
      → envelope.event.seq < 2 ^ 63
      → next_event row.route envelope c o ≡ ok (answer, t)
      → Answered
  unfolding next_event
  next_event-Answered row c here e small h =
      let at : accepted_of o envelope.event.job ≡ c.accepted = rw e refl in
      elim (Bool-cases (leb envelope.event.seq c.accepted)) [
        | inl old ↦ repeated-Answered (ground arith) (rw old at h)
        | inr new ↦ elim (Bool-cases (envelope.event.seq == c.accepted + 1)) [
          | inl next ↦ advance-Answered row c here e small (ground arith) (rw (new, next) at h)
          | inr apart ↦
              let q : ◌≡◌ {A = Result (EventAcceptance × Origin) AppError}
                  (ok (expected (c.accepted + 1), o)) (ok (answer, t)) =
                rw (new, apart) at h in
              early (ground arith) (ground arith) (ground arith)
        ]
      ]

  -- What an event that is answered without an error has passed, and how it is answered.
  pub accept_job_event-Answered :
      (digest : JobSpec → Result Digest AppError)
      → accept_job_event digest envelope o ≡ ok (answer, t)
      → (row : RouteRow) × (route_row o envelope.event.job ≡ some row)
        × (fits row.route envelope ≡ true)
        × (0 < envelope.event.seq)
        × (envelope.event.seq < 2 ^ 63)
        × Answered
  unfolding accept_job_event sql_seq
  accept_job_event-Answered digest h =
      let (seq, h₁, e₁) = >>=-ok _ (sql_seq envelope.event.seq) h in
      let (found, h₂, e₂) = >>=-ok _ (job_route digest o envelope.event.job) h₁ in
      let (route, h₃, e₃) = >>=-ok _ (ok_or found (queue (job_not_found envelope.event.job))) h₂ in
      let (c, h₄, e₄) =
        >>=-ok _
          (ok_or (job_route_cursors o envelope.event.job)
            (queue (job_not_found envelope.event.job)))
          h₃ in
      let (fit, h₅) =
        ensure-ok (fits route envelope) (queue (job_conflict envelope.event.job)) _ h₄ in
      let (positive, h₆) =
        ensure-ok (not (envelope.event.seq == 0)) (usage "job sequence must be positive") _ h₅ in
      let (row, here, same, _) = job_route-some digest o envelope.event.job route (ground arith) in
      let h₇ : next_event row.route envelope c o ≡ ok (answer, t) = rw same h₆ in
      (
        row,
        here,
        rw same fit,
        positive_test envelope.event.seq positive,
        (sql_seq-ok envelope.event.seq seq e₁).1,
        next_event-Answered row c here (ground arith) (sql_seq-ok envelope.event.seq seq e₁).1 h₇,
      )
