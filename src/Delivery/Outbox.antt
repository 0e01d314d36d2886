-- ===== src/Delivery/Outbox.antt =====
-- The outbox of the machine that owns a queue (src/store/queue/delivery.rs), and the worker that offers
-- an event to its origin (src/daemon/event_sender/jobs.rs) where the origin answers each offer.
use homebased.Base.{
  ℕ, zero, suc, ◌+◌, Bool, true, false, not, ◌&&◌, ◌||◌, List, [], ◌∷◌, find, any, map_or, Result,
  ok, err, ◌>>=◌, ok_or, if◌then◌else◌, leb, ltb, ◌==◌,
}
use homebased.Ids.{JobId}
use homebased.Error.{AppError, usage, daemon_busy, no_event, queue, invariant, sequence_gap}
use homebased.Store.Types.{JobEvent}
use homebased.Store.Access.{immediate}
use homebased.Delivery.Types.{
  Digest, JobSpec, RoutedJobEvent, EventAcceptance, acknowledged, expected, Origin,
}
use homebased.Delivery.Routes.{sql_seq}
use homebased.Delivery.Inbox.{accept_job_event}

-- A row of `resource_job_delivery`.
pub record AckRow : Type 0 where
  pub id : JobId
  pub seq : ℕ

-- `resource_job_events`, and how far the origins acknowledged them.
pub record Outbox : Type 0 where
  pub events : List JobEvent
  pub acks : List AckRow

unfoldable pub acknowledged_of : Outbox → JobId → ℕ
acknowledged_of b id = map_or (find (λ r. r.id == id) b.acks) 0 (λ r. r.seq)

-- `INSERT … ON CONFLICT(job_id) DO UPDATE`.
unfoldable pub upsert : JobId → ℕ → List AckRow → List AckRow
upsert id seq [] = record { id = id; seq = seq } ∷ []
upsert id seq (r ∷ rs) =
    let rest = upsert id seq rs in if r.id == id then record r { seq = seq } ∷ rs else r ∷ rest

unfoldable pub has_event : Outbox → JobId → ℕ → Bool
has_event b id seq = any (λ e. (e.job == id) && (e.seq == seq)) b.events

unfoldable pub acknowledge_job_event : JobId → ℕ → Outbox → Result (Unit {0} × Outbox) AppError
unfolding sql_seq acknowledged_of upsert has_event
acknowledge_job_event id seq b = do
  checked ← sql_seq seq
  let previous = acknowledged_of b id
  if leb checked previous
      then ok (tt, b)
      else if not (checked == previous + 1) || not (has_event b id checked)
      then err (queue (invariant sequence_gap))
      else ok (tt, record b { acks = upsert id checked b.acks })

unfoldable pub stored_event : Outbox → JobId → ℕ → Result JobEvent AppError
stored_event b id seq =
    ok_or (find (λ e. (e.job == id) && (e.seq == seq)) b.events) (no_event id seq)

-- Both machines of one job's events, and what a worker leaves of them.
pub record Link : Type 0 where
  pub outbox : Outbox
  pub origin : Origin

abbrev pub Done : Type 0
Done = Result (Unit {0}) AppError × Link

abbrev differs : AppError
differs = usage "job event acknowledgement sequence differs"

unfoldable pub continue :
    (RoutedJobEvent → Link → Done) → RoutedJobEvent → Result JobEvent AppError → Link → Done
continue next envelope (err problem) l = (err problem, l)
continue next envelope (ok event) l = next (record envelope { event = event }) l

module _ (original : ℕ) where
  -- An acknowledged offer is recorded, and the worker goes on to the event after it.
  unfoldable pub recorded :
      (RoutedJobEvent → Link → Done)
      → RoutedJobEvent
      → ℕ
      → Origin
      → Result (Unit {0}) AppError × Outbox
      → Done
  recorded next envelope seq o (err problem, b) = (err problem, record { outbox = b; origin = o })
  recorded next envelope seq o (ok done, b) =
      let after : Link = record { outbox = b; origin = o } in
      elim (seq == original) [
        | true ↦ (ok tt, after)
        | false ↦ continue next envelope (stored_event b envelope.event.job (seq + 1)) after
      ]

  -- What the worker makes of an answer, with the sequences asked for so far.
  unfoldable pub answered :
      (List ℕ → RoutedJobEvent → Link → Done)
      → List ℕ
      → RoutedJobEvent
      → Outbox
      → Result EventAcceptance AppError × Origin
      → Done
  unfolding recorded
  answered next requested envelope b (err problem, o) =
      (err problem, record { outbox = b; origin = o })
  answered next requested envelope b (ok (acknowledged seq), o) = elim (seq == envelope.event.seq) [
    | true ↦
        recorded (next requested) envelope seq o
          (immediate (acknowledge_job_event envelope.event.job seq) b)
    | false ↦ (err differs, record { outbox = b; origin = o })
  ]
  answered next requested envelope b (ok (expected seq), o) =
      elim (ltb 0 seq && (leb seq envelope.event.seq && not (any (λ k. k == seq) requested))) [
        | true ↦
            continue (next (seq ∷ requested)) envelope (stored_event b envelope.event.job seq)
              (record { outbox = b; origin = o })
        | false ↦ (err differs, record { outbox = b; origin = o })
      ]

module _ (digest : JobSpec → Result Digest AppError) (original : ℕ) where
  -- The loop of `deliver_authority`, with the rounds left.
  unfoldable pub deliver : ℕ → List ℕ → RoutedJobEvent → Link → Done
  unfolding answered
  deliver zero requested envelope l = (err daemon_busy, l)
  deliver (suc rounds) requested envelope l =
      answered original (deliver rounds) requested envelope l.outbox
        (immediate (accept_job_event digest envelope) l.origin)

module _ (digest : JobSpec → Result Digest AppError) where
  unfoldable pub deliver_authority : RoutedJobEvent → Link → Done
  deliver_authority envelope l = deliver digest envelope.event.seq 32 [] envelope l
