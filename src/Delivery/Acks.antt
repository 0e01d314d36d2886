-- ===== src/Delivery/Acks.antt =====
-- What an acknowledgement does to the outbox (src/store/queue/delivery.rs).
use homebased.Base.{
  ℕ, ◌+◌, ◌^◌, ◌≤◌, ◌<◌, ◌≡◌, refl, true, List, [], ◌∷◌, find, any_intro, find-In, map_or, arith,
  if◌then◌else◌, ◌==◌, leb, Bool-cases, Option-cases, inl, inr, ◌&&◌, ok, ==_refl,
}
use homebased.Ids.{JobId}
use homebased.Store.Types.{JobEvent}
use homebased.Delivery.Routes.{sql_seq}
use homebased.Delivery.Outbox.{
  AckRow, Outbox, acknowledged_of, upsert, has_event, acknowledge_job_event, stored_event,
}

find-upsert :
    (id : JobId) (seq : ℕ) (rs : List AckRow)
    → map_or (find (λ r. r.id == id) (upsert id seq rs)) 0 (λ r. r.seq) ≡ seq
unfolding upsert
find-upsert id seq [] = ground (arith, ==_refl id)
find-upsert id seq (r ∷ rs) = elim (Bool-cases (r.id == id)) [
  | inl e ↦ rw (e, e) refl
  | inr e ↦ rw (e, e) (find-upsert id seq rs)
]

-- An outbox that holds the events 1 to `n` of a job.
pub record Holds (b : Outbox) (id : JobId) (n : ℕ) (log : ℕ → JobEvent) : Type 0 where
  pub stored : (k : ℕ) → 0 < k → k ≤ n → stored_event b id k ≡ ok (log k)
  pub job : (k : ℕ) → 0 < k → k ≤ n → (log k).job ≡ id
  pub seq : (k : ℕ) → 0 < k → k ≤ n → (log k).seq ≡ k

pub stored-has_event :
    (b : Outbox) (id : JobId) (k : ℕ) (event : JobEvent)
    → stored_event b id k ≡ ok event
    → has_event b id k ≡ true
unfolding stored_event has_event
stored-has_event b id k event h =
    elim (Option-cases (find (λ e. (e.job == id) && (e.seq == k)) b.events)) [
      | inl e ↦ cc (rw e at h)
      | inr (a, e) ↦
          let (m, t) = find-In (λ e. (e.job == id) && (e.seq == k)) b.events e in
          any_intro (λ e. (e.job == id) && (e.seq == k)) a b.events m t
    ]

-- The outbox after an acknowledgement.
abbrev pub acked : JobId → ℕ → Outbox → Outbox
acked id seq b =
    if leb seq (acknowledged_of b id) then b else record b { acks = upsert id seq b.acks }

pub acknowledge_lem :
    (id : JobId) (seq : ℕ) (b : Outbox)
    → seq < 2 ^ 63
    → seq ≤ acknowledged_of b id + 1
    → has_event b id seq ≡ true
    → acknowledge_job_event id seq b ≡ ok (tt, acked id seq b)
unfolding acknowledge_job_event sql_seq
acknowledge_lem id seq b small next has = ground (arith, has)

pub acked-acknowledged_of :
    (id : JobId) (b : Outbox)
    → acknowledged_of (acked id (acknowledged_of b id + 1) b) id ≡ acknowledged_of b id + 1
unfolding acknowledged_of
acked-acknowledged_of id b = ground (arith, find-upsert id (acknowledged_of b id + 1) b.acks)

pub acked-Holds :
    (id : JobId) (seq : ℕ) (b : Outbox) (n : ℕ) (log : ℕ → JobEvent)
    → Holds b id n log
    → Holds (acked id seq b) id n log
unfolding stored_event
acked-Holds id seq b n log h = elim (Bool-cases (leb seq (acknowledged_of b id))) [
  | inl old ↦ rw old h
  | inr new ↦ rw new (record { stored = h.stored; job = h.job; seq = h.seq })
]
