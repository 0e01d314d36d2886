-- ===== src/Delivery/Worker.antt =====
-- The worker of src/daemon/event_sender/jobs.rs brings an origin up to date within its rounds.
use homebased.Base.{
  ℕ, zero, suc, ◌+◌, ◌^◌, ◌≤◌, ◌<◌, ◌≡◌, ◌∙◌, sym, subst, refl, true, List, [], ◌∷◌, arith, ◌==◌,
  leb, ltb, Bool-cases, inl, inr, Result, ok, leb→le, ==_refl,
}
use homebased.Ids.{JobId}
use homebased.Error.{AppError}
use homebased.Store.Access.{immediate}
use homebased.Store.Types.{JobEvent}
use homebased.Delivery.Types.{
  Digest, JobSpec, RoutedJobEvent, EventAcceptance, acknowledged, expected, Origin,
}
use homebased.Delivery.Inbox.{accept_job_event}
use homebased.Delivery.Cursors.{accepted_of}
use homebased.Delivery.Offers.{
  entry, Ready, offer-again, offer-early, offer_next, advanced, advanced-Ready,
}
use homebased.Delivery.Outbox.{
  Outbox, acknowledged_of, acknowledge_job_event, Done, continue, recorded, answered, deliver,
  deliver_authority,
}
use homebased.Delivery.Acks.{Holds, stored-has_event, acked, acknowledge_lem, acked-acknowledged_of}

module _ (digest : JobSpec → Result Digest AppError) (log : ℕ → JobEvent)
    (envelope : RoutedJobEvent) (id : JobId) (original : ℕ) (small : original < 2 ^ 63) where
  -- What the origin is after an event is acknowledged.
  abbrev Taken : ℕ → Origin → JobId → Type 0
  Taken k o j =
      (t : Origin) × (accept_job_event digest (entry envelope (log k)) o ≡ ok (acknowledged k, t))
      × Ready digest log envelope j t
      × (k ≤ accepted_of t j)

  offer_own :
      (k : ℕ) (o : Origin)
      → (log k).seq ≡ k
      → 0 < k
      → k < 2 ^ 63
      → Ready digest log envelope (log k).job o
      → k ≤ accepted_of o (log k).job + 1
      → Taken k o (log k).job
  offer_own k o seq low fits_k ready next = elim (Bool-cases (leb k (accepted_of o (log k).job))) [
    | inl old ↦
        let le : k ≤ accepted_of o (log k).job = leb→le k (accepted_of o (log k).job) old in
        (o, offer-again digest log envelope o k low fits_k seq ready le, ready, le)
    | inr new ↦
        let last : k ≡ accepted_of o (log k).job + 1 = ground arith in
        let (after, moved) = advanced-Ready digest log envelope o k low fits_k seq ready last in
        (
          advanced digest log envelope o k low fits_k seq ready,
          offer_next digest log envelope o k low fits_k seq ready last,
          after,
          rw moved le_self,
        )
  ]
    where
      le_self : k ≤ k
      le_self = omega arith

  -- An event up to the one after the last accepted is acknowledged.
  offer_lem :
      (k : ℕ) (o : Origin)
      → (log k).job ≡ id
      → (log k).seq ≡ k
      → 0 < k
      → k ≤ original
      → Ready digest log envelope id o
      → k ≤ accepted_of o id + 1
      → Taken k o id
  offer_lem k o job seq low high =
      subst (λ (j : JobId). Ready digest log envelope j o → k ≤ accepted_of o j + 1 → Taken k o j)
        job (offer_own k o seq low (omega arith))

  accepts :
      (e : RoutedJobEvent) (o t : Origin) (answer : EventAcceptance)
      → accept_job_event digest e o ≡ ok (answer, t)
      → immediate (accept_job_event digest e) o ≡ (ok answer, t)
  unfolding immediate
  accepts e o t answer h = rw (immediate, h) refl

  acknowledges :
      (k : ℕ) (b c : Outbox)
      → acknowledge_job_event id k b ≡ ok (tt, c)
      → immediate (acknowledge_job_event id k) b ≡ (ok tt, c)
  unfolding immediate
  acknowledges k b c h = rw (immediate, h) refl

  abbrev pub Delivered : Done → Type 0
  Delivered d =
      (d.0 ≡ ok tt)
      × (acknowledged_of d.1.outbox id ≡ original)
      × (original ≤ accepted_of d.1.origin id)
      × Ready digest log envelope id d.1.origin

  catch_up :
      (rounds k : ℕ) (requested : List ℕ) (b : Outbox) (o : Origin)
      → Ready digest log envelope id o
      → Holds b id original log
      → acknowledged_of b id + 1 ≡ original
      → 0 < k
      → k ≤ original
      → k ≤ accepted_of o id + 1
      → original < k + rounds
      → Delivered (
          deliver digest original rounds requested
            (entry envelope (log k))
            (record { outbox = b; origin = o }))
  unfolding deliver continue
  catch_up zero k requested b o ready holds due low high next enough = absurd (omega arith)
  catch_up (suc rounds) k requested b o ready holds due low high next enough =
      let job = holds.job k low high in
      let seq = holds.seq k low high in
      let (t, offered, after, reached) = offer_lem k o job seq low high ready next in
      let acks = acknowledges k b (acked id k b) (
        acknowledge_lem id k b (omega arith) (omega arith)
          (stored-has_event b id k (log k) (holds.stored k low high))) in
      let taken = accepts (entry envelope (log k)) o t (acknowledged k) offered in
      elim (Bool-cases (k == original)) [
        | inl last ↦
            let e : k ≡ acknowledged_of b id + 1 = ground arith in
            rw (taken, answered, seq, ==_refl k, job, acks, recorded, last)
              (refl, (rw e (acked-acknowledged_of id b)) ∙ due, ground arith, after)
        | inr more ↦
            let old : leb k (acknowledged_of b id) ≡ true = ground arith in
            let same : acked id k b ≡ b = rw old refl in
            let stored = holds.stored (k + 1) (omega arith) (ground arith) in
            rw
              (
                taken,
                answered,
                seq,
                ==_refl k,
                job,
                acks,
                recorded,
                more,
                job,
                same,
                stored,
                continue,
              )
              (catch_up rounds (k + 1) requested b t after holds due (omega arith) (ground arith)
                (omega arith) (omega arith))
      ]

  -- An origin that lacks more than the offered event asks for the first that it lacks.
  offer_far :
      (o : Origin)
      → (log original).seq ≡ original
      → (log original).job ≡ id
      → Ready digest log envelope id o
      → accepted_of o id + 1 < original
      → accept_job_event digest (entry envelope (log original)) o
        ≡ ok (expected (accepted_of o id + 1), o)
  offer_far o seq job =
      subst
        (λ (j : JobId).
          Ready digest log envelope j o
          → accepted_of o j + 1 < original
          → accept_job_event digest (entry envelope (log original)) o
            ≡ ok (expected (accepted_of o j + 1), o))
        job
        (λ ready far. offer-early digest log envelope o original (omega arith) small seq ready far)

  far_off :
      (rounds : ℕ) (b : Outbox) (o : Origin)
      → Ready digest log envelope id o
      → Holds b id original log
      → acknowledged_of b id + 1 ≡ original
      → accepted_of o id + 1 < original
      → original ≤ accepted_of o id + rounds
      → Delivered (
          deliver digest original
            (suc rounds)
            []
            (entry envelope (log original))
            (record { outbox = b; origin = o }))
  unfolding deliver continue
  far_off rounds b o ready holds due far gap =
      let low : 0 < original = omega arith in
      let job = holds.job original low (omega arith) in
      let seq = holds.seq original low (omega arith) in
      let first : ℕ = accepted_of o id + 1 in
      let taken =
        accepts (entry envelope (log original)) o o (expected first)
          (offer_far o seq job ready far) in
      let positive : ltb 0 first ≡ true = ground arith in
      let earlier : leb first original ≡ true = ground arith in
      let stored = holds.stored first (omega arith) (omega arith) in
      rw (taken, answered, positive, seq, earlier, job, stored, continue)
        (catch_up rounds first (first ∷ []) b o ready holds due (omega arith) (omega arith)
          (omega arith) (omega arith))

  -- Event `original`, the first that its origin has not acknowledged, is delivered in one call of the
  -- worker, as long as the origin lacks at most 31 of the job's events: the worker does not run out of
  -- its 32 rounds, the outbox then counts `original` as acknowledged, and the origin, whose inbox agrees
  -- with the outbox before and after, has accepted every event up to it.
  pub deliver_authority-Delivered :
      (b : Outbox) (o : Origin)
      → Ready digest log envelope id o
      → Holds b id original log
      → acknowledged_of b id + 1 ≡ original
      → original ≤ accepted_of o id + 31
      → Delivered (
          deliver_authority digest
            (entry envelope (log original))
            (record { outbox = b; origin = o }))
  unfolding deliver_authority
  deliver_authority-Delivered b o ready holds due gap =
      let low : 0 < original = omega arith in
      subst
        (λ (s : ℕ). Delivered (
          deliver digest s 32 [] (entry envelope (log original))
            (record { outbox = b; origin = o })))
        (sym (holds.seq original low (omega arith)))
        (elim (Bool-cases (leb original (accepted_of o id + 1))) [
          | inl near ↦
              catch_up 32 original [] b o ready holds due low (omega arith)
                (leb→le original (accepted_of o id + 1) near) (omega arith)
          | inr far ↦ far_off 31 b o ready holds due (ground arith) (ground arith)
        ])
