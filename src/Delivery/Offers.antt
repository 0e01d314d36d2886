-- ===== src/Delivery/Offers.antt =====
-- How an origin answers the events of a log that its inbox is a part of (src/store/queue/delivery.rs).
use homebased.Base.{
  ℕ, ◌+◌, ◌^◌, ◌≤◌, ◌<◌, ◌≡◌, ◌∙◌, sym, ap, refl, true, false, not, ◌∷◌, none, some, arith, ◌==◌,
  leb, Bool-cases, Option-cases, inl, inr, Result, ok, ==_iff, ==_refl,
}
use homebased.Ids.{JobId}
use homebased.Error.{AppError}
use homebased.Store.Types.{JobEvent}
use homebased.Delivery.Types.{
  Digest, JobSpec, RoutedJobEvent, acknowledged, expected, RouteRow, InboxRow, Origin,
}
use homebased.Delivery.Routes.{sql_seq, route_row, job_route, checked_route, set_route}
use homebased.Delivery.Inbox.{inbox_row, fits, advance, next_event, accept_job_event}
use homebased.Delivery.Cursors.{accepted_of, IsOrdered, cursors-row, route_row-id}
use homebased.Delivery.Updates.{envelope_at, inbox_row-added, route_row-update}
use homebased.Delivery.Accept.{accepted_row, fresh_row}
use homebased.Delivery.AcceptLaws.{stored_cursors, stored-IsOrdered}
use homebased.Delivery.Preserved.{some_eq}
use homebased.Delivery.Branches.{repeated_lem, advance_lem, checked_route-accepted}

-- The envelope of an event of a log, beside the identities that another envelope of the job has.
abbrev pub entry : RoutedJobEvent → JobEvent → RoutedJobEvent
entry envelope event = record envelope { event = event }

module _ (digest : JobSpec → Result Digest AppError) (log : ℕ → JobEvent)
    (envelope : RoutedJobEvent) where
  -- An origin that has the job's route, and whose inbox agrees with the log.
  pub record Ready (id : JobId) (o : Origin) : Type 0 where
    pub ordered : IsOrdered o
    pub row : RouteRow
    pub found : route_row o id ≡ some row
    pub sound : checked_route digest id row.route ≡ ok row.route
    pub fit : fits row.route envelope ≡ true
    pub prefix :
        (k : ℕ) (e : RoutedJobEvent) → envelope_at o id k ≡ some e → e ≡ entry envelope (log k)

  module _ (o : Origin) (seq : ℕ) (low : 0 < seq) (small : seq < 2 ^ 63)
      (mine : (log seq).seq ≡ seq) (ready : Ready (log seq).job o) where
    routed : job_route digest o (log seq).job ≡ ok (some ready.row.route)
    unfolding job_route
    routed = rw (job_route, ready.found, ready.sound) refl

    checked : sql_seq (log seq).seq ≡ ok (log seq).seq
    unfolding sql_seq
    checked = ground arith

    fitting : fits ready.row.route (entry envelope (log seq)) ≡ true
    unfolding fits
    fitting = ready.fit

    reaches :
        accept_job_event digest (entry envelope (log seq)) o
        ≡ next_event ready.row.route (entry envelope (log seq)) ready.row.cursors o
    unfolding accept_job_event
    reaches =
        let positive : not ((log seq).seq == 0) ≡ true = ground arith in
        rw (checked, routed, cursors-row o (log seq).job ready.row ready.found, fitting, positive)
          refl

    accepted_here : accepted_of o (log seq).job ≡ ready.row.cursors.accepted
    accepted_here = rw (cursors-row o (log seq).job ready.row ready.found) refl

    held :
        seq ≤ accepted_of o (log seq).job
        → (row : InboxRow) × (inbox_row o (log seq).job (log seq).seq ≡ some row)
    held le =
        let there = ready.ordered.present (log seq).job (log seq).seq (rw mine low) (rw mine le) in
        elim (Option-cases (inbox_row o (log seq).job (log seq).seq)) [
          | inl e ↦ cc (rw e at there)
          | inr found ↦ found
        ]

    -- An event that the inbox has is acknowledged again.
    pub offer-again :
        seq ≤ accepted_of o (log seq).job
        → accept_job_event digest (entry envelope (log seq)) o ≡ ok (acknowledged seq, o)
    unfolding next_event
    offer-again le =
        let old : leb (log seq).seq ready.row.cursors.accepted ≡ true =
          ground (arith, accepted_here) in
        let (row, here) = held le in
        let same : row.envelope ≡ entry envelope (log seq) =
          ready.prefix (log seq).seq row.envelope (rw (envelope_at, here) refl)
          ∙ ap (λ (k : ℕ). entry envelope (log k)) mine in
        reaches
        ∙ (rw old (repeated_lem (entry envelope (log seq)) o row here same))
        ∙ ap (λ (k : ℕ). ok (acknowledged k, o)) mine

    -- One that comes too early is answered by what is expected.
    pub offer-early :
        accepted_of o (log seq).job + 1 < seq
        → accept_job_event digest (entry envelope (log seq)) o
          ≡ ok (expected (accepted_of o (log seq).job + 1), o)
    unfolding next_event
    offer-early lt = reaches ∙ (ground (arith, accepted_here))

    unfoldable pub advanced : Origin
    advanced =
        set_route (accepted_row ready.row.route (log seq).seq) (log seq).job
          (record o { inbox = fresh_row (entry envelope (log seq)) ∷ o.inbox })

    pub offer_next :
        seq ≡ accepted_of o (log seq).job + 1
        → accept_job_event digest (entry envelope (log seq)) o ≡ ok (acknowledged seq, advanced)
    unfolding next_event advance advanced
    offer_next e =
        let new : leb (log seq).seq ready.row.cursors.accepted ≡ false =
          ground (arith, accepted_here) in
        let next : ((log seq).seq == ready.row.cursors.accepted + 1) ≡ true =
          ground (arith, accepted_here) in
        let absent : inbox_row o (log seq).job (log seq).seq ≡ none =
          elim (Option-cases (inbox_row o (log seq).job (log seq).seq)) [
            | inl q ↦ q
            | inr (row, q) ↦
                absurd
                  (ground (arith, ready.ordered.counted (log seq).job (log seq).seq (rw q refl)))
          ] in
        let le : ready.row.cursors.settled ≤ (log seq).seq = ground (
          arith,
          ready.ordered.bounded (log seq).job,
          cursors-row o (log seq).job ready.row ready.found,
        ) in
        reaches
        ∙ (rw (new, next)
            (advance_lem ready.row.route (entry envelope (log seq)) ready.row o absent le))
        ∙ ap (λ (k : ℕ). ok (acknowledged k, advanced)) mine

    -- An origin that stored the next event of the log still agrees with the log.
    pub advanced-Ready :
        seq ≡ accepted_of o (log seq).job + 1
        → Ready (log seq).job advanced × (accepted_of advanced (log seq).job ≡ seq)
    unfolding advanced set_route fits
    advanced-Ready e =
        let env = entry envelope (log seq) in
        let route = ready.row.route in
        let cursors =
          stored_cursors env o advanced route refl refl ready.row ready.found (log seq).job in
        (
          record {
            ordered =
                stored-IsOrdered env o advanced route refl refl ready.row ready.found (mine ∙ e)
                  (rw mine small) ready.ordered;
            row = accepted_row route (log seq).seq ready.row;
            found =
                route_row-update (λ r. r.id == (log seq).job) (accepted_row route (log seq).seq)
                  (λ r. refl) o advanced (log seq).job refl
                ∙ (rw ready.found (rw (route_row-id o (log seq).job ready.row ready.found) refl));
            sound = checked_route-accepted digest (log seq).job route ready.sound;
            fit = ground (arith, ready.fit);
            prefix = λ k e' h.
                let added = inbox_row-added (fresh_row env) o advanced (log seq).job k refl in
                elim (Bool-cases ((log seq).seq == k)) [
                  | inl now ↦
                      let q : some env ≡ some e' =
                        rw (envelope_at, added, ==_refl (log seq).job, now) at h in
                      sym (some_eq q)
                      ∙ ap (λ (j : ℕ). entry envelope (log j))
                          (sym mine ∙ (==_iff (log seq).seq k).0 now)
                  | inr old ↦
                      ready.prefix k e' (rw (envelope_at, added, ==_refl (log seq).job, old) at h)
                ];
          },
          cursors.1 ∙ (rw (==_refl (log seq).job) mine),
        )
