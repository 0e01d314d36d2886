-- ===== src/Store/Ledgers.antt =====
-- Sequences of a person's operations on a queue, and what a replay gets after them
-- (src/store/queue/jobs.rs).
use homebased.Base.{
  ℕ, ◌≡◌, ◌==◌, ◌&&◌, and_true, true, false, if◌then◌else◌, refl, sym, ap, subst, ◌∙◌, find,
  find-In, find-Distinct, Distinct, map_or, none, some, Option-cases, inl, inr, Result, ok, err,
  >>=-ok, ok_or, arith, ==_iff,
}
use homebased.Ids.{MachineId, JobId, OperationId, ResourceId, AttentionId, Time}
use homebased.Error.{AppError, queue, operation_conflict, attention_not_found}
use homebased.Queue.Placement.{Placement}
use homebased.Queue.Run.{
  ActiveRun, RunPhase, attention, holds_job, launching, executing, stopping, cleaning,
}
use homebased.Store.Types.{ResourceRecord, Tables, Tx}
use homebased.Store.Access.{clear_run, set_run}
use homebased.Store.Updates.{at_resource, put, put_here, put_elsewhere}
use homebased.Store.Preserved.{Holds-unique}
use homebased.Store.Invariant.{Holds}
use homebased.Store.Turnover.{RunsAgree-cleared}
use homebased.Store.Steps.{Agrees, ok_or-ok}
use homebased.Store.Move.{MoveResult, apply_move}
use homebased.Store.Cancel.{CancelResult, apply_cancel}
use homebased.Store.Operations.{
  Content, OperationRow, ReleaseResult, Ledger, Json, attention_of, has_attention, apply_release,
  with_operation, move_job, cancel_job, release_resource_attention,
}
use homebased.Store.Replay.{row_of, Answered, with_operation-Answered, answered_again, row-kept}

module _ (digest : MachineId → Content → ℕ) (moves : Json MoveResult) (cancels : Json CancelResult)
    (releases : Json ReleaseResult) where
  -- One request of a person, answered or refused.
  pub data Request (q u : Ledger) : Type 0 where
    move :
        (machine : MachineId) (operation : OperationId) (job : JobId) (placement : Placement)
        (out : Result MoveResult AppError)
        → move_job digest moves machine operation job placement q ≡ (out, u)
        → Request q u
    cancel :
        (machine : MachineId) (operation : OperationId) (job : JobId) (now : Time)
        (out : Result CancelResult AppError)
        → cancel_job digest cancels machine operation job now q ≡ (out, u)
        → Request q u
    release :
        (machine : MachineId) (operation : OperationId) (id : AttentionId)
        (out : Result ReleaseResult AppError)
        → release_resource_attention digest releases machine operation id q ≡ (out, u)
        → Request q u

  -- Requests, with what else happens to the tables between them.
  pub data Requests (q : Ledger) : Ledger → Type 0 where
    here : Requests q q
    later : {u v : Ledger} → Requests q u → Request u v → Requests q v
    between : {u : Ledger} (t : Tables) → Requests q u → Requests q (record u { tables = t })

  Request-row :
      (q u : Ledger) (other : OperationId) (row : OperationRow)
      → Request q u
      → row_of q other ≡ some row
      → row_of u other ≡ some row
  unfolding move_job cancel_job release_resource_attention
  Request-row q u other row (move machine operation job placement out h) =
      row-kept digest moves operation machine (Content.move job placement)
        (apply_move machine job placement) q u out other row h
  Request-row q u other row (cancel machine operation job now out h) =
      row-kept digest cancels operation machine (Content.cancel job) (apply_cancel machine job now)
        q u out other row h
  Request-row q u other row (release machine operation id out h) =
      row-kept digest releases operation machine (Content.release id) (apply_release machine id) q u
        out other row h

  Requests-row :
      (q u : Ledger) (other : OperationId) (row : OperationRow)
      → Requests q u
      → row_of q other ≡ some row
      → row_of u other ≡ some row
  Requests-row q u other row here e = e
  Requests-row q v other row (later {u} steps step) e =
      Request-row u v other row step (Requests-row q u other row steps e)
  Requests-row q v other row (between {u} t steps) e = Requests-row q u other row steps e

  -- A request that was answered once is answered in the same way for ever. After any further requests
  -- and changes of the queue, a request under its id gets the first answer, whatever applying it would do
  -- now, and changes nothing, if its machine and content have the digest of the first; and it is a
  -- conflict if they have another.
  pub with_operation-replay :
      {R : Type 0} (json : Json R) (operation : OperationId) (machine : MachineId)
      (content : Content) (apply : Tx R) (q t u : Ledger) (result : R)
      → with_operation digest json machine operation content apply q ≡ ok (result, t)
      → Requests t u
      → (other_machine : MachineId) (other : Content) (again : Tx R)
      → with_operation digest json other_machine operation other again u ≡ (
          if digest machine content == digest other_machine other
          then ok (result, u)
          else err (queue (operation_conflict operation)))
  unfolding Answered
  with_operation-replay json operation machine content apply q t u result h steps other_machine
        other again =
      let (row, e, same, read) =
        with_operation-Answered digest json operation machine content apply q t result h in
      answered_again digest json operation machine content other_machine other result u again
        (row, Requests-row t u operation row steps e, same, read)

in_attention :
    (id : AttentionId) (phase : RunPhase) → attention_of phase ≡ some id → holds_job phase ≡ false
unfolding attention_of
in_attention id (attention own failure) h = refl
in_attention id (launching since) h = cc h
in_attention id (executing since) h = cc h
in_attention id (stopping since cause at) h = cc h
in_attention id (cleaning attempt) h = refl

has_attention-run :
    (id : AttentionId) (x : ResourceRecord)
    → has_attention id x ≡ true
    → (run : ActiveRun) × (x.run ≡ some run) × (attention_of run.phase ≡ some id)
unfolding has_attention
has_attention-run id x h = elim (Option-cases x.run) [
  | inl e ↦ cc (rw (e, map_or) at h)
  | inr (run, e) ↦ elim (Option-cases (attention_of run.phase)) [
    | inl n ↦ cc (rw (e, map_or, n) at h)
    | inr (own, n) ↦
        let same : (own == id) ≡ true = rw (e, map_or, n) at h in
        (run, e, n ∙ ap some ((==_iff own id).0 same))
  ]
]

cleared :
    (s : Tables) (at : ResourceId) (run : ActiveRun)
    → Agrees s
    → Holds s.resources at run
    → holds_job run.phase ≡ false
    → Agrees (clear_run at s)
unfolding Agrees clear_run set_run put
cleared s at run agree held idle = RunsAgree-cleared s.resources s.jobs agree at (λ other h.
    let same : run ≡ other = Holds-unique s.resources at run other held h in rw (← same) idle)

-- The resource has no run any more, and nothing else of the resources and jobs has changed.
pub record Released (s t : Tables) (machine : MachineId) (at : ResourceId) : Type 0 where
  pub freed :
      (x : ResourceRecord) × (at_resource s.resources at ≡ some x)
      × ((x.machine == machine) ≡ true)
      × (at_resource t.resources at ≡ some (record x { run = none }))
  pub elsewhere :
      (other : ResourceId)
      → (other == at) ≡ false
      → at_resource t.resources other ≡ at_resource s.resources other
  pub jobs : t.jobs ≡ s.jobs

clear_run-Released :
    (s : Tables) (machine : MachineId) (x : ResourceRecord)
    → at_resource s.resources x.id ≡ some x
    → (x.machine == machine) ≡ true
    → Released s (clear_run x.id s) machine x.id
unfolding clear_run set_run put
clear_run-Released s machine x found home = record {
  freed = (x, found, home, put_here none x.id s.resources x found);
  elsewhere = λ other apart. put_elsewhere none x.id other s.resources apart;
  jobs = refl;
}

-- If the resources have distinct ids, and runs and jobs agree, a release that succeeds is of a resource of
-- the machine, whose run waits for a person under that attention. It leaves that resource without a run,
-- every other resource and every job as they were, and runs and jobs in agreement.
pub apply_release-Agrees :
    (s t : Tables) (machine : MachineId) (id : AttentionId) (r : ReleaseResult)
    → Distinct (λ x. x.id) s.resources
    → Agrees s
    → apply_release machine id s ≡ ok (r, t)
    → Agrees t
      × (run : ActiveRun) × Holds s.resources r.resource run
      × (attention_of run.phase ≡ some id)
      × (r.attention ≡ id)
      × Released s t machine r.resource
unfolding apply_release has_attention
apply_release-Agrees s t machine id r unique agree h =
    let (x, h₁, e) =
      >>=-ok _
        (ok_or (find (λ x. (x.machine == machine) && has_attention id x) s.resources)
          (queue (attention_not_found id)))
        h in
    let (m, test) =
      find-In (λ y. (y.machine == machine) && has_attention id y) s.resources
        (ok_or-ok _ (queue (attention_not_found id)) e) in
    let (run, has, waits) =
      has_attention-run id x (and_true (x.machine == machine) (has_attention id x) test).1 in
    let held : Holds s.resources x.id run =
      (x, find-Distinct (λ y. y.id) x s.resources unique m, has) in
    let (e₁, e₂) : (record { resource = x.id; attention = id } ≡ r) × (clear_run x.id s ≡ t) =
      (ground arith, ground arith) in
    (
      subst Agrees e₂ (cleared s x.id run agree held (in_attention id run.phase waits)),
      run,
      subst (λ (a : ReleaseResult). Holds s.resources a.resource run) e₁ held,
      waits,
      ap (λ (a : ReleaseResult). a.attention) (sym e₁),
      subst (λ (a : ReleaseResult). Released s t machine a.resource) e₁
          (subst (λ (u : Tables). Released s u machine x.id) e₂
            (clear_run-Released s machine x (find-Distinct (λ y. y.id) x s.resources unique m)
              (and_true (x.machine == machine) (has_attention id x) test).0)),
    )
