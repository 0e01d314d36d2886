-- ===== src/Store/Replay.antt =====
-- Replays of a person's operations (src/store/queue/jobs.rs).
use homebased.Base.{
  ℕ, ◌≡◌, ◌∙◌, ap, refl, false, if◌then◌else◌, ◌∷◌, find, Option, some, Option-cases, Bool-cases,
  inl, inr, Result, ok, err, Result-cases, ◌==◌, ==_iff, ==_refl, arith, >>=-ok,
}
use homebased.Ids.{MachineId, OperationId}
use homebased.Error.{AppError, queue, operation_conflict}
use homebased.Store.Types.{Tx}
use homebased.Store.Access.{immediate}
use homebased.Store.Operations.{Content, OperationRow, Ledger, Json, kind, with_operation}

abbrev pub row_of : Ledger → OperationId → Option OperationRow
row_of q operation = find (λ r. r.id == operation) q.operations

module _ (digest : MachineId → Content → ℕ) {R : Type 0} (json : Json R)
    (operation : OperationId) where
  -- What a request that is answered leaves behind: a row of its content and its answer.
  unfoldable pub Answered : MachineId → Content → R → Ledger → Type 0
  Answered machine content result q =
      (row : OperationRow) × (row_of q operation ≡ some row)
      × (row.digest ≡ digest machine content)
      × (json.read row.result ≡ ok result)

  -- The row that a first request stores.
  new_row : MachineId → Content → R → OperationRow
  unfolding kind
  new_row machine content result = record {
    id = operation;
    machine = machine;
    kind = kind content;
    digest = digest machine content;
    result = json.write result;
  }

  pub with_operation-Answered :
      (machine : MachineId) (content : Content) (apply : Tx R) (q t : Ledger) (result : R)
      → with_operation digest json machine operation content apply q ≡ ok (result, t)
      → Answered machine content result t
  unfolding with_operation Answered new_row
  with_operation-Answered machine content apply q t result h =
      elim (Option-cases (row_of q operation)) [
        | inl e ↦
            let ((r, u), h₁, done) = >>=-ok _ (apply q.tables) (rw (e, with_operation) at h) in
            let (same, left) : (r ≡ result)
                × (record { tables = u; operations = new_row machine content r ∷ q.operations }
                    ≡ t) =
              (ground arith, ground arith) in
            (
              new_row machine content r,
              rw (← left) (rw (==_refl operation) refl),
              refl,
              json.read-write r ∙ ap ok same,
            )
        | inr (row, e) ↦ elim (Bool-cases (row.digest == digest machine content)) [
          | inl y ↦
              let (r, h₁, read) =
                >>=-ok _ (json.read row.result) (rw (e, with_operation, y) at h) in
              let (same, left) : (r ≡ result) × (q ≡ t) = (ground arith, ground arith) in
              (
                row,
                rw (← left) e,
                (==_iff row.digest (digest machine content)).0 y,
                read ∙ ap ok same,
              )
          | inr n ↦ cc (rw (e, with_operation, n) at h)
        ]
      ]

  -- What the row says of another request under its id.
  pub answered_again :
      (machine : MachineId) (content : Content) (other_machine : MachineId) (other : Content)
      (result : R) (u : Ledger) (apply : Tx R)
      → Answered machine content result u
      → with_operation digest json other_machine operation other apply u ≡ (
          if digest machine content == digest other_machine other
          then ok (result, u)
          else err (queue (operation_conflict operation)))
  unfolding with_operation Answered
  answered_again machine content other_machine other result u apply (row, e, same, read) =
      elim (Bool-cases (digest machine content == digest other_machine other)) [
        | inl y ↦ rw (e, with_operation, same, y, read) refl
        | inr n ↦ rw (e, with_operation, same, n) refl
      ]

  -- An answered request, or a refused one, keeps the rows of all others.
  pub row-kept :
      (machine : MachineId) (content : Content) (apply : Tx R) (q u : Ledger)
      (out : Result R AppError) (other : OperationId) (row : OperationRow)
      → immediate (with_operation digest json machine operation content apply) q ≡ (out, u)
      → row_of q other ≡ some row
      → row_of u other ≡ some row
  unfolding immediate with_operation
  row-kept machine content apply q u out other row h e = elim (Option-cases (row_of q operation)) [
    | inl a ↦
        let apart : (operation == other) ≡ false = elim (Bool-cases (operation == other)) [
          | inl y ↦ cc (a, e, (==_iff operation other).0 y)
          | inr n ↦ n
        ] in
        elim (Result-cases (apply q.tables)) [
          | inl ((r, t), done) ↦ ground (arith, rw (immediate, with_operation, a, done) at h, e)
          | inr (problem, failed) ↦
              ground (arith, rw (immediate, with_operation, a, failed) at h, e)
        ]
    | inr (r, a) ↦ elim (Bool-cases (r.digest == digest machine content)) [
      | inl y ↦ elim (Result-cases (json.read r.result)) [
        | inl (value, read) ↦ ground (arith, rw (immediate, with_operation, a, y, read) at h, e)
        | inr (problem, bad) ↦ ground (arith, rw (immediate, with_operation, a, y, bad) at h, e)
      ]
      | inr n ↦ ground (arith, rw (immediate, with_operation, a, n) at h, e)
    ]
  ]
