-- ===== src/Store/MoveSlots.antt =====
-- The slots that a move writes, one job at a time (src/store/queue/jobs.rs).
use homebased.Base.{
  ℕ, ◌+◌, ◌≡◌, ◌⊎◌, ap, refl, ◌∙◌, true, false, [], ◌∷◌, any, get_elem?, some, Bool-cases, ==_refl,
  ◌==◌, inl, inr, arith, Result, ok,
}
use homebased.Ids.{MachineId, JobId}
use homebased.Error.{AppError}
use homebased.Queue.Priority
use homebased.Queue.Priority.{Priority}
use homebased.Store.Types.{JobRecord, Tables}
use homebased.Store.Invariant.{at_job}
use homebased.Store.Levels.{in_level, lift_levels, write_level}
use homebased.Store.Move.{insert_at, others, leave_level}
use homebased.Store.Slots.{insert_at-Unique, any-insert_at}
use homebased.Store.Written.{HasSlot, placed, write_level-other, write_level-slot, get_elem?-any}
use homebased.Store.MoveFacts.{
  SlotsChecked, lift_levels-job, lift_levels-other, others-row, others-Unique, in_level-HasSlot,
  in_level-rank,
}

pub ok_eq : {A : Type 0} {a b : A} → ◌≡◌ {A = Result A AppError} (ok a) (ok b) → a ≡ b
ok_eq h = ground (arith, h)

module _ (s : Tables) (checked : SlotsChecked s.jobs) (machine : MachineId) (from to : Priority)
    (id : JobId) (j : JobRecord) (is_job : at_job s.jobs id ≡ some j) (index : ℕ) (left t : Tables)
    (leaves : leave_level machine from to
        (others s machine from id)
        (lift_levels machine (from ∷ to ∷ []) s)
      ≡ ok left)
    (enters : write_level machine to 1 (insert_at index id (others s machine to id)) left
      ≡ ok t) where
  abbrev lifted_tables : Tables
  lifted_tables = lift_levels machine (from ∷ to ∷ []) s

  fresh : any (λ i. i == id) (others s machine to id) ≡ false
  fresh = elim (Bool-cases (any (λ i. i == id) (others s machine to id))) [
    | inl y ↦ cc ((others-row s checked machine to id id j y is_job).1, ==_refl id)
    | inr n ↦ n
  ]

  -- A job of the new level's list is the moved one or was in the new level.
  pub inserted :
      (k : JobId) (x : JobRecord)
      → at_job s.jobs k ≡ some x
      → any (λ i. i == k) (insert_at index id (others s machine to id)) ≡ true
      → ((id == k) ≡ true) ⊎ (in_level machine to x ≡ true)
  inserted k x e h = elim (Bool-cases (id == k)) [
    | inl y ↦ inl y
    | inr n ↦
        let m : any (λ i. i == k) (others s machine to id) ≡ true =
          ground (arith, any-insert_at (λ i. i == k) index id (others s machine to id)) in
        inr (others-row s checked machine to id k x m e).0
  ]

  leave_level-other :
      (k : JobId)
      → ((Priority.rank from == Priority.rank to) ≡ false
          → any (λ i. i == k) (others s machine from id) ≡ false)
      → at_job left.jobs k ≡ at_job lifted_tables.jobs k
  unfolding leave_level
  leave_level-other k out = elim (Bool-cases (Priority.rank from == Priority.rank to)) [
    | inl stays ↦ let e : lifted_tables ≡ left = ok_eq (rw stays at leaves) in rw (← e) refl
    | inr moves ↦
        write_level-other machine from 1 (others s machine from id) lifted_tables left k
          (rw moves at leaves) (out moves)
  ]

  -- A job that is in the new level's list is in no list of another level.
  not_both :
      (k : JobId) (x : JobRecord)
      → at_job s.jobs k ≡ some x
      → (Priority.rank from == Priority.rank to) ≡ false
      → any (λ i. i == k) (insert_at index id (others s machine to id)) ≡ true
      → any (λ i. i == k) (others s machine from id) ≡ false
  not_both k x e moves h = elim (Bool-cases (any (λ i. i == k) (others s machine from id))) [
    | inl y ↦
        let (old, apart) = others-row s checked machine from id k x y e in
        elim (inserted k x e h) [
          | inl same ↦ absurd (ground (arith, apart, same))
          | inr new ↦ absurd (
              ground
                (arith, moves, in_level-rank machine from x old, in_level-rank machine to x new))
        ]
    | inr n ↦ n
  ]

  -- Each job of the new level's list has the slot that its index says.
  pub target_slot :
      (i : ℕ) (k : JobId) (x : JobRecord)
      → get_elem? (insert_at index id (others s machine to id)) i ≡ some k
      → at_job s.jobs k ≡ some x
      → HasSlot machine x
      → at_job t.jobs k ≡ some (placed to (1 + i) x)
  target_slot i k x g e slot =
      let (y, found, kept, same) = lift_levels-job machine (from ∷ to ∷ []) s k x e in
      let listed = get_elem?-any (insert_at index id (others s machine to id)) i k g in
      write_level-slot machine to 1 (insert_at index id (others s machine to id)) left t i k y
        (insert_at-Unique index id (others s machine to id) fresh
          (others-Unique s checked machine to id))
        enters g (leave_level-other k (λ moves. not_both k x e moves listed) ∙ found) (kept slot)
      ∙ ap some (same to (1 + i))

  -- Each other job of the old level, when the job leaves it, has the slot that its index there says.
  pub left_slot :
      (i : ℕ) (k : JobId) (x : JobRecord)
      → (Priority.rank from == Priority.rank to) ≡ false
      → get_elem? (others s machine from id) i ≡ some k
      → at_job s.jobs k ≡ some x
      → at_job t.jobs k ≡ some (placed from (1 + i) x)
  unfolding leave_level
  left_slot i k x moves g e =
      let (y, found, kept, same) = lift_levels-job machine (from ∷ to ∷ []) s k x e in
      let listed = get_elem?-any (others s machine from id) i k g in
      let (old, _) = others-row s checked machine from id k x listed e in
      let apart : any (λ i. i == k) (insert_at index id (others s machine to id)) ≡ false =
        elim (Bool-cases (any (λ i. i == k) (insert_at index id (others s machine to id)))) [
          | inl h ↦ cc (not_both k x e moves h, listed)
          | inr n ↦ n
        ] in
      write_level-other machine to 1 (insert_at index id (others s machine to id)) left t k enters
        apart
      ∙ write_level-slot machine from 1 (others s machine from id) lifted_tables left i k y
          (others-Unique s checked machine from id) (rw moves at leaves) g found
          (kept (in_level-HasSlot machine from x old))
      ∙ ap some (same from (1 + i))

  -- A job outside both levels is as it was.
  pub rest_same :
      (k : JobId) (x : JobRecord)
      → at_job s.jobs k ≡ some x
      → (id == k) ≡ false
      → in_level machine from x ≡ false
      → in_level machine to x ≡ false
      → at_job t.jobs k ≡ some x
  rest_same k x e other not_from not_to =
      let out : any (λ i. i == k) (insert_at index id (others s machine to id)) ≡ false =
        elim (Bool-cases (any (λ i. i == k) (insert_at index id (others s machine to id)))) [
          | inl h ↦ elim (inserted k x e h) [
            | inl same ↦ cc (same, other)
            | inr new ↦ cc (new, not_to)
          ]
          | inr n ↦ n
        ] in
      let gone : any (λ i. i == k) (others s machine from id) ≡ false =
        elim (Bool-cases (any (λ i. i == k) (others s machine from id))) [
          | inl h ↦ cc ((others-row s checked machine from id k x h e).0, not_from)
          | inr n ↦ n
        ] in
      write_level-other machine to 1 (insert_at index id (others s machine to id)) left t k enters
        out
      ∙ leave_level-other k (λ moves. gone)
      ∙ lift_levels-other machine from to s k x e not_from not_to
