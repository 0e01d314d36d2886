-- ===== src/Store/MoveFacts.antt =====
-- Which jobs a move writes, and which it leaves (src/store/queue/jobs.rs).
use homebased.Base.{
  ℕ, zero, suc, ◌≤◌, ◌<◌, ◌≡◌, subst, refl, ◌∙◌, true, false, not, List, [], ◌∷◌, length, any, In,
  any_elim, find-Distinct, In-of_filter, filter-Distinct, Distinct, get_elem?, some, is_some,
  Option-cases, Bool-cases, ==_iff, ◌==◌, inl, inr, arith,
}
use homebased.Ids.{MachineId, JobId}
use homebased.Queue.Priority
use homebased.Queue.Priority.{Priority}
use homebased.Queue.Job.{is_terminal}
use homebased.Store.Types.{JobRecord, Tables}
use homebased.Store.Access.{update}
use homebased.Store.Updates.{find-update}
use homebased.Store.Invariant.{at_job}
use homebased.Store.Levels.{in_level, lifted, lift_levels, level}
use homebased.Store.Move.{insert_at, others, index_of}
use homebased.Store.Slots.{Unique, In-level, level-Unique}
use homebased.Store.Written.{HasSlot, placed}

-- What the schema checks of the jobs: ids are unique, and a job has a slot exactly until it ends.
pub record SlotsChecked (js : List JobRecord) : Type 0 where
  pub unique : Distinct (λ j. j.id) js
  pub slots :
      (k : JobId) (j : JobRecord)
      → at_job js k ≡ some j
      → is_some j.position ≡ not (is_terminal j.state)

-- A lifted job differs in its position only.
pub lift_levels-job :
    (machine : MachineId) (ps : List Priority) (s : Tables) (k : JobId) (j : JobRecord)
    → at_job s.jobs k ≡ some j
    → (i : JobRecord) × (at_job (lift_levels machine ps s).jobs k ≡ some i)
      × (HasSlot machine j → HasSlot machine i)
      × ((p : Priority) (n : ℕ) → placed p n i ≡ placed p n j)
unfolding lift_levels lifted
lift_levels-job machine [] s k j e = (j, e, λ h. h, λ p n. refl)
lift_levels-job machine (q ∷ ps) s k j e =
    let t : Tables = record s { jobs = update (in_level machine q) lifted s.jobs } in
    let here = find-update (λ x. x.id) (in_level machine q) lifted k s.jobs (λ x. refl) in
    elim (Bool-cases (in_level machine q j)) [
      | inl y ↦
          let (i, found, slot, same) =
            lift_levels-job machine ps t k (lifted j) (here ∙ (rw e (rw y refl))) in
          (i, found, λ h. slot (ground (arith, h)), λ p n. same p n)
      | inr n ↦ lift_levels-job machine ps t k j (here ∙ (rw e (rw n refl)))
    ]

pub lift_levels-other :
    (machine : MachineId) (from to : Priority) (s : Tables) (k : JobId) (j : JobRecord)
    → at_job s.jobs k ≡ some j
    → in_level machine from j ≡ false
    → in_level machine to j ≡ false
    → at_job (lift_levels machine (from ∷ to ∷ []) s).jobs k ≡ some j
unfolding lift_levels
lift_levels-other machine from to s k j e not_from not_to =
    let t : Tables = record s { jobs = update (in_level machine from) lifted s.jobs } in
    find-update (λ x. x.id) (in_level machine to) lifted k t.jobs (λ x. refl)
    ∙ (rw (find-update (λ x. x.id) (in_level machine from) lifted k s.jobs (λ x. refl), e)
        (rw not_from (rw not_to refl)))

module _ (s : Tables) (checked : SlotsChecked s.jobs) (machine : MachineId) where
  pub level-row :
      (p : Priority) (k : JobId) (x : JobRecord)
      → In k (level s machine p)
      → at_job s.jobs k ≡ some x
      → in_level machine p x ≡ true
  level-row p k x m e =
      let (j, here, same, inside) = In-level s machine p k m in
      let found = find-Distinct (λ i. i.id) j s.jobs checked.unique here in
      let q : j ≡ x = ground (arith, subst (λ (i : JobId). at_job s.jobs i ≡ some j) same found) in
      rw (← q) inside

  pub others-row :
      (p : Priority) (id k : JobId) (x : JobRecord)
      → any (λ y. y == k) (others s machine p id) ≡ true
      → at_job s.jobs k ≡ some x
      → (in_level machine p x ≡ true) × ((k == id) ≡ false)
  unfolding others
  others-row p id k x h e =
      let (y, m, same) = any_elim (λ y. y == k) (others s machine p id) h in
      let (here, apart) = In-of_filter (λ other. not (other == id)) y (level s machine p) m in
      let q : y ≡ k = (==_iff y k).0 same in
      (level-row p k x (subst (λ (i : JobId). In i (level s machine p)) q here) e, ground arith)

  pub others-Unique : (p : Priority) (id : JobId) → Unique (others s machine p id)
  unfolding others
  others-Unique p id =
      filter-Distinct (λ (k : JobId). k) (λ other. not (other == id)) (level s machine p)
        (level-Unique s machine p checked.unique)

-- A job of a level has a slot there, and in no other level.
pub in_level-HasSlot :
    (machine : MachineId) (p : Priority) (x : JobRecord)
    → in_level machine p x ≡ true
    → HasSlot machine x
unfolding in_level
in_level-HasSlot machine p x h = ground arith

pub in_level-rank :
    (machine : MachineId) (p : Priority) (x : JobRecord)
    → in_level machine p x ≡ true
    → (Priority.rank x.priority == Priority.rank p) ≡ true
unfolding in_level
in_level-rank machine p x h = ground arith

-- An insertion within the list puts the job at its index.
pub get_elem?-insert_at :
    (n : ℕ) (k : JobId) (ids : List JobId)
    → n ≤ length ids
    → get_elem? (insert_at n k ids) n ≡ some k
unfolding insert_at
get_elem?-insert_at zero k ids h = refl
get_elem?-insert_at (suc n) k [] h = absurd (omega arith)
get_elem?-insert_at (suc n) k (i ∷ is) h = get_elem?-insert_at n k is (omega arith)

pub index_of-lt : (k : JobId) (ids : List JobId) (n : ℕ) → index_of k ids ≡ some n → n < length ids
unfolding index_of
index_of-lt k [] n h = cc h
index_of-lt k (i ∷ is) n h = elim (Option-cases (index_of k is)) [
  | inl e ↦ ground (arith, e)
  | inr (m, e) ↦ ground (arith, e, index_of-lt k is m e)
]
