-- ===== src/Store/Slots.antt =====
-- The lists of ids that a level's slots are written from (src/store/queue/jobs.rs): which jobs are in
-- them, and that none is twice.
use homebased.Base.{
  ℕ, zero, suc, ◌≡◌, ◌⊎◌, sym, refl, ◌∙◌, Bool, true, false, List, [], ◌∷◌, map, filter, any, In,
  Distinct, In-of_filter, filter-Distinct, ◌==◌, leb, unwrap_or, Bool-cases, inl, inr, arith,
}
use homebased.Ids.{MachineId, JobId}
use homebased.Queue.Priority.{Priority}
use homebased.Store.Types.{JobRecord, Tables}
use homebased.Store.Levels.{in_level, insert_by_position, by_position, level}
use homebased.Store.Move.{insert_at}

abbrev pub Unique : List JobId → Type 0
Unique = Distinct (λ (k : JobId). k)

In-insert_by_position :
    (k j : JobRecord) (js : List JobRecord) → In k (insert_by_position j js) → (k ≡ j) ⊎ In k js
unfolding insert_by_position
In-insert_by_position k j [] m = m
In-insert_by_position k j (i ∷ is) m =
    elim (Bool-cases (leb (unwrap_or j.position 0) (unwrap_or i.position 0))) [
      | inl t ↦ rw t at m
      | inr f ↦ elim (rw f at m) [
        | inl e ↦ inr (inl e)
        | inr r ↦ elim (In-insert_by_position k j is r) [ inl e ↦ inl e | inr q ↦ inr (inr q) ]
      ]
    ]

In-by_position : (k : JobRecord) (js : List JobRecord) → In k (by_position js) → In k js
unfolding by_position
In-by_position k [] m = m
In-by_position k (j ∷ js) m = elim (In-insert_by_position k j (by_position js) m) [
  | inl e ↦ inl e
  | inr r ↦ inr (In-by_position k js r)
]

In-ids :
    (k : JobId) (js : List JobRecord)
    → In k (map (λ j. j.id) js)
    → (j : JobRecord) × In j js × (j.id ≡ k)
In-ids k [] m = absurd m
In-ids k (j ∷ js) (inl e) = (j, inl refl, sym e)
In-ids k (j ∷ js) (inr m) = let (i, q, e) = In-ids k js m in (i, inr q, e)

-- A job of a level has a slot in it.
pub In-level :
    (s : Tables) (machine : MachineId) (p : Priority) (k : JobId)
    → In k (level s machine p)
    → (j : JobRecord) × In j s.jobs × (j.id ≡ k) × (in_level machine p j ≡ true)
unfolding level
In-level s machine p k m =
    let (j, q, e) = In-ids k (by_position (filter (in_level machine p) s.jobs)) m in
    let (here, yes_in) =
      In-of_filter (in_level machine p) j s.jobs
        (In-by_position j (filter (in_level machine p) s.jobs) q) in
    (j, here, e, yes_in)

any-insert_by_position :
    (p : JobRecord → Bool) (j : JobRecord) (js : List JobRecord)
    → any p (insert_by_position j js) ≡ any p (j ∷ js)
unfolding insert_by_position
any-insert_by_position p j [] = refl
any-insert_by_position p j (i ∷ is) = ground (arith, any-insert_by_position p j is)

any-by_position : (p : JobRecord → Bool) (js : List JobRecord) → any p (by_position js) ≡ any p js
unfolding by_position
any-by_position p [] = refl
any-by_position p (j ∷ js) =
    any-insert_by_position p j (by_position js) ∙ (ground (arith, any-by_position p js))

insert_by_position-Distinct :
    (j : JobRecord) (js : List JobRecord)
    → Distinct (λ i. i.id) (j ∷ js)
    → Distinct (λ i. i.id) (insert_by_position j js)
unfolding insert_by_position
insert_by_position-Distinct j [] d = d
insert_by_position-Distinct j (i ∷ is) d =
    ground
      (arith, any-insert_by_position (λ y. y.id == i.id) j is, insert_by_position-Distinct j is)

by_position-Distinct :
    (js : List JobRecord) → Distinct (λ i. i.id) js → Distinct (λ i. i.id) (by_position js)
unfolding by_position
by_position-Distinct [] d = tt
by_position-Distinct (j ∷ js) d =
    insert_by_position-Distinct j (by_position js)
      (any-by_position (λ y. y.id == j.id) js ∙ d.0, by_position-Distinct js d.1)

any-ids :
    (k : JobId) (js : List JobRecord)
    → any (λ i. i == k) (map (λ j. j.id) js) ≡ any (λ j. j.id == k) js
any-ids k [] = refl
any-ids k (j ∷ js) = ground (arith, any-ids k js)

ids-Unique : (js : List JobRecord) → Distinct (λ i. i.id) js → Unique (map (λ j. j.id) js)
ids-Unique [] d = tt
ids-Unique (j ∷ js) d = (any-ids j.id js ∙ d.0, ids-Unique js d.1)

-- No job is in a level twice.
pub level-Unique :
    (s : Tables) (machine : MachineId) (p : Priority)
    → Distinct (λ i. i.id) s.jobs
    → Unique (level s machine p)
unfolding level
level-Unique s machine p d = ids-Unique (by_position (filter (in_level machine p) s.jobs)) (
    by_position-Distinct (filter (in_level machine p) s.jobs)
      (filter-Distinct (λ i. i.id) (in_level machine p) s.jobs d))

pub any-insert_at :
    (p : JobId → Bool) (n : ℕ) (k : JobId) (ids : List JobId)
    → any p (insert_at n k ids) ≡ any p (k ∷ ids)
unfolding insert_at
any-insert_at p zero k ids = refl
any-insert_at p (suc n) k [] = refl
any-insert_at p (suc n) k (i ∷ is) = ground (arith, any-insert_at p n k is)

-- A job that is put among others is there once.
pub insert_at-Unique :
    (n : ℕ) (k : JobId) (ids : List JobId)
    → any (λ i. i == k) ids ≡ false
    → Unique ids
    → Unique (insert_at n k ids)
unfolding insert_at
insert_at-Unique zero k ids fresh d = (fresh, d)
insert_at-Unique (suc n) k [] fresh d = (refl, tt)
insert_at-Unique (suc n) k (i ∷ is) fresh d =
    ground (arith, any-insert_at (λ y. y == i) n k is, insert_at-Unique n k is)

pub In-insert_at :
    (i k : JobId) (n : ℕ) (ids : List JobId) → In i (insert_at n k ids) → (i ≡ k) ⊎ In i ids
unfolding insert_at
In-insert_at i k zero ids m = m
In-insert_at i k (suc n) [] m = m
In-insert_at i k (suc n) (j ∷ js) (inl e) = inr (inl e)
In-insert_at i k (suc n) (j ∷ js) (inr m) = elim (In-insert_at i k n js m) [
  | inl e ↦ inl e
  | inr q ↦ inr (inr q)
]
