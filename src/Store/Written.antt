-- ===== src/Store/Written.antt =====
-- What lifting and writing the slots of a level does to each job (src/store/queue/jobs.rs).
use homebased.Base.{
  ℕ, zero, suc, ◌+◌, ◌≡◌, ap, refl, ◌∙◌, true, false, List, [], ◌∷◌, any, get_elem?, some, is_some,
  Option-cases, ◌==◌, ◌&&◌, inl, inr, arith, ok, >>=-ok, find-In,
}
use homebased.Ids.{MachineId, JobId}
use homebased.Queue.Priority.{Priority}
use homebased.Store.Types.{JobRecord, Tables}
use homebased.Store.Updates.{changed, find-update}
use homebased.Store.Invariant.{at_job}
use homebased.Store.Levels.{sql_position, place, write_level}
use homebased.Store.Slots.{Unique}

-- A job with a slot of the machine.
abbrev pub HasSlot : MachineId → JobRecord → Type 0
HasSlot machine j = (j.machine == machine) && is_some j.position ≡ true

abbrev pub placed : Priority → ℕ → JobRecord → JobRecord
placed p n j = record j { priority = p; position = some n }

place_job :
    (machine : MachineId) (p : Priority) (n : ℕ) (id k : JobId) (s : Tables)
    → at_job (place machine p n id s).jobs k
      ≡ changed
          (λ j. j.id)
          (λ j. (j.id == id) && ((j.machine == machine) && is_some j.position))
          (placed p n)
          (at_job s.jobs k)
unfolding place
place_job machine p n id k s =
    find-update (λ j. j.id) (λ j. (j.id == id) && ((j.machine == machine) && is_some j.position))
      (placed p n) k s.jobs (λ j. refl)

at_job-id :
    (js : List JobRecord) (k : JobId) (j : JobRecord) → at_job js k ≡ some j → (j.id == k) ≡ true
at_job-id js k j e = (find-In (λ x. x.id == k) js e).1

place_elsewhere :
    (machine : MachineId) (p : Priority) (n : ℕ) (id k : JobId) (s : Tables)
    → (id == k) ≡ false
    → at_job (place machine p n id s).jobs k ≡ at_job s.jobs k
place_elsewhere machine p n id k s apart = elim (Option-cases (at_job s.jobs k)) [
  | inl e ↦ place_job machine p n id k s ∙ (rw e refl)
  | inr (j, e) ↦
      let mine = at_job-id s.jobs k j e in
      let other : (j.id == id) ≡ false = ground arith in
      place_job machine p n id k s ∙ (rw e (rw other refl))
]

place_here :
    (machine : MachineId) (p : Priority) (n : ℕ) (k : JobId) (s : Tables) (j : JobRecord)
    → at_job s.jobs k ≡ some j
    → HasSlot machine j
    → at_job (place machine p n k s).jobs k ≡ some (placed p n j)
place_here machine p n k s j e slot =
    place_job machine p n k k s ∙ (rw e (rw (at_job-id s.jobs k j e, slot) refl))

sql_position_lem : (first n : ℕ) → sql_position first ≡ ok n → n ≡ first + 0
unfolding sql_position
sql_position_lem first n h = ground arith

-- A job that is not written is as it was.
pub write_level-other :
    (machine : MachineId) (p : Priority) (first : ℕ) (ids : List JobId) (s t : Tables) (k : JobId)
    → write_level machine p first ids s ≡ ok t
    → any (λ i. i == k) ids ≡ false
    → at_job t.jobs k ≡ at_job s.jobs k
unfolding write_level
write_level-other machine p first [] s t k h apart = let e : t ≡ s = ground arith in rw e refl
write_level-other machine p first (id ∷ ids) s t k h apart =
    let (n, h₁, _) = >>=-ok _ (sql_position first) h in
    let other : (id == k) ≡ false = ground arith in
    write_level-other machine p (suc first) ids (place machine p n id s) t k h₁ (ground arith)
    ∙ place_elsewhere machine p n id k s other

pub get_elem?-any :
    (ids : List JobId) (i : ℕ) (k : JobId) → get_elem? ids i ≡ some k → any (λ y. y == k) ids ≡ true
get_elem?-any [] i k h = cc h
get_elem?-any (x ∷ ids) zero k h = ground arith
get_elem?-any (x ∷ ids) (suc i) k h = ground (arith, get_elem?-any ids i k h)

-- The job at index `i` of the list has the slot `first + i` of the level, and is otherwise as it was.
pub write_level-slot :
    (machine : MachineId) (p : Priority) (first : ℕ) (ids : List JobId) (s t : Tables) (i : ℕ)
    (k : JobId) (j : JobRecord)
    → Unique ids
    → write_level machine p first ids s ≡ ok t
    → get_elem? ids i ≡ some k
    → at_job s.jobs k ≡ some j
    → HasSlot machine j
    → at_job t.jobs k ≡ some (placed p (first + i) j)
unfolding write_level
write_level-slot machine p first [] s t i k j d h g e slot = cc g
write_level-slot machine p first (id ∷ ids) s t zero k j d h g e slot =
    let (n, h₁, exact) = >>=-ok _ (sql_position first) h in
    let same : n ≡ first + 0 = sql_position_lem first n exact in
    let at : id ≡ k = ground arith in
    write_level-other machine p (suc first) ids (place machine p n id s) t k h₁ (rw (← at) d.0)
    ∙ (rw at (place_here machine p n k s j e slot))
    ∙ ap (λ (m : ℕ). some (placed p m j)) same
write_level-slot machine p first (id ∷ ids) s t (suc i) k j d h g e slot =
    let (n, h₁, exact) = >>=-ok _ (sql_position first) h in
    let other : (id == k) ≡ false = ground (arith, get_elem?-any ids i k g) in
    write_level-slot machine p (suc first) ids (place machine p n id s) t i k j d.1 h₁ g
      (place_elsewhere machine p n id k s other ∙ e) slot
    ∙ ap (λ (m : ℕ). some (placed p m j)) (omega arith)
