-- ===== src/Store/Between.antt =====
-- Where a slot puts a job in the list of a level (src/store/queue/jobs.rs): at an end, or right beside
-- the job that the slot names.
use homebased.Base.{
  ℕ, ◌+◌, ◌≡◌, ap, ◌∙◌, refl, List, [], ◌∷◌, ◌++◌, length, some, Option-cases, Bool-cases, ==_iff,
  ◌==◌, inl, inr, arith, ok, >>=-ok, ok_or,
}
use homebased.Ids.{JobId}
use homebased.Error.{queue, invariant, no_slot}
use homebased.Queue.Placement.{LevelEnd, Side}
use homebased.Store.Move.{Slot, end, next, slot_index, index_of, insert_at}

-- The jobs ahead of a slot and those behind it: none at an end, and the named job at the border.
unfoldable pub Borders : Slot → List JobId → List JobId → Type 0
Borders (end LevelEnd.front) ahead behind = ahead ≡ []
Borders (end LevelEnd.back) ahead behind = behind ≡ []
Borders (next target Side.before) ahead behind = (rest : List JobId) × (behind ≡ target ∷ rest)
Borders (next target Side.after) ahead behind =
    (rest : List JobId) × (ahead ≡ rest ++ (target ∷ []))

-- A job put at an index of a list stands between what was ahead of that place and what was behind it.
pub record Between (slot : Slot) (id : JobId) (order : List JobId) (index : ℕ) : Type 0 where
  pub ahead : List JobId
  pub behind : List JobId
  pub count : length ahead ≡ index
  pub split : order ≡ ahead ++ behind
  pub inserted : insert_at index id order ≡ ahead ++ (id ∷ behind)
  pub borders : Borders slot ahead behind

insert_at-length :
    (id : JobId) (ahead behind : List JobId)
    → insert_at (length ahead) id (ahead ++ behind) ≡ ahead ++ (id ∷ behind)
unfolding insert_at
insert_at-length id [] behind = refl
insert_at-length id (x ∷ ahead) behind = ap (λ l. x ∷ l) (insert_at-length id ahead behind)

++_nil : (l : List JobId) → l ≡ l ++ []
++_nil [] = refl
++_nil (x ∷ l) = ap (λ r. x ∷ r) (++_nil l)

-- The jobs ahead of the first place of a job, and those after it.
index_of-split :
    (target : JobId) (order : List JobId) (n : ℕ)
    → index_of target order ≡ some n
    → (ahead : List JobId) × (rest : List JobId) × (length ahead ≡ n)
      × (order ≡ ahead ++ (target ∷ rest))
unfolding index_of
index_of-split target [] n h = cc h
index_of-split target (x ∷ order) n h = elim (Bool-cases (x == target)) [
  | inl same ↦
      ([], order, ground (arith, h, same), ap (λ (y : JobId). y ∷ order) ((==_iff x target).0 same))
  | inr apart ↦ elim (Option-cases (index_of target order)) [
    | inl e ↦ ground (arith, h, e)
    | inr (m, e) ↦
        let (ahead, rest, k, split) = index_of-split target order m e in
        (x ∷ ahead, rest, ground (arith, h, e, k), ap (λ (l : List JobId). x ∷ l) split)
  ]
]

past :
    (target : JobId) (ahead rest : List JobId)
    → (length (ahead ++ (target ∷ [])) ≡ length ahead + 1)
      × (ahead ++ (target ∷ rest) ≡ (ahead ++ (target ∷ [])) ++ rest)
past target [] rest = (refl, refl)
past target (x ∷ ahead) rest =
    let (n, e) = past target ahead rest in (omega arith, ap (λ l. x ∷ l) e)

put-Between :
    (slot : Slot) (id : JobId) (order ahead behind : List JobId) (index : ℕ)
    → length ahead ≡ index
    → order ≡ ahead ++ behind
    → Borders slot ahead behind
    → Between slot id order index
put-Between slot id order ahead behind index n e b = record {
  ahead = ahead;
  behind = behind;
  count = n;
  split = e;
  inserted = (rw (← n, e) (insert_at-length id ahead behind));
  borders = b;
}

pub slot_index-Between :
    (slot : Slot) (id : JobId) (order : List JobId) (index : ℕ)
    → slot_index slot order ≡ ok index
    → Between slot id order index
unfolding slot_index Borders
slot_index-Between (end LevelEnd.front) id order index h =
    put-Between (end LevelEnd.front) id order [] order index (ground (arith, h)) refl refl
slot_index-Between (end LevelEnd.back) id order index h =
    put-Between (end LevelEnd.back) id order order [] index (ground (arith, h)) (++_nil order) refl
slot_index-Between (next target Side.before) id order index h =
    let (at, h₁, e) =
      >>=-ok _ (ok_or (index_of target order) (queue (invariant (no_slot target)))) h in
    let (ahead, rest, n, split) = index_of-split target order at (ground arith) in
    put-Between (next target Side.before) id order ahead (target ∷ rest) index
      (ground (arith, h₁, n)) split (rest, refl)
slot_index-Between (next target Side.after) id order index h =
    let (at, h₁, e) =
      >>=-ok _ (ok_or (index_of target order) (queue (invariant (no_slot target)))) h in
    let (ahead, rest, n, split) = index_of-split target order at (ground arith) in
    let (more, same) = past target ahead rest in
    put-Between (next target Side.after) id order (ahead ++ (target ∷ [])) rest index
      (ground (arith, h₁, n, more)) (split ∙ same) (ahead, refl)
