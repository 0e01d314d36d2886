-- ===== src/Dependency/After.antt =====
-- `TaskDependencies::new` of src/dependency.rs.
use homebased.Base.{
  ℕ, suc, Bool, List, [], ◌∷◌, any, length, leb, ◌==◌, if◌then◌else◌, Result, ok, err, ◌>>◌, ensure,
  not,
}
use homebased.Ids.{TaskId}

abbrev pub max_dependencies : ℕ
max_dependencies = 16

pub data DependencyListError : Type 0 where
  empty : DependencyListError
  duplicate : ℕ → TaskId → DependencyListError
  too_many : ℕ → DependencyListError

pub record TaskDependencies : Type 0 where
  pub tasks : List TaskId

-- `tasks[..index].contains(task)`.
abbrev pub contains : List TaskId → TaskId → Bool
contains ts t = any (λ u. u == t) ts

-- The loop over the entries, with those before the index.
unfoldable pub no_repeats : List TaskId → ℕ → List TaskId → Result (Unit {0}) DependencyListError
no_repeats seen index [] = ok tt
no_repeats seen index (t ∷ ts) =
    let rest = no_repeats (t ∷ seen) (suc index) ts in
    if contains seen t then err (duplicate index t) else rest

unfoldable pub insert_id : TaskId → List TaskId → List TaskId
insert_id t [] = t ∷ []
insert_id t (u ∷ us) = let rest = insert_id t us in if leb t u then t ∷ u ∷ us else u ∷ rest

-- `sort_by_key`.
unfoldable pub sort_ids : List TaskId → List TaskId
unfolding insert_id
sort_ids [] = []
sort_ids (t ∷ ts) = insert_id t (sort_ids ts)

unfoldable pub new : List TaskId → Result TaskDependencies DependencyListError
unfolding no_repeats sort_ids
new tasks = do
  ensure (not (length tasks == 0)) empty
  ensure (leb (length tasks) max_dependencies) (too_many (length tasks))
  no_repeats [] 0 tasks
  ok (record { tasks = sort_ids tasks })
