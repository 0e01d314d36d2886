-- ===== src/Dependency/AfterLaws.antt =====
-- Which `after` lists are accepted (src/dependency.rs), and as what.
use homebased.Base.{
  ℕ, suc, ◌≤◌, ◌≡◌, refl, sym, ◌∙◌, subst, ◌≢◌, ◌⊎◌, inl, inr, ◌↔◌, true, false, List, [], ◌∷◌,
  arith, In, length, leb, ◌==◌, Bool-cases, not, ok, ensure-ok, >>-ok,
}
use homebased.Ids.{TaskId}
use homebased.Dependency.After.{
  max_dependencies, TaskDependencies, contains, no_repeats, insert_id, sort_ids, new,
}

-- No id of the list is among those before it.
abbrev pub Fresh : List TaskId → List TaskId → Type 0
Fresh seen [] = Unit
Fresh seen (t ∷ ts) = (contains seen t ≡ false) × Fresh (t ∷ seen) ts

no_repeats-Fresh :
    (seen : List TaskId) (index : ℕ) (ts : List TaskId)
    → (no_repeats seen index ts ≡ ok tt) ↔ Fresh seen ts
unfolding no_repeats
no_repeats-Fresh seen index [] = (λ h. tt, λ h. refl)
no_repeats-Fresh seen index (t ∷ ts) = elim (Bool-cases (contains seen t)) [
  | inl y ↦ (λ h. absurd (cc (rw y at h)), λ (apart, _). absurd (cc (sym apart ∙ y)))
  | inr n ↦
      let rest = no_repeats-Fresh (t ∷ seen) (suc index) ts in
      (λ h. (n, rest.0 (rw n at h)), λ (_, f). rw n (rest.1 f))
]

-- In ascending order of ids.
abbrev pub Ascending : List TaskId → Type 0
Ascending [] = Unit
Ascending (t ∷ ts) = ((u : TaskId) → In u ts → t ≤ u) × Ascending ts

insert_id-In : (u t : TaskId) (ts : List TaskId) → In u (insert_id t ts) → (u ≡ t) ⊎ In u ts
unfolding insert_id
insert_id-In u t [] m = m
insert_id-In u t (v ∷ vs) m = elim (Bool-cases (leb t v)) [
  | inl y ↦ rw y at m
  | inr n ↦ elim (rw n at m) [
    | inl e ↦ inr (inl e)
    | inr k ↦ elim (insert_id-In u t vs k) [ inl e ↦ inl e | inr r ↦ inr (inr r) ]
  ]
]

In-insert_id : (u t : TaskId) (ts : List TaskId) → (u ≡ t) ⊎ In u ts → In u (insert_id t ts)
unfolding insert_id
In-insert_id u t [] m = m
In-insert_id u t (v ∷ vs) m = elim (Bool-cases (leb t v)) [
  | inl y ↦ rw y m
  | inr n ↦ rw n (elim m [
    | inl e ↦ inr (In-insert_id u t vs (inl e))
    | inr r ↦ elim r [ inl e ↦ inl e | inr k ↦ inr (In-insert_id u t vs (inr k)) ]
  ])
]

le_trans : (a b c : ℕ) → a ≤ b → b ≤ c → a ≤ c
le_trans a b c p q = omega arith

insert_id-Ascending : (t : TaskId) (ts : List TaskId) → Ascending ts → Ascending (insert_id t ts)
unfolding insert_id
insert_id-Ascending t [] a = (λ u m. absurd m, tt)
insert_id-Ascending t (v ∷ vs) a = elim (Bool-cases (leb t v)) [
  | inl y ↦
      let le : t ≤ v = ground arith in
      rw y (
        λ u m. elim m [
          | inl e ↦ subst (λ k. t ≤ k) (sym e) le
          | inr k ↦ le_trans t v u le (a.0 u k)
        ],
        a,
      )
  | inr n ↦
      let ge : v ≤ t = ground arith in
      rw n (
        λ u m. elim (insert_id-In u t vs m) [
          | inl e ↦ subst (λ k. v ≤ k) (sym e) ge
          | inr k ↦ a.0 u k
        ],
        insert_id-Ascending t vs a.1,
      )
]

sort_ids-sorts :
    (ts : List TaskId) → Ascending (sort_ids ts) × ((u : TaskId) → In u (sort_ids ts) ↔ In u ts)
unfolding sort_ids
sort_ids-sorts [] = (tt, λ u. (λ m. m, λ m. m))
sort_ids-sorts (t ∷ ts) =
    let (sorted, same) = sort_ids-sorts ts in
    (
      insert_id-Ascending t (sort_ids ts) sorted,
      λ u. (
        λ m. elim (insert_id-In u t (sort_ids ts) m) [ inl e ↦ inl e | inr k ↦ inr ((same u).0 k) ],
        λ m. In-insert_id u t (sort_ids ts) (elim m [ inl e ↦ inl e | inr k ↦ inr ((same u).1 k) ]),
      ),
    )

nonempty : (ts : List TaskId) → not (length ts == 0) ≡ true → ts ≢ []
nonempty [] h = cc h
nonempty (t ∷ ts) h = λ e. cc e

tested : (ts : List TaskId) → ts ≢ [] → not (length ts == 0) ≡ true
tested [] h = absurd (h refl)
tested (t ∷ ts) h = ground arith

-- An `after` list is accepted exactly if it names one to 16 tasks, none of them twice, and it is
-- accepted as those tasks in ascending order.
pub new-ok :
    (ts : List TaskId) (dependencies : TaskDependencies)
    → ((new ts ≡ ok dependencies)
        ↔ ((ts ≢ []) × (length ts ≤ 16) × Fresh [] ts × (dependencies.tasks ≡ sort_ids ts)))
      × Ascending (sort_ids ts)
      × ((u : TaskId) → In u (sort_ids ts) ↔ In u ts)
unfolding new
new-ok ts dependencies =
    let fresh = no_repeats-Fresh [] 0 ts in
    let (sorted, same) = sort_ids-sorts ts in
    (
      (
        λ h.
            let (some_task, h₁) = ensure-ok (not (length ts == 0)) _ _ h in
            let (few, h₂) = ensure-ok (leb (length ts) max_dependencies) _ _ h₁ in
            let (h₃, distinct) = >>-ok _ (no_repeats [] 0 ts) h₂ in
            (nonempty ts some_task, ground arith, fresh.0 distinct, ground arith),
        λ (some_task, few, distinct, e).
            let test : not (length ts == 0) ≡ true = tested ts some_task in
            let bound : leb (length ts) max_dependencies ≡ true = ground arith in
            rw (test, bound, fresh.1 distinct) (ground arith),
      ),
      sorted,
      same,
    )
