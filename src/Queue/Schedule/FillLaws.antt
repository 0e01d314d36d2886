-- ===== src/Queue/Schedule/FillLaws.antt =====
-- The walk of `decide` over the free resources (src/queue/schedule.rs): what `position` and `remove`
-- pick, and what the walk launches and leaves.
use homebased.Base.{
  ◌≡◌, refl, ◌⊎◌, inl, inr, Bool, true, false, List, [], ◌∷◌, any, ◌==◌, none, some, arith,
  Bool-cases, Option-cases, In, In-filter, In-of_filter, ◌∙◌, subst₂, Distinct, filter-Distinct,
  any-false_transfer, any_intro,
}
use homebased.Queue.Job.{Target, allows}
use homebased.Queue.Schedule.Types.{ResourceView}
use homebased.Queue.Schedule.Fill.{
  name_le, insert_by_name, sort_by_name, free_resources, take_allowed, is_idle,
}

pub take_none :
    (t : Target) (free : List ResourceView) (r : ResourceView)
    → take_allowed t free ≡ none
    → In r free
    → allows t r.id ≡ false
unfolding take_allowed
take_none t [] r h m = absurd m
take_none t (x ∷ xs) r h m = elim (Bool-cases (allows t x.id)) [
  | inl yep ↦ absurd (ground arith)
  | inr nope ↦ elim (Option-cases (take_allowed t xs)) [
    | inl e ↦ elim m [ inl q ↦ rw q nope | inr k ↦ take_none t xs r e k ]
    | inr (s, e) ↦ absurd (ground arith)
  ]
]

-- What a successful pick says of the picked resource and of the rest.
abbrev pub Picked : Target → List ResourceView → ResourceView → List ResourceView → Type 0
Picked t free s rest =
    In s free
    × (allows t s.id ≡ true)
    × ((r : ResourceView) → In r free → (r ≡ s) ⊎ In r rest)
    × ((r : ResourceView) → In r rest → In r free)

take_cons :
    {x s : ResourceView} (xs us : List ResourceView) (r : ResourceView)
    → In r (x ∷ xs)
    → (In r xs → (r ≡ s) ⊎ In r us)
    → (r ≡ s) ⊎ In r (x ∷ us)
take_cons xs us r (inl e) step = inr (inl e)
take_cons xs us r (inr m) step = elim (step m) [ inl e ↦ inl e | inr k ↦ inr (inr k) ]

keep_cons :
    {x : ResourceView} (xs us : List ResourceView) (r : ResourceView)
    → In r (x ∷ us)
    → (In r us → In r xs)
    → In r (x ∷ xs)
keep_cons xs us r (inl e) step = inl e
keep_cons xs us r (inr m) step = inr (step m)

pub take_some :
    (t : Target) (free : List ResourceView) (s : ResourceView) (rest : List ResourceView)
    → take_allowed t free ≡ some (s, rest)
    → Picked t free s rest
unfolding take_allowed
take_some t [] s rest h = absurd (ground arith)
take_some t (x ∷ xs) s rest h = elim (Bool-cases (allows t x.id)) [
  | inl yep ↦
      let (e, f) : (x ≡ s) × (xs ≡ rest) = (ground arith, ground arith) in
      subst₂ (λ a b. Picked t (x ∷ xs) a b) e f (inl refl, yep, λ r m. m, λ r m. inr m)
  | inr nope ↦ elim (Option-cases (take_allowed t xs)) [
    | inl e ↦ absurd (ground arith)
    | inr ((u, us), e) ↦
        let (i, f) : (u ≡ s) × (x ∷ us ≡ rest) = (ground arith, ground arith) in
        let p : Picked t xs u us = take_some t xs u us e in
        subst₂ (λ a b. Picked t (x ∷ xs) a b) i f
          (inr p.0, p.1, λ r m. take_cons xs us r m (p.2 r), λ r m. keep_cons xs us r m (p.3 r))
  ]
]

module _ (r : ResourceView) where
  insert_keeps :
      (x : ResourceView) (xs : List ResourceView) → In r (x ∷ xs) → In r (insert_by_name x xs)
  unfolding insert_by_name
  insert_keeps x [] m = m
  insert_keeps x (y ∷ ys) m = elim (Bool-cases (name_le x.name y.name)) [
    | inl t ↦ rw t m
    | inr f ↦ rw f (elim m [
      | inl e ↦ inr (insert_keeps x ys (inl e))
      | inr (inl e) ↦ inl e
      | inr (inr k) ↦ inr (insert_keeps x ys (inr k))
    ])
  ]

  insert_adds_none :
      (x : ResourceView) (xs : List ResourceView) → In r (insert_by_name x xs) → In r (x ∷ xs)
  unfolding insert_by_name
  insert_adds_none x [] m = m
  insert_adds_none x (y ∷ ys) m = elim (Bool-cases (name_le x.name y.name)) [
    | inl t ↦ rw t at m
    | inr f ↦ elim (rw f at m) [
      | inl e ↦ inr (inl e)
      | inr k ↦ elim (insert_adds_none x ys k) [ inl e ↦ inl e | inr k' ↦ inr (inr k') ]
    ]
  ]

  sort_keeps : (xs : List ResourceView) → In r xs → In r (sort_by_name xs)
  unfolding sort_by_name
  sort_keeps [] m = m
  sort_keeps (x ∷ xs) (inl e) = insert_keeps x (sort_by_name xs) (inl e)
  sort_keeps (x ∷ xs) (inr m) = insert_keeps x (sort_by_name xs) (inr (sort_keeps xs m))

  sort_adds_none : (xs : List ResourceView) → In r (sort_by_name xs) → In r xs
  unfolding sort_by_name
  sort_adds_none [] m = m
  sort_adds_none (x ∷ xs) m = elim (insert_adds_none x (sort_by_name xs) m) [
    | inl e ↦ inl e
    | inr k ↦ inr (sort_adds_none xs k)
  ]

  pub free_resources_intro :
      (rs : List ResourceView) → In r rs → r.run ≡ none → In r (free_resources rs)
  unfolding free_resources
  free_resources_intro rs m e = sort_keeps _ (In-filter is_idle r rs m (ground arith))

  pub free_resources_elim :
      (rs : List ResourceView) → In r (free_resources rs) → In r rs × (r.run ≡ none)
  unfolding free_resources
  free_resources_elim rs m =
      let (k, e) = In-of_filter is_idle r rs (sort_adds_none _ m) in (k, ground arith)

-- Sorting keeps the names of resources apart.
any-insert :
    (p : ResourceView → Bool) (x : ResourceView) (xs : List ResourceView)
    → any p (insert_by_name x xs) ≡ any p (x ∷ xs)
unfolding insert_by_name
any-insert p x [] = refl
any-insert p x (y ∷ ys) = ground (arith, any-insert p x ys)

abbrev pub DistinctIds : List ResourceView → Type 0
DistinctIds = Distinct (λ r. r.id)

insert-DistinctIds :
    (x : ResourceView) (xs : List ResourceView)
    → DistinctIds (x ∷ xs)
    → DistinctIds (insert_by_name x xs)
unfolding insert_by_name
insert-DistinctIds x [] d = d
insert-DistinctIds x (y ∷ ys) d = elim (Bool-cases (name_le x.name y.name)) [
  | inl t ↦ rw t d
  | inr f ↦ rw f (
    any-insert (λ r. r.id == y.id) x ys ∙ ground arith,
    insert-DistinctIds x ys (ground arith, d.1.1),
  )
]

sort-DistinctIds : (xs : List ResourceView) → DistinctIds xs → DistinctIds (sort_by_name xs)
unfolding sort_by_name
sort-DistinctIds [] d = tt
sort-DistinctIds (x ∷ xs) d = insert-DistinctIds x (sort_by_name xs) (
  any-false_transfer (λ r. r.id == x.id) (λ r. r.id == x.id) (sort_by_name xs) xs
      (λ r m e. any_intro (λ r. r.id == x.id) r xs (sort_adds_none r xs m) e) d.0,
  sort-DistinctIds xs d.1,
)

pub free_resources-DistinctIds :
    (rs : List ResourceView) → DistinctIds rs → DistinctIds (free_resources rs)
unfolding free_resources
free_resources-DistinctIds rs d = sort-DistinctIds _ (filter-Distinct (λ r. r.id) is_idle rs d)
