-- ===== src/Base/Members.antt =====
-- Membership by recursion, and what the iterator methods do to it.
use mathlib.Core.Path.{◌≡◌, refl, sym, ap, subst, ◌∙◌}
use mathlib.Core.Logic.{◌⊎◌, inl, inr}
use mathlib.Core.Bool.{Bool, true, false}
use mathlib.Core.List.{List, [], ◌∷◌}
use mathlib.Core.Option.{Option, none, some}
use native.Mathlib.Omega.{arith}
use Prim.Native.Nat.{ℕ}
use homebased.Base.Tests.{◌==◌, ==_refl, Bool-cases, Option-cases}
use homebased.Base.Lists.{filter, any, find, find_map, filter_map}

module _ {A : Type 0} where
  abbrev pub In : A → List A → Type 0
  In a [] = ⊥
  In a (x ∷ xs) = (a ≡ x) ⊎ In a xs

module _ {A : Type 0} where
  pub In-filter : (p : A → Bool) (a : A) (xs : List A) → In a xs → p a ≡ true → In a (filter p xs)
  In-filter p a [] m h = m
  In-filter p a (x ∷ xs) (inl e) h = rw (← e) (rw h (inl refl))
  In-filter p a (x ∷ xs) (inr m) h = elim (Bool-cases (p x)) [
    | inl t ↦ rw t (inr (In-filter p a xs m h))
    | inr f ↦ rw f (In-filter p a xs m h)
  ]

  pub In-of_filter :
      (p : A → Bool) (a : A) (xs : List A) → In a (filter p xs) → In a xs × (p a ≡ true)
  In-of_filter p a [] m = absurd m
  In-of_filter p a (x ∷ xs) m = elim (Bool-cases (p x)) [
    | inl t ↦ elim (rw t at m) [
      | inl e ↦ (inl e, rw e t)
      | inr r ↦ (inr (In-of_filter p a xs r).0, (In-of_filter p a xs r).1)
    ]
    | inr f ↦ (inr (In-of_filter p a xs (rw f at m)).0, (In-of_filter p a xs (rw f at m)).1)
  ]

  -- A test that no element passes.
  pub any-false : (p : A → Bool) (a : A) (xs : List A) → any p xs ≡ false → In a xs → p a ≡ false
  any-false p a [] h m = absurd m
  any-false p a (x ∷ xs) h (inl e) = rw e (ground arith)
  any-false p a (x ∷ xs) h (inr m) = any-false p a xs (ground arith) m

  pub any_intro : (p : A → Bool) (a : A) (xs : List A) → In a xs → p a ≡ true → any p xs ≡ true
  any_intro p a [] m h = absurd m
  any_intro p a (x ∷ xs) (inl e) h = rw (← e) (rw h)
  any_intro p a (x ∷ xs) (inr m) h = elim (Bool-cases (p x)) [
    | inl t ↦ rw t
    | inr f ↦ rw f (any_intro p a xs m h)
  ]

  pub any_elim : (p : A → Bool) (xs : List A) → any p xs ≡ true → (a : A) × In a xs × (p a ≡ true)
  any_elim p [] h = cc
  any_elim p (x ∷ xs) h = elim (Bool-cases (p x)) [
    | inl t ↦ (x, inl refl, t)
    | inr f ↦ let (a, m, e) = any_elim p xs (rw f at h) in (a, inr m, e)
  ]

  pub find-In : (p : A → Bool) (xs : List A) {a : A} → find p xs ≡ some a → In a xs × (p a ≡ true)
  find-In p [] h = cc
  find-In p (x ∷ xs) {a = a} h = elim (Bool-cases (p x)) [
    | inl t ↦ (inl (ground arith), ground arith)
    | inr f ↦ let r = find-In p xs {a = a} (rw f at h) in (inr r.0, r.1)
  ]

  pub any-false_parts :
      (p : A → Bool) (x : A) (xs : List A)
      → any p (x ∷ xs) ≡ false
      → (p x ≡ false) × (any p xs ≡ false)
  any-false_parts p x xs h = elim (Bool-cases (p x)) [
    | inl t ↦ cc (rw t at h)
    | inr f ↦ (f, rw f at h)
  ]

-- A test that passes in the first list only where one passes in the second.
pub any-false_transfer :
    {A B : Type 0} (p : A → Bool) (q : B → Bool) (xs : List A) (ys : List B)
    → ((a : A) → In a xs → p a ≡ true → any q ys ≡ true)
    → any q ys ≡ false
    → any p xs ≡ false
any-false_transfer p q xs ys step h = elim (Bool-cases (any p xs)) [
  | inl t ↦ let (a, m, e) = any_elim p xs t in cc (step a m e)
  | inr f ↦ f
]

module _ {A : Type 0} where
  -- No two elements have the same key.
  abbrev pub Distinct : (A → ℕ) → List A → Type 0
  Distinct key [] = Unit
  Distinct key (x ∷ xs) = (any (λ y. key y == key x) xs ≡ false) × Distinct key xs

module _ {A : Type 0} (key : A → ℕ) where
  pub filter-Distinct : (p : A → Bool) (xs : List A) → Distinct key xs → Distinct key (filter p xs)
  filter-Distinct p [] d = tt
  filter-Distinct p (x ∷ xs) d = elim (Bool-cases (p x)) [
    | inl t ↦ rw t (
      any-false_transfer (λ y. key y == key x) (λ y. key y == key x) (filter p xs) xs
          (λ a m e. any_intro (λ y. key y == key x) a xs (In-of_filter p a xs m).0 e) d.0,
      filter-Distinct p xs d.1,
    )
    | inr f ↦ rw f (filter-Distinct p xs d.1)
  ]

module _ {A B : Type 0} (f : A → Option B) where
  pub In-of_filter_map :
      (b : B) (xs : List A) → In b (filter_map f xs) → (a : A) × In a xs × (f a ≡ some b)
  In-of_filter_map b [] m = absurd m
  In-of_filter_map b (x ∷ xs) m = elim (Option-cases (f x)) [
    | inl e ↦ let (a, k, q) = In-of_filter_map b xs (rw (e, filter_map, In) at m) in (a, inr k, q)
    | inr (y, e) ↦ elim (rw (e, filter_map, In) at m) [
      | inl i ↦ (x, inl refl, e ∙ ap some (sym i))
      | inr r ↦ let (a, k, q) = In-of_filter_map b xs r in (a, inr k, q)
    ]
  ]

  pub In-filter_map :
      (a : A) (b : B) (xs : List A) → In a xs → f a ≡ some b → In b (filter_map f xs)
  In-filter_map a b [] m h = absurd m
  In-filter_map a b (x ∷ xs) (inl e) h =
      let q : f x ≡ some b = subst (λ y. f y ≡ some b) e h in rw (q, filter_map, In) (inl refl)
  In-filter_map a b (x ∷ xs) (inr m) h = elim (Option-cases (f x)) [
    | inl e ↦ rw (e, filter_map, In) (In-filter_map a b xs m h)
    | inr (y, e) ↦ rw (e, filter_map, In) (inr (In-filter_map a b xs m h))
  ]

  pub find_map-some :
      (b : B) (xs : List A) → find_map f xs ≡ some b → (a : A) × In a xs × (f a ≡ some b)
  find_map-some b [] h = cc
  find_map-some b (x ∷ xs) h = elim (Option-cases (f x)) [
    | inl e ↦ let (a, k, q) = find_map-some b xs (rw (e, find_map) at h) in (a, inr k, q)
    | inr (y, e) ↦ (x, inl refl, e ∙ (rw (e, find_map) at h))
  ]

  pub find_map-none : (a : A) (xs : List A) → find_map f xs ≡ none → In a xs → f a ≡ none
  find_map-none a [] h m = absurd m
  find_map-none a (x ∷ xs) h m = elim (Option-cases (f x)) [
    | inl e ↦ elim m [
      | inl q ↦ subst (λ y. f y ≡ none) (sym q) e
      | inr k ↦ find_map-none a xs (rw (e, find_map) at h) k
    ]
    | inr (y, e) ↦ cc (rw (e, find_map) at h)
  ]

module _ {A : Type 0} (key : A → ℕ) where
  -- With distinct keys, `find` by key finds the element.
  pub find-Distinct :
      (a : A) (xs : List A) → Distinct key xs → In a xs → find (λ x. key x == key a) xs ≡ some a
  find-Distinct a [] d m = absurd m
  find-Distinct a (x ∷ xs) d (inl e) =
      subst (λ y. find (λ x'. key x' == key a) (y ∷ xs) ≡ some a) e (rw (==_refl (key a)))
  find-Distinct a (x ∷ xs) d (inr m) =
      let apart : (key a == key x) ≡ false = any-false (λ y. key y == key x) a xs d.0 m in
      ground (arith, find-Distinct a xs d.1 m)

pub find-none :
    {A : Type 0} (p : A → Bool) (a : A) (xs : List A) → find p xs ≡ none → In a xs → p a ≡ false
find-none p a [] h m = absurd m
find-none p a (x ∷ xs) h (inl e) = rw e (ground arith)
find-none p a (x ∷ xs) h (inr m) = find-none p a xs (ground arith) m
