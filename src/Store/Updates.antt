-- ===== src/Store/Updates.antt =====
-- What an `UPDATE … WHERE …` does to the row that an identity finds.
use homebased.Base.{
  ℕ, ◌≡◌, refl, ◌∙◌, Bool, false, List, [], ◌∷◌, find, Option, none, some, arith, if◌then◌else◌,
  ◌==◌, Bool-cases, Option-cases, find-In, inl, inr,
}
use homebased.Ids.{ResourceId}
use homebased.Queue.Run.{ActiveRun}
use homebased.Store.Types.{ResourceRecord}
use homebased.Store.Access.{update}

module _ {A : Type 0} (key : A → ℕ) where
  abbrev pub changed : (A → Bool) → (A → A) → Option A → Option A
  changed p f none = none
  changed p f (some x) = some (if p x then f x else x)

  pub find-update :
      (p : A → Bool) (f : A → A) (k : ℕ) (xs : List A)
      → ((x : A) → key (f x) ≡ key x)
      → find (λ x. key x == k) (update p f xs) ≡ changed p f (find (λ x. key x == k) xs)
  unfolding update
  find-update p f k [] keeps = refl
  find-update p f k (x ∷ xs) keeps = elim (Bool-cases (p x)) [
    | inl t ↦ elim (Bool-cases (key x == k)) [
      | inl e ↦ rw (t, keeps x, e, t) refl
      | inr e ↦ rw (t, keeps x, e) (find-update p f k xs keeps)
    ]
    | inr t ↦ elim (Bool-cases (key x == k)) [
      | inl e ↦ rw (t, e, t) refl
      | inr e ↦ rw (t, e) (find-update p f k xs keeps)
    ]
  ]

-- The row that an identity finds.
abbrev pub at_resource : List ResourceRecord → ResourceId → Option ResourceRecord
at_resource rs id = find (λ r. r.id == id) rs

-- `set_run` on the resources alone.
unfoldable pub put : Option ActiveRun → ResourceId → List ResourceRecord → List ResourceRecord
unfolding update
put run id rs = update (λ r. r.id == id) (λ r. record r { run = run }) rs

-- The resource that is written has the run, and every other resource is as it was.
pub put_here :
    (run : Option ActiveRun) (id : ResourceId) (rs : List ResourceRecord) (r : ResourceRecord)
    → at_resource rs id ≡ some r
    → at_resource (put run id rs) id ≡ some (record r { run = run })
unfolding put
put_here run id rs r e =
    let here = (find-In (λ x. x.id == id) rs e).1 in
    find-update (λ r. r.id) (λ r. r.id == id) (λ r. record r { run = run }) id rs (λ x. refl)
    ∙ (rw e (rw here refl))

pub put_elsewhere :
    (run : Option ActiveRun) (id other : ResourceId) (rs : List ResourceRecord)
    → (other == id) ≡ false
    → at_resource (put run id rs) other ≡ at_resource rs other
unfolding put
put_elsewhere run id other rs h =
    find-update (λ r. r.id) (λ r. r.id == id) (λ r. record r { run = run }) other rs (λ x. refl)
    ∙ (elim (Option-cases (at_resource rs other)) [
      | inl e ↦ rw e refl
      | inr (r, e) ↦
          let here = (find-In (λ x. x.id == other) rs e).1 in
          let apart : (r.id == id) ≡ false = ground arith in rw e (rw apart refl)
    ])
