-- ===== src/Queue/Schedule/Minimum.antt =====
-- The order of preemption candidates and `min_by_key` over it (src/queue/schedule.rs).
use homebased.Base.{
  ℕ, ◌≡◌, refl, sym, inl, inr, Bool, true, false, List, [], ◌∷◌, none, some, arith, Bool-cases, In,
  subst, ap, ◌⊎◌, ltb, if◌then◌else◌,
}
use homebased.Queue.Priority
use homebased.Queue.Schedule.Preempt.{Candidate, stop_rank, lex, key_lt, min_from, min_by_key}

-- A lexicographic test is transitive in its negation: `not (b < a)` and `not (c < b)`.
lex_trans :
    (a b c : ℕ) (p q r : Bool)
    → (p ≡ false → q ≡ false → r ≡ false)
    → lex b a p ≡ false
    → lex c b q ≡ false
    → lex c a r ≡ false
lex_trans a b c p q r step h k = ground arith

key_irreflexive : (c : Candidate) → key_lt c c ≡ false
key_irreflexive c = ground arith

key_asym : (c d : Candidate) → key_lt c d ≡ true → key_lt d c ≡ false
key_asym c d h = ground arith

last_trans : (x y z : ℕ) → ltb y x ≡ false → ltb z y ≡ false → ltb z x ≡ false
last_trans x y z h k = ground arith

-- The same for the last two parts of the key, of which the first is compared the other way round.
late_trans :
    (s t u x y z : ℕ)
    → lex s t (ltb y x) ≡ false
    → lex t u (ltb z y) ≡ false
    → lex s u (ltb z x) ≡ false
late_trans s t u x y z h k =
    lex_trans u t s (ltb z y) (ltb y x) (ltb z x) (λ i j. last_trans x y z j i) k h

late : Candidate → Candidate → Bool
late c d = lex d.started_at c.started_at (ltb c.run.resource d.run.resource)

middle : Candidate → Candidate → Bool
unfolding late
middle c d = lex (stop_rank c.stop) (stop_rank d.stop) (late c d)

key_trans : (a b c : Candidate) → key_lt b a ≡ false → key_lt c b ≡ false → key_lt c a ≡ false
unfolding middle
key_trans a b c =
    lex_trans (Priority.rank a.level) (Priority.rank b.level) (Priority.rank c.level) (middle b a)
      (middle c b) (middle c a)
      (lex_trans (stop_rank a.stop) (stop_rank b.stop) (stop_rank c.stop) (late b a) (late c b)
        (late c a)
        (late_trans a.started_at b.started_at c.started_at a.run.resource b.run.resource
          c.run.resource))

min_from_step :
    (best d : Candidate) (ds : List Candidate)
    → ((key_lt d best ≡ true) × (min_from best (d ∷ ds) ≡ min_from d ds))
      ⊎ ((key_lt d best ≡ false) × (min_from best (d ∷ ds) ≡ min_from best ds))
unfolding min_from
min_from_step best d ds = elim (Bool-cases (key_lt d best)) [
  | inl less ↦ inl (less, ap (λ b. min_from (if b then d else best) ds) less)
  | inr more ↦ inr (more, ap (λ b. min_from (if b then d else best) ds) more)
]

min_from-least :
    (best c : Candidate) (cs : List Candidate)
    → In c (best ∷ cs)
    → key_lt c (min_from best cs) ≡ false
unfolding min_from
min_from-least best c [] (inl e) = subst (λ x. key_lt x best ≡ false) (sym e) (key_irreflexive best)
min_from-least best c [] (inr m) = absurd m
min_from-least best c (d ∷ ds) m = elim (min_from_step best d ds) [
  | inl (less, e) ↦
      subst (λ x. key_lt c x ≡ false) (sym e)
        (elim m [
          | inl q ↦
              subst (λ x. key_lt x (min_from d ds) ≡ false) (sym q)
                (key_trans (min_from d ds) d best (min_from-least d d ds (inl refl))
                  (key_asym d best less))
          | inr k ↦ min_from-least d c ds k
        ])
  | inr (more, e) ↦
      subst (λ x. key_lt c x ≡ false) (sym e)
        (elim m [
          | inl q ↦ min_from-least best c ds (inl q)
          | inr (inl q) ↦
              subst (λ x. key_lt x (min_from best ds) ≡ false) (sym q)
                (key_trans (min_from best ds) best d (min_from-least best best ds (inl refl)) more)
          | inr (inr k) ↦ min_from-least best c ds (inr k)
        ])
]

min_from-In : (best : Candidate) (cs : List Candidate) → In (min_from best cs) (best ∷ cs)
unfolding min_from
min_from-In best [] = inl refl
min_from-In best (d ∷ ds) = elim (min_from_step best d ds) [
  | inl (less, e) ↦ subst (λ x. In x (best ∷ d ∷ ds)) (sym e) (inr (min_from-In d ds))
  | inr (more, e) ↦ subst (λ x. In x (best ∷ d ∷ ds)) (sym e) (widen (min_from-In best ds))
]
  where
    widen : In (min_from best ds) (best ∷ ds) → In (min_from best ds) (best ∷ d ∷ ds)
    widen (inl q) = inl q
    widen (inr k) = inr (inr k)

-- The minimum is one of the candidates, and no candidate comes before it.
pub min_by_key-least :
    (cs : List Candidate) (m : Candidate)
    → min_by_key cs ≡ some m
    → In m cs × ((c : Candidate) → In c cs → key_lt c m ≡ false)
unfolding min_by_key
min_by_key-least [] m h = absurd (ground arith)
min_by_key-least (c ∷ cs) m h =
    let e : min_from c cs ≡ m = ground arith in
    subst (λ x. In x (c ∷ cs) × ((d : Candidate) → In d (c ∷ cs) → key_lt d x ≡ false)) e
      (min_from-In c cs, λ d k. min_from-least c d cs k)

pub min_by_key-none : (cs : List Candidate) → min_by_key cs ≡ none → cs ≡ []
unfolding min_by_key
min_by_key-none [] h = refl
min_by_key-none (c ∷ cs) h = cc
