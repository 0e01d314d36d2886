-- ===== src/Base/Results.antt =====
-- `Result<T, E>` of the source, its `?` operator as a bind, and the `Option` methods that it uses.
use mathlib.Core.Bool.{Bool, true, false}
use mathlib.Core.Path.{◌≡◌, refl}
use mathlib.Core.Logic.{◌⊎◌, inl, inr}
use mathlib.Core.Option.{Option, none, some}
use homebased.Base.Tests.{if◌then◌else◌}

pub data Result {ℓ} (A : Type ℓ) (E : Type 0) : Type ℓ where
  ok : A → Result A E
  err : E → Result A E

-- `result?`, with what follows it.
infixl 5 ◌>>=◌
abbrev pub ◌>>=◌ {ℓ κ} :
    {A : Type ℓ} {B : Type κ} {E : Type 0} → Result A E → (A → Result B E) → Result B E
err problem >>= next = err problem
ok value >>= next = next value

abbrev pub ok_or {ℓ} : {A : Type ℓ} {E : Type 0} → Option A → E → Result A E
ok_or none e = err e
ok_or (some a) e = ok a

abbrev pub is_some {ℓ} : {A : Type ℓ} → Option A → Bool
is_some none = false
is_some (some _) = true

abbrev pub is_none {ℓ} : {A : Type ℓ} → Option A → Bool
is_none none = true
is_none (some _) = false

abbrev pub map_or {ℓ κ} : {A : Type ℓ} {B : Type κ} → Option A → B → (A → B) → B
map_or none d f = d
map_or (some a) d f = f a

abbrev pub unwrap_or {ℓ} : {A : Type ℓ} → Option A → A → A
unwrap_or none d = d
unwrap_or (some a) d = a

-- `if !test { return Err(problem) }`.
abbrev pub ensure : {E : Type 0} → Bool → E → Result (Unit {0}) E
ensure test problem = if test then ok tt else err problem

-- `result?;` of a result whose value is not used.
infixl 5 ◌>>◌
abbrev pub ◌>>◌ {κ} : {B : Type κ} {E : Type 0} → Result (Unit {0}) E → Result B E → Result B E
err problem >> rest = err problem
ok done >> rest = rest

-- To split on a computed result and keep the equation.
pub Result-cases {ℓ} :
    {A : Type ℓ} {E : Type 0} (r : Result A E) → ((a : A) × (r ≡ ok a)) ⊎ ((e : E) × (r ≡ err e))
Result-cases (ok a) = inl (a, refl)
Result-cases (err e) = inr (e, refl)

-- What is bound to a success succeeds: take the step apart.
pub >>=-ok {ℓ κ} :
    {E : Type 0} {A : Type ℓ} {B : Type κ} {out : B} (next : A → Result B E) (step : Result A E)
    → (step >>= next) ≡ ok out
    → (got : A) × (next got ≡ ok out) × (step ≡ ok got)
>>=-ok next (err problem) succeeds = cc
>>=-ok next (ok value) succeeds = (value, succeeds, refl)

pub >>-ok {κ} :
    {E : Type 0} {B : Type κ} {out : B} (rest : Result B E) (step : Result (Unit {0}) E)
    → (step >> rest) ≡ ok out
    → (rest ≡ ok out) × (step ≡ ok tt)
>>-ok rest (err problem) succeeds = cc
>>-ok rest (ok done) succeeds = (succeeds, refl)

pub ensure-ok {κ} :
    {E : Type 0} {B : Type κ} {out : B} (test : Bool) (problem : E) (rest : Result B E)
    → (ensure test problem >> rest) ≡ ok out
    → (test ≡ true) × (rest ≡ ok out)
ensure-ok true problem rest succeeds = (refl, succeeds)
ensure-ok false problem rest succeeds = cc
