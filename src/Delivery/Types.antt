-- ===== src/Delivery/Types.antt =====
-- Routes and envelopes of job events (src/queue/delivery.rs) and the rows of the tables that keep them
-- (src/store/schema.rs). A digest is the number that a SHA-256 hash spells, and a callback context and
-- the error of a refusal are the texts that they are stored as. Times of creation are left out.
use text.Mathlib.TextEquality.{eq_iff}
use native.Mathlib.Decide.{ℕ_discrete}
use homebased.Base.{ℕ, String, str_eq, List, Option, Bool, true, false, ◌≡◌, refl}
use homebased.Ids.{JobId, MachineId, ThreadId, Time}
use homebased.Queue.Job.{Target}
use homebased.Store.Types.{JobEvent, JobEventKind}

abbrev pub Digest : Type 0
Digest = ℕ

-- `JobSpec`: its thread, and the rest as its canonical text.
pub record JobSpec : Type 0 where
  pub thread : ThreadId
  pub content : List ℕ

pub data JobSubmission : Type 0 where
  unknown accepted : JobSubmission
  rejected : String → ℕ → JobSubmission

pub record JobRoute : Type 0 where
  pub job : JobId
  pub origin : MachineId
  pub authority : MachineId
  pub thread : ThreadId
  pub callback : String
  pub spec : JobSpec
  pub digest : Digest
  pub target : Option Target
  pub submission : JobSubmission

pub record RoutedJobEvent : Type 0 where
  pub origin : MachineId
  pub authority : MachineId
  pub digest : Digest
  pub event : JobEvent

pub data EventAcceptance : Type 0 where
  acknowledged expected : ℕ → EventAcceptance

pub record JobCursors : Type 0 where
  pub accepted : ℕ
  pub settled : ℕ

-- A row of `resource_job_routes`: its key, the route, and the cursors, which a check keeps at 0 or more.
pub record RouteRow : Type 0 where
  pub id : JobId
  pub route : JobRoute
  pub cursors : JobCursors

-- A row of `resource_job_inbox`.
pub record InboxRow : Type 0 where
  pub job : JobId
  pub seq : ℕ
  pub envelope : RoutedJobEvent
  pub suppressed : Option Time

-- The tables of the machine that owns the callbacks.
pub record Origin : Type 0 where
  pub routes : List RouteRow
  pub inbox : List InboxRow

String-decided : (a b : String) (t : Bool) → str_eq a b ≡ t → Dec (a ≡ b)
String-decided a b true e = yes ((eq_iff a b).0 e)
String-decided a b false e = no (λ h. cc ((eq_iff a b).1 h))

String-discrete : Discrete String
unfolding String-decided
String-discrete a b = String-decided a b (str_eq a b) refl

RoutedJobEvent-discrete : Discrete RoutedJobEvent
unfolding String-discrete ℕ_discrete
RoutedJobEvent-discrete = hlevel (ℕ_discrete, String-discrete)

JobSubmission-discrete : Discrete JobSubmission
unfolding String-discrete ℕ_discrete
JobSubmission-discrete = hlevel (ℕ_discrete, String-discrete)

Target-discrete : Discrete (Option Target)
unfolding ℕ_discrete
Target-discrete = hlevel ℕ_discrete

abbrev decided {ℓ} : {A : Type ℓ} → Dec A → Bool
decided (yes _) = true
decided (no _) = false

-- `==` of two envelopes, of two submissions and of two targets.
unfoldable pub same_envelope : RoutedJobEvent → RoutedJobEvent → Bool
unfolding RoutedJobEvent-discrete
same_envelope a b = decided (RoutedJobEvent-discrete a b)

unfoldable pub same_submission : JobSubmission → JobSubmission → Bool
unfolding JobSubmission-discrete
same_submission a b = decided (JobSubmission-discrete a b)

unfoldable pub same_target : Option Target → Option Target → Bool
unfolding Target-discrete
same_target a b = decided (Target-discrete a b)

unfoldable pub is_blocked : JobEventKind → Bool
is_blocked JobEventKind.job_blocked = true
is_blocked _ = false

decided-true {ℓ} : {A : Type ℓ} (d : Dec A) → decided d ≡ true → A
decided-true (yes p) h = p
decided-true (no n) h = cc

decided_refl {ℓ} : {A : Type ℓ} (a : A) (d : Dec (a ≡ a)) → decided d ≡ true
decided_refl a (yes p) = refl
decided_refl a (no n) = absurd (n refl)

pub same_envelope_eq : (a b : RoutedJobEvent) → same_envelope a b ≡ true → a ≡ b
unfolding same_envelope
same_envelope_eq a b = decided-true (RoutedJobEvent-discrete a b)

pub same_target_eq : (a b : Option Target) → same_target a b ≡ true → a ≡ b
unfolding same_target
same_target_eq a b = decided-true (Target-discrete a b)

pub same_envelope_refl : (a : RoutedJobEvent) → same_envelope a a ≡ true
unfolding same_envelope
same_envelope_refl a = decided_refl a (RoutedJobEvent-discrete a a)
